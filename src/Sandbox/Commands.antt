-- ===== src/Sandbox/Commands.antt =====
-- backend/src/scanning/sandbox/docker_sandbox.py: the commands that the sandbox sends to Docker.
use sentinel_gpt.Common.{ℕ, Bool, Option, none, some, List, [], ◌∷◌, ◌++◌, map}
use sentinel_gpt.Common.Text.{Text, codes, join}
use sentinel_gpt.Targets.Urls.{show}

-- `DockerSandboxConfig`, with `check_docker_binary` and what `shutil.which` finds in `has_binary`;
-- the timeouts are in `Reply` and in the count of polls.
pub record DockerSandboxConfig : Type 0 where
  pub image : Text
  pub docker_bin : Text
  pub workload_uid : Option ℕ
  pub extra_networks : List Text
  pub check_docker_binary : Bool
  pub has_binary : Bool

pub data Tool : Type 0 where
  iptables ip6tables : Tool

abbrev pub tool_name : Tool → Text
tool_name iptables = codes "iptables"
tool_name ip6tables = codes "ip6tables"

pub data Command : Type 0 where
  image_inspect : Command
  network_create : Text → Command
  run_container : Text → Text → Command
  network_connect : Text → Text → Command
  inspect_running : Text → Command
  install_rules : Text → Text → Command
  dump_rules : Tool → Text → Command
  exec : Text → List Text → Command
  remove_container : Text → Command
  remove_network : Text → Command

-- `subprocess.run`: the process, a `TimeoutExpired`, an `OSError` or other `SubprocessError`, or any
-- other exception.
pub record CompletedProcess : Type 0 where
  pub returncode : ℕ
  pub stdout : Text

pub data Reply : Type 0 where
  completed : CompletedProcess → Reply
  timed_out not_invoked crashed : Reply

-- The arguments of `_exec_argv` before the container
abbrev as_user : Option ℕ → List Text
as_user none = []
as_user (some uid) = codes "-u" ∷ show uid ∷ []

unfoldable pub argv : DockerSandboxConfig → Command → List Text
argv config image_inspect = config.docker_bin ∷ codes "image" ∷ codes "inspect" ∷ config.image ∷ []
argv config (network_create name) =
    config.docker_bin
    ∷ codes "network"
    ∷ codes "create"
    ∷ codes "--driver"
    ∷ codes "bridge"
    ∷ name
    ∷ []
argv config (run_container name network) =
    config.docker_bin
    ∷ codes "run"
    ∷ codes "-d"
    ∷ codes "--name"
    ∷ name
    ∷ codes "--network"
    ∷ network
    ∷ codes "--cap-add"
    ∷ codes "NET_ADMIN"
    ∷ config.image
    ∷ codes "sleep"
    ∷ codes "infinity"
    ∷ []
argv config (network_connect network name) =
    config.docker_bin ∷ codes "network" ∷ codes "connect" ∷ network ∷ name ∷ []
argv config (inspect_running name) =
    config.docker_bin ∷ codes "inspect" ∷ codes "-f" ∷ codes "{{.State.Running}}" ∷ name ∷ []
argv config (install_rules name script) =
    config.docker_bin ∷ codes "exec" ∷ name ∷ codes "sh" ∷ codes "-c" ∷ script ∷ []
argv config (dump_rules tool name) =
    config.docker_bin ∷ codes "exec" ∷ name ∷ tool_name tool ∷ codes "-S" ∷ codes "OUTPUT" ∷ []
argv config (exec name args) =
    config.docker_bin ∷ codes "exec" ∷ (as_user config.workload_uid ++ (name ∷ args))
argv config (remove_container name) = config.docker_bin ∷ codes "rm" ∷ codes "-f" ∷ name ∷ []
argv config (remove_network name) = config.docker_bin ∷ codes "network" ∷ codes "rm" ∷ name ∷ []

-- `_iptables_script`
unfoldable pub iptables_script : Tool → List Text → Text
iptables_script tool accepts = join (codes " && ") (
    (tool_name tool ++ codes " -P OUTPUT DROP")
    ∷ (tool_name tool ++ codes " -A OUTPUT -m state --state ESTABLISHED,RELATED -j ACCEPT")
    ∷ map (λ dest. tool_name tool ++ (codes " -A OUTPUT -d " ++ (dest ++ codes " -j ACCEPT")))
        accepts)
