-- ===== src/Sandbox/Docker.antt =====
-- backend/src/scanning/sandbox/docker_sandbox.py: `DockerEgressSandbox`. The state is that of the
-- object, with the commands sent so far (newest first) and the supply of random names. Docker is
-- given: what it replies to a command, after those before it.
pub mod Cleanup
pub mod Reads
pub mod Verified
use sentinel_gpt.Common.{
  ℕ, suc, zero, Bool, true, false, not, ◌&&◌, Option, none, some, List, [], ◌∷◌, ◌++◌, map, nat_eq,
  ◌==◌, if◌then◌else◌, keep_if,
}
use sentinel_gpt.Common.Text.{Text, codes, text_eq, strip, Unicode}
use sentinel_gpt.Errors.{
  Error, Result, ok, err, sandbox_unavailable, sandbox_setup_failed, sandbox_verification_failed,
  assertion_error, other_exception,
}
use sentinel_gpt.Action.{Action, pure, raise, lift, asks, reads, modify, refuse_if, ◌>>=◌, ◌>>◌}
use sentinel_gpt.Network.IpAddress.{IpAddress}
use sentinel_gpt.Network.Binding.{SandboxEgressPolicy, is_some}
use sentinel_gpt.Targets.Urls.{show}
use sentinel_gpt.Sandbox.Commands.{
  DockerSandboxConfig, Tool, iptables, ip6tables, Command, image_inspect, network_create,
  run_container, network_connect, inspect_running, install_rules, dump_rules, exec,
  remove_container, remove_network, CompletedProcess, Reply, completed, timed_out, not_invoked,
  crashed, argv, iptables_script,
}
use sentinel_gpt.Sandbox.Rules.{Problem, compare_against_policy, expected_v4, expected_v6}

pub record SandboxVerification : Type 0 where
  pub rule_dump : List Text
  pub allowed_addresses : List IpAddress
  pub workload_uid : Option ℕ

pub record ExecResult : Type 0 where
  pub exit_code : ℕ
  pub stdout : Text

pub record Sandbox : Type 0 where
  pub network : Option Text
  pub container : Option Text
  pub pending_container : Option Text
  pub is_established : Bool
  pub verification : Option SandboxVerification
  pub sent : List Command
  pub supply : ℕ

-- `polls` is how often the start of the container is looked at before the deadline; `fresh_name`
-- puts the prefix before the digits of a random number; `runner` is `subprocess.run`.
pub record Docker : Type 0 where
  pub config : DockerSandboxConfig
  pub unicode : Unicode
  pub splitlines : Text → List Text
  pub show_ip : IpAddress → Text
  pub polls : ℕ
  pub fresh_name : ℕ → Text
  pub runner : List Command → List Text → Reply

-- A new object over the same daemon
unfoldable pub created : Sandbox → Sandbox
created s = record s {
  network = none;
  container = none;
  pending_container = none;
  is_established = false;
  verification = none;
}

abbrev pub or_assert : Option Text → Result Text
or_assert none = err assertion_error
or_assert (some name) = ok name

-- `_docker_or_unavailable` and the like: what the two failures of a call become
pub replied : Error → Reply → Result CompletedProcess
replied e (completed p) = ok p
replied e timed_out = err e
replied e not_invoked = err e
replied e crashed = err other_exception

-- `_exec`: a timeout is the exit code 124.
pub executed : Reply → Result ExecResult
executed (completed p) = ok (record { exit_code = p.returncode; stdout = p.stdout })
executed timed_out = ok (record { exit_code = 124; stdout = [] })
executed not_invoked = err other_exception
executed crashed = err other_exception

-- `_best_effort`
suppressed : Reply → Result (Unit {0})
suppressed crashed = err other_exception
suppressed _ = ok tt

module _ (d : Docker) where
  pub send : Command → Action Sandbox Reply
  send c s = (ok (d.runner s.sent (argv d.config c)), record s { sent = c ∷ s.sent })

  pub docker_or : Error → Command → Action Sandbox CompletedProcess
  unfolding send replied
  docker_or e c = do reply ← send c; lift (replied e reply)

  pub best_effort : Command → Action Sandbox (Unit {0})
  unfolding send suppressed
  best_effort c = do reply ← send c; lift (suppressed reply)

  pub unique_name : Action Sandbox Text
  unique_name s = (ok (d.fresh_name s.supply), record s { supply = suc s.supply })

  pub container_name : Action Sandbox Text
  container_name = reads (λ s. or_assert s.container)

  pub destroy_pending : Option Text → Action Sandbox (Unit {0})
  unfolding best_effort
  destroy_pending none = pure tt
  destroy_pending (some name) = do
    best_effort (remove_container name)
    modify (λ s. record s { pending_container = none })

  pub destroy_container : Option Text → Action Sandbox (Unit {0})
  unfolding best_effort
  destroy_container none = pure tt
  destroy_container (some name) = do
    best_effort (remove_container name)
    modify (λ s. record s { container = none })

  pub destroy_network : Option Text → Action Sandbox (Unit {0})
  unfolding best_effort
  destroy_network none = pure tt
  destroy_network (some name) = do
    best_effort (remove_network name)
    modify (λ s. record s { network = none })

  unfoldable pub destroy : Action Sandbox (Unit {0})
  unfolding destroy_pending destroy_container destroy_network
  destroy = do
    modify (λ s. record s { is_established = false })
    pending ← asks (λ s. s.pending_container)
    destroy_pending pending
    container ← asks (λ s. s.container)
    destroy_container container
    network ← asks (λ s. s.network)
    destroy_network network

  pub preflight : Action Sandbox (Unit {0})
  unfolding docker_or
  preflight = do
    refuse_if (d.config.check_docker_binary && not d.config.has_binary) sandbox_unavailable
    inspect ← docker_or sandbox_unavailable image_inspect
    refuse_if (not (inspect.returncode == 0)) sandbox_unavailable

  -- `if result.returncode != 0: self.destroy(); raise ...`
  pub destroy_if : Bool → Error → Action Sandbox (Unit {0})
  unfolding destroy
  destroy_if true e = do destroy; raise e
  destroy_if false e = pure tt

  pub create_network : Action Sandbox (Unit {0})
  unfolding unique_name docker_or destroy_if
  create_network = do
    name ← unique_name
    result ← docker_or sandbox_setup_failed (network_create name)
    destroy_if (not (result.returncode == 0)) sandbox_setup_failed
    modify (λ s. record s { network = some name })

  pub join_networks : Text → List Text → Action Sandbox (Unit {0})
  unfolding docker_or
  join_networks name [] = pure tt
  join_networks name (extra ∷ networks) = do
    attached ← docker_or sandbox_setup_failed (network_connect extra name)
    refuse_if (not (attached.returncode == 0)) sandbox_setup_failed
    join_networks name networks

  -- `_await_running`, over the polls that are left
  pub await_running : ℕ → Text → Action Sandbox (Unit {0})
  unfolding docker_or text_eq strip
  await_running zero name = raise sandbox_setup_failed
  await_running (suc polls) name = do
    state ← docker_or sandbox_setup_failed (inspect_running name)
    elim (state.returncode == 0 && strip d.unicode.is_space state.stdout == codes "true") [
      | true ↦ pure tt
      | false ↦ await_running polls name
    ]

  pub start_container : Text → Text → Action Sandbox (Unit {0})
  unfolding docker_or destroy_if
  start_container name network = do
    modify (λ s. record s { pending_container = some name })
    result ← docker_or sandbox_setup_failed (run_container name network)
    destroy_if (not (result.returncode == 0)) sandbox_setup_failed
    modify (λ s. record s { pending_container = none; container = some name })

  pub create_container : Action Sandbox (Unit {0})
  unfolding unique_name start_container join_networks await_running
  create_container = do
    network ← reads (λ s. or_assert s.network)
    name ← unique_name
    start_container name network
    join_networks name d.config.extra_networks
    await_running d.polls name

  -- `_read_rule_dump`
  pub read_rule_dump : Tool → Action Sandbox (List Text)
  unfolding container_name docker_or strip
  read_rule_dump tool = do
    name ← container_name
    result ← docker_or sandbox_setup_failed (dump_rules tool name)
    refuse_if (not (result.returncode == 0)) sandbox_verification_failed
    pure (keep_if (λ line. not (strip d.unicode.is_space line == [])) (d.splitlines result.stdout))

  pub exec_probe : List Text → Action Sandbox ExecResult
  unfolding container_name send executed
  exec_probe args = do name ← container_name; reply ← send (exec name args); lift (executed reply)

  -- `destroy` and the error, if there is a problem
  pub refuse_problems : List Problem → Action Sandbox (Unit {0})
  unfolding destroy
  refuse_problems [] = pure tt
  refuse_problems (_ ∷ _) = do destroy; raise sandbox_verification_failed

  -- The two probes of `_verify_privilege_drop`
  pub verify_identity : ℕ → Action Sandbox (Unit {0})
  unfolding exec_probe destroy_if text_eq strip show
  verify_identity uid = do
    identity ← exec_probe (codes "id" ∷ codes "-u" ∷ [])
    destroy_if
        (not (identity.exit_code == 0 && strip d.unicode.is_space identity.stdout == show uid))
        sandbox_verification_failed
    probe ← exec_probe (codes "iptables" ∷ codes "-w" ∷ codes "-S" ∷ codes "OUTPUT" ∷ [])
    destroy_if (probe.exit_code == 0) sandbox_verification_failed

  pub verify_privilege_drop : Option ℕ → Action Sandbox (Unit {0})
  unfolding verify_identity
  verify_privilege_drop none = pure tt
  verify_privilege_drop (some uid) = verify_identity uid

  module _ (policy : SandboxEgressPolicy) where
    pub install_egress_rules : Action Sandbox (Unit {0})
    unfolding container_name docker_or expected_v4 expected_v6 iptables_script
    install_egress_rules = do
      name ← container_name
      installed ←
          docker_or sandbox_setup_failed
            (install_rules name (iptables_script iptables (expected_v4 d.show_ip policy)))
      refuse_if (not (installed.returncode == 0)) sandbox_setup_failed
      installed6 ←
          docker_or sandbox_setup_failed
            (install_rules name (iptables_script ip6tables (expected_v6 d.show_ip policy)))
      refuse_if (not (installed6.returncode == 0)) sandbox_setup_failed

    unfoldable pub verify : Action Sandbox SandboxVerification
    unfolding read_rule_dump refuse_problems compare_against_policy
    verify = do
      container ← asks (λ s. s.container)
      refuse_if (not (is_some container)) sandbox_verification_failed
      rule_dump ← read_rule_dump iptables
      v6_dump ← read_rule_dump ip6tables
      refuse_problems (compare_against_policy d.unicode.is_space d.show_ip policy rule_dump v6_dump)
      pure (record {
        rule_dump = rule_dump ++ v6_dump;
        allowed_addresses = policy.allowed_addresses;
        workload_uid = d.config.workload_uid;
      })

    -- The body of `establish` under its `try`
    pub stand_up : Action Sandbox SandboxVerification
    unfolding create_network create_container install_egress_rules verify verify_privilege_drop
    stand_up = do
      create_network
      create_container
      install_egress_rules
      verification ← verify
      verify_privilege_drop d.config.workload_uid
      pure verification

    -- `except Exception`: a failure of the clean-up is suppressed, and the first one is raised.
    pub or_destroy : Result SandboxVerification × Sandbox → Result SandboxVerification × Sandbox
    unfolding destroy
    or_destroy (ok verification, s) =
        (ok verification, record s { verification = some verification; is_established = true })
    or_destroy (err e, s) = (err e, (destroy (record s { is_established = false })).1)

    unfoldable pub establish : Action Sandbox SandboxVerification
    unfolding preflight stand_up or_destroy
    establish = do
      up ← asks (λ s. s.is_established)
      refuse_if up sandbox_setup_failed
      preflight
      λ s. or_destroy (stand_up s)

  unfoldable pub run : List Text → Action Sandbox ExecResult
  unfolding exec_probe
  run args = do
    up ← asks (λ s. s.is_established && is_some s.container)
    refuse_if (not up) sandbox_unavailable
    exec_probe args
