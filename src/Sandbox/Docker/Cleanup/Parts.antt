-- ===== src/Sandbox/Docker/Cleanup/Parts.antt =====
-- What each part of the object keeps.
use sentinel_gpt.Common.{
  ℕ, zero, suc, ◌≡◌, refl, Bool, true, false, Option, none, some, List, [], ◌∷◌,
}
use sentinel_gpt.Common.Text.{Text}
use sentinel_gpt.Errors.{Error, Result, ok, err, Returns-any}
use sentinel_gpt.Action.{Action, pure, lift, modify, proceed, refuse_if, ◌>>=◌, ◌>>◌}
use sentinel_gpt.Action.Keeps.{
  Keeps, Keeps-bind, Keeps-pure, Keeps-raise, Keeps-lift, Keeps-refuse_if, Keeps-asks,
}
use sentinel_gpt.Network.Binding.{SandboxEgressPolicy}
use sentinel_gpt.Sandbox.Commands.{Command, Tool, remove_container, exec}
use sentinel_gpt.Sandbox.Rules.{Problem}
use sentinel_gpt.Sandbox.Docker.{
  Sandbox, Docker, send, docker_or, best_effort, unique_name, container_name, destroy_pending,
  destroy_container, destroy_network, destroy, preflight, destroy_if, create_network, join_networks,
  await_running, read_rule_dump, exec_probe, install_egress_rules, refuse_problems, verify,
  verify_identity, verify_privilege_drop, suppressed, run,
}
use sentinel_gpt.Sandbox.Docker.Cleanup.{starts}
use sentinel_gpt.Sandbox.Docker.Cleanup.Stable.{IsStable}

module _ (d : Docker) (P : Sandbox → Type 0) (stable : IsStable P) where
  abbrev pub Stays : {A : Type 0} → Action Sandbox A → Type 0
  Stays m = Keeps P (λ _. Unit {0}) m

  pub stays : {A : Type 0} (m : Action Sandbox A) → ((s : Sandbox) → P s → P (m s).1) → Stays m
  stays m h = record { state = h; value = λ s p. Returns-any _ }

  Stays-lift : {A : Type 0} (r : Result A) → Stays (lift r)
  Stays-lift r = Keeps-lift r (Returns-any r)

  Stays-reads : {A : Type 0} (f : Sandbox → Result A) → Stays (λ s. (f s, s))
  Stays-reads f = stays _ λ s p. p

  Stays-send : (c : Command) → starts c ≡ none → Stays (send d c)
  unfolding send
  Stays-send c e = stays _ λ s p. stable.after_send c s e p

  pub Stays-docker_or : (e : Error) (c : Command) → starts c ≡ none → Stays (docker_or d e c)
  unfolding docker_or
  Stays-docker_or e c quiet = Keeps-bind _ _ (Stays-send c quiet) λ reply _. Stays-lift _

  Stays-best_effort : (c : Command) → starts c ≡ none → Stays (best_effort d c)
  unfolding best_effort
  Stays-best_effort c quiet = Keeps-bind _ _ (Stays-send c quiet) λ reply _. Stays-lift _

  pub Stays-unique_name : Stays (unique_name d)
  unfolding unique_name
  Stays-unique_name = stays _ λ s p. stable.after_name s p

  Stays-container_name : Stays (container_name d)
  unfolding container_name
  Stays-container_name = Stays-reads _

  forget_pending :
      (r : Result (Unit {0})) (m : Text) (s : Sandbox)
      → s.pending_container ≡ some m
      → P s
      → P
          (proceed
            (λ _. modify (λ s'. record s' { pending_container = none }))
            r
            (record s { sent = remove_container m ∷ s.sent })).1
  forget_pending (ok _) m s e p = stable.after_pending m s e p
  forget_pending (err _) m s e p = stable.after_send _ s refl p

  pending_state :
      (o : Option Text) (s : Sandbox) → s.pending_container ≡ o → P s → P (destroy_pending d o s).1
  unfolding destroy_pending best_effort send ◌>>=◌
  pending_state none s e p = p
  pending_state (some m) s e p = forget_pending (suppressed (d.runner s.sent _)) m s e p

  forget_container :
      (r : Result (Unit {0})) (m : Text) (s : Sandbox)
      → s.container ≡ some m
      → P s
      → P
          (proceed
            (λ _. modify (λ s'. record s' { container = none }))
            r
            (record s { sent = remove_container m ∷ s.sent })).1
  forget_container (ok _) m s e p = stable.after_container m s e p
  forget_container (err _) m s e p = stable.after_send _ s refl p

  container_state :
      (o : Option Text) (s : Sandbox) → s.container ≡ o → P s → P (destroy_container d o s).1
  unfolding destroy_container best_effort send ◌>>=◌
  container_state none s e p = p
  container_state (some m) s e p = forget_container (suppressed (d.runner s.sent _)) m s e p

  Stays-destroy_network : (o : Option Text) → Stays (destroy_network d o)
  unfolding destroy_network
  Stays-destroy_network none = Keeps-pure tt tt
  Stays-destroy_network (some m) =
      Keeps-bind _ _ (Stays-best_effort _ refl) λ _ _. stays _ λ s p. stable.after_network none s p

  seq_state :
      {A : Type 0} (m : Action Sandbox (Unit {0})) (rest : Action Sandbox A) (s : Sandbox)
      → P (m s).1
      → Stays rest
      → P ((m >> rest) s).1
  unfolding ◌>>=◌
  seq_state m rest s p k = proceed_rest (m s).0 (m s).1 rest p k
    where
      proceed_rest :
          {A : Type 0} (r : Result (Unit {0})) (s' : Sandbox) (rest : Action Sandbox A)
          → P s'
          → Stays rest
          → P (proceed (λ _. rest) r s').1
      proceed_rest (ok _) s' rest p k = k.state s' p
      proceed_rest (err _) s' rest p k = p

  pub Stays-destroy : Stays (destroy d)
  unfolding destroy ◌>>=◌
  Stays-destroy = stays _ λ s p.
      seq_state (destroy_pending d s.pending_container) _ (record s { is_established = false })
        (pending_state s.pending_container (record s { is_established = false }) refl
          (stable.after_mark false s p))
        (stays _ λ s1 p1.
          seq_state (destroy_container d s1.container) _ s1
            (container_state s1.container s1 refl p1)
            (stays _ λ s2 p2. (Stays-destroy_network s2.network).state s2 p2))

  pub Stays-destroy_if : (b : Bool) (e : Error) → Stays (destroy_if d b e)
  unfolding destroy_if
  Stays-destroy_if true e = Keeps-bind _ _ Stays-destroy λ _ _. Keeps-raise e
  Stays-destroy_if false e = Keeps-pure tt tt

  pub Stays-refuse : (b : Bool) (e : Error) → Stays (refuse_if b e)
  Stays-refuse b e = stays _ λ s p. (Keeps-refuse_if {P = P} b e).state s p

  pub Stays-preflight : Stays (preflight d)
  unfolding preflight
  Stays-preflight =
      Keeps-bind _ _ (Stays-refuse _ _)
        λ _ _. Keeps-bind _ _ (Stays-docker_or _ _ refl) λ inspect _. Stays-refuse _ _

  pub Stays-create_network : Stays (create_network d)
  unfolding create_network
  Stays-create_network = Keeps-bind _ _ Stays-unique_name λ name _.
      Keeps-bind _ _ (Stays-docker_or _ _ refl) λ result _.
        Keeps-bind _ _ (Stays-destroy_if _ _)
          λ _ _. stays _ λ s p. stable.after_network (some name) s p

  pub Stays-join_networks : (name : Text) (extra : List Text) → Stays (join_networks d name extra)
  unfolding join_networks
  Stays-join_networks name [] = Keeps-pure tt tt
  Stays-join_networks name (extra ∷ networks) =
      Keeps-bind _ _ (Stays-docker_or _ _ refl)
        λ attached _. Keeps-bind _ _ (Stays-refuse _ _) λ _ _. Stays-join_networks name networks

  pub Stays-await_running : (polls : ℕ) (name : Text) → Stays (await_running d polls name)
  unfolding await_running
  Stays-await_running zero name = Keeps-raise _
  Stays-await_running (suc polls) name =
      Keeps-bind _ _ (Stays-docker_or _ _ refl)
        λ state _. Stays-poll _ (Stays-await_running polls name)
    where
      Stays-poll :
          (b : Bool) {m : Action Sandbox (Unit {0})}
          → Stays m
          → Stays (elim b [ true ↦ pure tt | false ↦ m ])
      Stays-poll true k = Keeps-pure tt tt
      Stays-poll false k = k

  pub Stays-read_rule_dump : (tool : Tool) → Stays (read_rule_dump d tool)
  unfolding read_rule_dump
  Stays-read_rule_dump tool = Keeps-bind _ _ Stays-container_name λ name _.
      Keeps-bind _ _ (Stays-docker_or _ _ refl)
        λ result _. Keeps-bind _ _ (Stays-refuse _ _) λ _ _. Keeps-pure _ tt

  pub Stays-exec_probe : (args : List Text) → Stays (exec_probe d args)
  unfolding exec_probe
  Stays-exec_probe args =
      Keeps-bind _ _ Stays-container_name
        λ name _. Keeps-bind _ _ (Stays-send (exec name args) refl) λ reply _. Stays-lift _

  -- The only way to run a command inside keeps it too.
  pub Stays-run : (args : List Text) → Stays (run d args)
  unfolding run
  Stays-run args =
      Keeps-bind _ _ (Keeps-asks _)
        λ up _. Keeps-bind _ _ (Stays-refuse _ _) λ _ _. Stays-exec_probe args

  Stays-verify_identity : (uid : ℕ) → Stays (verify_identity d uid)
  unfolding verify_identity
  Stays-verify_identity uid = Keeps-bind _ _ (Stays-exec_probe _) λ identity _.
      Keeps-bind _ _ (Stays-destroy_if _ _)
        λ _ _. Keeps-bind _ _ (Stays-exec_probe _) λ probe _. Stays-destroy_if _ _

  pub Stays-verify_privilege_drop : (uid : Option ℕ) → Stays (verify_privilege_drop d uid)
  unfolding verify_privilege_drop
  Stays-verify_privilege_drop none = Keeps-pure tt tt
  Stays-verify_privilege_drop (some uid) = Stays-verify_identity uid

  module _ (policy : SandboxEgressPolicy) where
    pub Stays-install_egress_rules : Stays (install_egress_rules d policy)
    unfolding install_egress_rules
    Stays-install_egress_rules = Keeps-bind _ _ Stays-container_name λ name _.
        Keeps-bind _ _ (Stays-docker_or _ _ refl) λ installed _.
          Keeps-bind _ _ (Stays-refuse _ _)
            λ _ _. Keeps-bind _ _ (Stays-docker_or _ _ refl) λ installed6 _. Stays-refuse _ _

    Stays-refuse_problems : (problems : List Problem) → Stays (refuse_problems d problems)
    unfolding refuse_problems
    Stays-refuse_problems [] = Keeps-pure tt tt
    Stays-refuse_problems (_ ∷ _) = Keeps-bind _ _ Stays-destroy λ _ _. Keeps-raise _

    pub Stays-verify : Stays (verify d policy)
    unfolding verify
    Stays-verify = Keeps-bind _ _ (Keeps-asks _) λ container _.
        Keeps-bind _ _ (Stays-refuse _ _) λ _ _.
          Keeps-bind _ _ (Stays-read_rule_dump _) λ rule_dump _.
            Keeps-bind _ _ (Stays-read_rule_dump _)
              λ v6_dump _. Keeps-bind _ _ (Stays-refuse_problems _) λ _ _. Keeps-pure _ tt
