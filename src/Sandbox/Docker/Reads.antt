-- ===== src/Sandbox/Docker/Reads.antt =====
-- What `_read_rule_dump` returns is what Docker replied.
use sentinel_gpt.Common.{
  ℕ, ◌≡◌, refl, Bool, true, false, not, ◌==◌, nat_eq, Option, none, some, List, [], ◌∷◌, ◌++◌,
  keep_if, arith, ap, ◌∙◌, sym,
}
use sentinel_gpt.Common.Text.{Text, text_eq, strip}
use sentinel_gpt.Errors.{
  Returns-imp, Returns-any, Error, Result, ok, err, Returns, returned, raised,
}
use sentinel_gpt.Action.{lift, proceed, raise, ◌>>=◌}
use sentinel_gpt.Action.Outcome.{Yields, Yields-then, Yields-refuse_if, Yields-pure}
use sentinel_gpt.Sandbox.Commands.{
  Tool, Command, dump_rules, exec, CompletedProcess, Reply, completed, timed_out, not_invoked,
  crashed, argv,
}
use sentinel_gpt.Sandbox.Docker.{
  Sandbox, Docker, send, docker_or, replied, or_assert, container_name, read_rule_dump, exec_probe,
  destroy_if, destroy, verify_identity, verify_privilege_drop, executed,
}

-- Docker replied to the command for a table, after the commands before it, with these lines.
pub record Dumped (d : Docker) (before : List Command) (tool : Tool) (name : Text)
    (dump : List Text) : Type 0 where
  pub reply : CompletedProcess
  pub answers : d.runner before (argv d.config (dump_rules tool name)) ≡ completed reply
  pub exits : reply.returncode ≡ 0
  pub lines :
      dump ≡ keep_if (λ line. not (strip d.unicode.is_space line == [])) (d.splitlines reply.stdout)

-- The dump was read of the container of the sandbox, which stays, by one command.
pub record ReadFrom (d : Docker) (tool : Tool) (s : Sandbox) (dump : List Text) (s' : Sandbox)
    : Type 0 where
  pub name : Text
  pub container : s.container ≡ some name
  pub stays : s'.container ≡ s.container
  pub sent : s'.sent ≡ dump_rules tool name ∷ s.sent
  pub dumped : Dumped d s.sent tool name dump

-- Commands were sent, and the container is the same.
pub record Grown (s s' : Sandbox) : Type 0 where
  pub container : s'.container ≡ s.container
  pub later : List Command
  pub sent : s'.sent ≡ later ++ s.sent

Grown-refl : (s : Sandbox) → Grown s s
Grown-refl s = record { container = refl; later = []; sent = refl }

pub append_assoc : (xs ys zs : List Command) → (xs ++ ys) ++ zs ≡ xs ++ (ys ++ zs)
append_assoc [] ys zs = refl
append_assoc (x ∷ xs) ys zs = ap (λ l. x ∷ l) (append_assoc xs ys zs)

pub Grown-trans : (s s' s'' : Sandbox) → Grown s s' → Grown s' s'' → Grown s s''
Grown-trans s s' s'' g h = record {
  container = h.container ∙ g.container;
  later = h.later ++ g.later;
  sent = h.sent ∙ (ap (λ l. h.later ++ l) g.sent ∙ sym (append_assoc h.later g.later s.sent));
}

exit_zero : (n : ℕ) → not (n == 0) ≡ false → n ≡ 0
unfolding nat_eq
exit_zero n h = ground arith

module _ (d : Docker) where
  Names : Sandbox → Text → Sandbox → Type 0
  Names s name s' = (s.container ≡ some name) × (s' ≡ s)

  Yields-container_name : (s : Sandbox) → Yields s (Names s) (container_name d)
  unfolding container_name Names
  Yields-container_name s = record { outcome = named s.container refl }
    where
      named :
          (o : Option Text)
          → s.container ≡ o
          → Returns (λ name. (s.container ≡ some name) × (s ≡ s)) (or_assert o)
      named none e = raised
      named (some name) e = returned (e, refl)

  Replies : Sandbox → Command → CompletedProcess → Sandbox → Type 0
  Replies s c p s' =
      (d.runner s.sent (argv d.config c) ≡ completed p) × (s' ≡ record s { sent = c ∷ s.sent })

  Yields-docker_or :
      (e : Error) (c : Command) (s : Sandbox) → Yields s (Replies s c) (docker_or d e c)
  unfolding docker_or send replied ◌>>=◌ Replies
  Yields-docker_or e c s = record { outcome = answered (d.runner s.sent (argv d.config c)) refl }
    where
      answered :
          (r : Reply)
          → d.runner s.sent (argv d.config c) ≡ r
          → Returns
              (λ p.
                (d.runner s.sent (argv d.config c) ≡ completed p)
                × (record s { sent = c ∷ s.sent } ≡ record s { sent = c ∷ s.sent }))
              (replied e r)
      answered (completed p) h = returned (h, refl)
      answered timed_out h = raised
      answered not_invoked h = raised
      answered crashed h = raised

  pub Yields-read_rule_dump :
      (tool : Tool) (s : Sandbox) → Yields s (ReadFrom d tool s) (read_rule_dump d tool)
  unfolding read_rule_dump Names Replies
  Yields-read_rule_dump tool s =
      Yields-then (Names s) _ s _ _ (Yields-container_name s) λ name s' (named, same).
        Yields-then (Replies s' (dump_rules tool name)) _ s' _ _ (Yields-docker_or _ _ s')
          λ p s'' (answers, after). Yields-refuse_if s'' _ _ _ λ exits. Yields-pure s'' _ (record {
            name = name;
            container = named;
            stays = ap (λ x. x.container) after ∙ ap (λ x. x.container) same;
            sent = ap (λ x. x.sent) after ∙ ap (λ x. dump_rules tool name ∷ x.sent) same;
            dumped = record {
              reply = p;
              answers =
                  ap (λ x. d.runner x.sent (argv d.config (dump_rules tool name))) (sym same)
                  ∙ answers;
              exits = exit_zero p.returncode exits;
              lines = refl;
            };
          })

  Grown-send :
      (c : Command) (s s' : Sandbox)
      → s' ≡ s
      → Yields s' (λ _. Grown s) (send d c >>= λ reply. lift (executed reply))
  unfolding send ◌>>=◌
  Grown-send c s s' same = record {
    outcome = Returns-imp (Returns-any {0, 0} _) λ _ _. record {
      container = ap (λ x. x.container) same;
      later = c ∷ [];
      sent = ap (λ x. c ∷ x.sent) same;
    };
  }

  Grown-exec_probe : (args : List Text) (s : Sandbox) → Yields s (λ _. Grown s) (exec_probe d args)
  unfolding exec_probe Names
  Grown-exec_probe args s =
      Yields-then (Names s) _ s _ _ (Yields-container_name s)
        λ name s' (named, same). Grown-send (exec name args) s s' same

  pub fails :
      {A B : Type 0} {Q : A → Type 0} (r : Result B) (e : Error) (s : Sandbox)
      → Returns Q (proceed (λ _. raise e) r s).0
  fails (ok b) e s = raised
  fails (err e') e s = raised

  Grown-destroy_if :
      (b : Bool) (e : Error) (s s' : Sandbox)
      → Grown s s'
      → Yields s' (λ _. Grown s) (destroy_if d b e)
  unfolding destroy_if ◌>>=◌
  Grown-destroy_if true e s s' g = record { outcome = fails (destroy d s').0 e (destroy d s').1 }
  Grown-destroy_if false e s s' g = record { outcome = returned g }

  Grown-verify_identity : (uid : ℕ) (s : Sandbox) → Yields s (λ _. Grown s) (verify_identity d uid)
  unfolding verify_identity
  Grown-verify_identity uid s =
      Yields-then (λ _. Grown s) _ s _ _ (Grown-exec_probe _ s)
        λ identity s1 g1.
          Yields-then (λ _. Grown s) _ s1 _ _ (Grown-destroy_if _ _ s s1 g1)
            λ _ s2 g2.
              Yields-then (λ _. Grown s2) _ s2 _ _ (Grown-exec_probe _ s2)
                λ probe s3 g3. Grown-destroy_if _ _ s s3 (Grown-trans s s2 s3 g2 g3)

  pub Grown-verify_privilege_drop :
      (uid : Option ℕ) (s : Sandbox) → Yields s (λ _. Grown s) (verify_privilege_drop d uid)
  unfolding verify_privilege_drop
  Grown-verify_privilege_drop none s = Yields-pure s _ (Grown-refl s)
  Grown-verify_privilege_drop (some uid) s = Grown-verify_identity uid s
