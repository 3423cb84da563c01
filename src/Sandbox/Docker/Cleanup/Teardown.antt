-- ===== src/Sandbox/Docker/Cleanup/Teardown.antt =====
-- Tearing down when Docker does not crash: it returns, and the object names nothing any more.
use sentinel_gpt.Common.{ap, ◌∙◌, ◌≡◌, ◌≢◌, refl, false, Option, none, some, List, ◌∷◌}
use sentinel_gpt.Common.Text.{Text}
use sentinel_gpt.Errors.{ok}
use sentinel_gpt.Action.{◌>>=◌}
use sentinel_gpt.Action.Ends.{Ends, Ends-bind, Ends-step}
use sentinel_gpt.Sandbox.Commands.{
  Command, Reply, completed, timed_out, not_invoked, crashed, argv, remove_container,
  remove_network,
}
use sentinel_gpt.Sandbox.Docker.{
  Sandbox, Docker, destroy, send, suppressed, best_effort, destroy_pending, destroy_container,
  destroy_network,
}

-- Docker answers every command, or fails in a way that the teardown takes.
abbrev pub NeverCrashes : Docker → Type 0
NeverCrashes d = (sent : List Command) (args : List Text) → d.runner sent args ≢ crashed

-- The object names nothing any more and is not established.
pub record IsCleared (s : Sandbox) : Type 0 where
  pub pending : s.pending_container ≡ none
  pub container : s.container ≡ none
  pub network : s.network ≡ none
  pub down : s.is_established ≡ false

suppressed-ok : (r : Reply) → r ≢ crashed → suppressed r ≡ ok tt
unfolding suppressed
suppressed-ok (completed p) h = refl
suppressed-ok timed_out h = refl
suppressed-ok not_invoked h = refl
suppressed-ok crashed h = absurd (h refl)

module _ (d : Docker) (never : NeverCrashes d) where
  Ends-best_effort :
      (c : Command) (s : Sandbox)
      → Ends s (λ _ s'. s' ≡ record s { sent = c ∷ s.sent }) (best_effort d c)
  unfolding best_effort send ◌>>=◌
  Ends-best_effort c s = record {
    value = tt;
    returns = suppressed-ok _ (never s.sent (argv d.config c));
    state = refl;
  }

  Ends-destroy_pending :
      (o : Option Text) (s : Sandbox)
      → s.pending_container ≡ o
      → Ends s
          (λ _ s'. (s'.pending_container ≡ none) × (s'.is_established ≡ s.is_established))
          (destroy_pending d o)
  unfolding destroy_pending
  Ends-destroy_pending none s e = record { value = tt; returns = refl; state = (e, refl) }
  Ends-destroy_pending (some name) s e =
      Ends-bind s _ _ (Ends-best_effort (remove_container name) s) λ _ s' f. record {
        value = tt;
        returns = refl;
        state = (refl, ap (λ x. x.is_established) f);
      }

  Ends-destroy_container :
      (o : Option Text) (s : Sandbox)
      → s.container ≡ o
      → s.pending_container ≡ none
      → Ends s
          (λ _ s'.
            (s'.container ≡ none)
            × (s'.pending_container ≡ none)
            × (s'.is_established ≡ s.is_established))
          (destroy_container d o)
  unfolding destroy_container
  Ends-destroy_container none s e p = record { value = tt; returns = refl; state = (e, p, refl) }
  Ends-destroy_container (some name) s e p =
      Ends-bind s _ _ (Ends-best_effort (remove_container name) s) λ _ s' f. record {
        value = tt;
        returns = refl;
        state = (refl, ap (λ x. x.pending_container) f ∙ p, ap (λ x. x.is_established) f);
      }

  Ends-destroy_network :
      (o : Option Text) (s : Sandbox)
      → s.network ≡ o
      → s.container ≡ none
      → s.pending_container ≡ none
      → s.is_established ≡ false
      → Ends s (λ _ s'. IsCleared s') (destroy_network d o)
  unfolding destroy_network
  Ends-destroy_network none s e c p i = record {
    value = tt;
    returns = refl;
    state = record { pending = p; container = c; network = e; down = i };
  }
  Ends-destroy_network (some name) s e c p i =
      Ends-bind s _ _ (Ends-best_effort (remove_network name) s) λ _ s' f. record {
        value = tt;
        returns = refl;
        state = record {
          pending = ap (λ x. x.pending_container) f ∙ p;
          container = ap (λ x. x.container) f ∙ c;
          network = refl;
          down = ap (λ x. x.is_established) f ∙ i;
        };
      }

  -- Where Docker does not crash, `destroy` returns from every state, and then the object names no
  -- container and no network and is not established.
  pub Ends-destroy : (s : Sandbox) → Ends s (λ _ s'. IsCleared s') (destroy d)
  unfolding destroy
  Ends-destroy s = Ends-step s _ _ tt refl (
      Ends-step (record s { is_established = false }) _ _ s.pending_container refl
        (Ends-bind (record s { is_established = false }) _ _
          (Ends-destroy_pending s.pending_container (record s { is_established = false }) refl)
          λ _ s1 (p1, i1). Ends-step s1 _ _ s1.container refl (
            Ends-bind s1 _ _ (Ends-destroy_container s1.container s1 refl p1) λ _ s2 (c2, p2, i2).
              Ends-step s2 _ _ s2.network refl
                (Ends-destroy_network s2.network s2 refl c2 p2 (i2 ∙ i1)))))
