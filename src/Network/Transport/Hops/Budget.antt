-- ===== src/Network/Transport/Hops/Budget.antt =====
-- How long an exchange can get: its requests and the locations that it follows.
use sentinel_gpt.Common.{List, Bool, true, false, [], ℕ, zero, suc, length, ◌≤◌, ◌+◌, arith, nat_eq}
use sentinel_gpt.Common.Text.{Text, text_eq}
use sentinel_gpt.Errors.{Error, Result, ok, err, Returns-any, redirect_destination_blocked}
use sentinel_gpt.Action.{Action, lift, proceed, refuse_if, ◌>>=◌}
use sentinel_gpt.Action.Keeps.{Keeps}
use sentinel_gpt.Network.Contract.{HttpLimits, HttpScanRequest, HttpResponseData}
use sentinel_gpt.Network.Transport.{Runtime, Traffic, exchange, run_in_sandbox, resolve_all}
use sentinel_gpt.Network.Transport.Hops.{
  Turn, done, moved, next_hop, turn, stop_at, follow_turn, hop_loop, execute,
}
use sentinel_gpt.Network.Transport.Hops.Rules.{next_hop-Keeps}

-- `m` makes the sandbox run at most `n` requests.
record Runs {A : Type 0} (n : ℕ) (m : Action Traffic A) : Type 0 where
  at_most : (t : Traffic) → length (m t).1.sent ≤ length t.sent + n

module _ {A : Type 0} where
  Runs-lift : (r : Result A) → Runs 0 (lift r)
  Runs-lift r = record { at_most = λ t. omega arith }

  Runs-le : {n k : ℕ} {m : Action Traffic A} → n ≤ k → Runs n m → Runs k m
  Runs-le h r = record { at_most = λ t. omega (arith, h, r.at_most t) }

  Runs-Keeps :
      {Q : A → Type 0} (m : Action Traffic A)
      → ((n : ℕ) → Keeps (λ t. length t.sent ≤ n) Q m)
      → Runs 0 m
  Runs-Keeps m k = record {
    at_most = λ t. omega (arith, (k (length t.sent)).state t (omega arith));
  }

Runs-refuse_if : (b : Bool) (e : Error) → Runs 0 (refuse_if b e)
Runs-refuse_if true e = record { at_most = λ t. omega arith }
Runs-refuse_if false e = record { at_most = λ t. omega arith }

module _ {A B : Type 0} where
  proceed_at_most :
      (f : A → Action Traffic B) (n k : ℕ) (r : Result A) (s : Traffic)
      → ((a : A) → Runs k (f a))
      → length s.sent ≤ n
      → length (proceed f r s).1.sent ≤ n + k
  proceed_at_most f n k (ok a) s h b = omega (arith, (h a).at_most s, b)
  proceed_at_most f n k (err e) s h b = omega (arith, b)

  Runs-bind :
      (n k : ℕ) {total : ℕ} {m : Action Traffic A} {f : A → Action Traffic B}
      → n + k ≤ total
      → Runs n m
      → ((a : A) → Runs k (f a))
      → Runs total (m >>= f)
  unfolding ◌>>=◌
  Runs-bind n k {m} {f} e r h = record {
    at_most = λ t.
        omega (arith, e, proceed_at_most f (length t.sent + n) k (m t).0 (m t).1 h (r.at_most t));
  }

module _ (rt : Runtime) where
  Runs-next_hop :
      (current : HttpScanRequest) (location : Text) → Runs 0 (next_hop rt current location)
  unfolding resolve_all
  Runs-next_hop current location = Runs-Keeps {Q = λ _. Unit} _ λ n.
      next_hop-Keeps rt (λ name t h. h) current location {C = λ _. Unit} tt (λ _ _. tt)
        (λ c _. Returns-any _) (λ spec. Returns-any _) (λ _ _ _ _ _ _ _ _ _. Returns-any _)

  Runs-exchange :
      (request : HttpScanRequest) (limits : HttpLimits) → Runs 1 (exchange rt request limits)
  unfolding exchange run_in_sandbox ◌>>=◌
  Runs-exchange request limits = record { at_most = λ t. ground arith }

  Runs-turn :
      (current : HttpScanRequest) (limits : HttpLimits) (via : List Text)
      → Runs 1 (turn rt current limits via)
  unfolding turn
  Runs-turn current limits via =
      Runs-bind 0 1 (omega arith) (record { at_most = λ t. omega arith })
        λ flagged.
          Runs-bind 0 1 (omega arith) (Runs-lift _)
            λ _. Runs-bind 1 0 (omega arith) (Runs-exchange current limits) λ response. Runs-lift _

  Runs-follow :
      (current : HttpScanRequest) (via : List Text)
      (loop : HttpScanRequest → List Text → Action Traffic HttpResponseData) (n : ℕ) (next : Turn)
      → ((request : HttpScanRequest) (passed : List Text) → Runs n (loop request passed))
      → Runs n (follow_turn rt current via loop next)
  unfolding follow_turn
  Runs-follow current via loop n (done response) k = Runs-le (omega arith) (Runs-lift (ok response))
  Runs-follow current via loop n (moved location) k =
      Runs-bind 0 n (omega arith) (Runs-next_hop current location) λ request. k request _

  Runs-stop : (next : Turn) → Runs 0 (stop_at rt next)
  unfolding stop_at
  Runs-stop (done response) = Runs-lift (ok response)
  Runs-stop (moved location) = Runs-lift (err redirect_destination_blocked)

  Runs-hop_loop :
      (remaining : ℕ) (current : HttpScanRequest) (limits : HttpLimits) (via : List Text)
      → Runs (suc remaining) (hop_loop rt remaining current limits via)
  unfolding hop_loop
  Runs-hop_loop zero current limits via =
      Runs-bind 1 0 (omega arith) (Runs-turn current limits via) λ next. Runs-stop next
  Runs-hop_loop (suc remaining) current limits via =
      Runs-bind 1 (suc remaining) (omega arith) (Runs-turn current limits via) λ next.
        Runs-follow current via _ (suc remaining) next
          λ request passed. Runs-hop_loop remaining request limits passed

  -- One execution makes the sandbox run at most `max_redirects + 1` requests, whatever it ends in.
  pub execute-length :
      (request : HttpScanRequest) (limits : HttpLimits) (t : Traffic)
      → length (execute rt request limits t).1.sent ≤ length t.sent + suc limits.max_redirects
  unfolding execute
  execute-length request limits t =
      (Runs-bind 0 (suc limits.max_redirects) (omega arith) (Runs-refuse_if _ _) λ _.
          Runs-bind 0 (suc limits.max_redirects) (omega arith) (Runs-lift _)
            λ current. Runs-hop_loop limits.max_redirects current limits []).at_most
        t
