-- ===== src/Network/Transport/Hops/Locations.antt =====
-- The locations that an exchange follows.
use sentinel_gpt.Common.{
  ◌≡◌, refl, Option, none, some, List, false, not, contains, [], ◌∷◌, ◌++◌, ℕ, zero, suc, length,
  ◌≤◌, ◌+◌, ◌==◌, arith, length-append, nat_eq,
}
use sentinel_gpt.Common.Text.{Text, text_eq, strip}
use sentinel_gpt.Errors.{
  ok, err, Returns, returned, raised, Returns-if, redirect_destination_blocked,
  controlled_transport, sandbox_not_established,
}
use sentinel_gpt.Action.{Action}
use sentinel_gpt.Action.Keeps.{
  Keeps, Keeps-bind, Keeps-lift, Keeps-lift_self, Keeps-pure, Keeps-raise, Keeps-refuse_if,
  Keeps-asks, Keeps-any,
}
use sentinel_gpt.Network.Contract.{HttpLimits, HttpScanRequest, HttpResponseData}
use sentinel_gpt.Network.Transport.{Runtime, Traffic, redirect_statuses}
use sentinel_gpt.Network.Transport.Hops.{
  Turn, done, moved, turn, turn_on, stop_at, follow_turn, finished, hop_loop, execute,
}

-- No location twice
abbrev pub IsDistinct : List Text → Type 0
IsDistinct [] = Unit
IsDistinct (x ∷ xs) = (contains xs x ≡ false) × IsDistinct xs

contains-append :
    (xs : List Text) (x y : Text)
    → contains xs x ≡ false
    → (y == x) ≡ false
    → contains (xs ++ (y ∷ [])) x ≡ false
contains-append [] x y h e = ground arith
contains-append (z ∷ xs) x y h e = ground (arith, contains-append xs x y)

IsDistinct-append :
    (xs : List Text) (y : Text)
    → IsDistinct xs
    → contains xs y ≡ false
    → IsDistinct (xs ++ (y ∷ []))
IsDistinct-append [] y d h = (refl, tt)
IsDistinct-append (x ∷ xs) y d h =
    (contains-append xs x y d.0 (ground arith), IsDistinct-append xs y d.1 (ground arith))

abbrev IsBounded : ℕ → HttpResponseData → Type 0
IsBounded n response = IsDistinct response.via_redirects × (length response.via_redirects ≤ n)

-- A turn answers with the locations passed so far, or with one that is new.
abbrev IsNew : List Text → Turn → Type 0
IsNew via (done response) = response.via_redirects ≡ via
IsNew via (moved location) = contains via location ≡ false

module _ (rt : Runtime) where
  turn_on-IsNew :
      (current : HttpScanRequest) (via : List Text) (response : HttpResponseData)
      (location : Option Text)
      → Returns (IsNew via) (turn_on rt current via response location)
  unfolding turn_on finished
  turn_on-IsNew current via response none = returned refl
  turn_on-IsNew current via response (some raw) =
      Returns-if (not (contains redirect_statuses response.status)) (ok _) _ (λ _. returned refl)
        λ _.
          Returns-if response.truncated (err controlled_transport) _ (λ _. raised)
            λ _.
              Returns-if (contains via (strip rt.parsers.unicode.is_space raw))
                (err redirect_destination_blocked) _ (λ _. raised) λ fresh. returned fresh

  turn-IsNew :
      (current : HttpScanRequest) (limits : HttpLimits) (via : List Text)
      → Keeps (λ t. Unit) (IsNew via) (turn rt current limits via)
  unfolding turn
  turn-IsNew current limits via = Keeps-bind _ _ (Keeps-asks _) λ flagged _.
      Keeps-bind _ _ (Keeps-lift_self _) λ _ _.
        Keeps-bind _ _ (Keeps-any _)
          λ response _. Keeps-lift _ (turn_on-IsNew current via response _)

  stop_at-IsBounded :
      (n : ℕ) (via : List Text) (next : Turn)
      → IsDistinct via
      → length via ≤ n
      → IsNew via next
      → Keeps (λ t. Unit) (IsBounded n) (stop_at rt next)
  unfolding stop_at
  stop_at-IsBounded n via (done response) d b e = Keeps-pure _ (rw e d, rw e b)
  stop_at-IsBounded n via (moved location) d b e = Keeps-raise _

  follow_turn-IsBounded :
      (n remaining : ℕ) (current : HttpScanRequest) (via : List Text)
      (loop : HttpScanRequest → List Text → Action Traffic HttpResponseData) (next : Turn)
      → IsDistinct via
      → length via + suc remaining ≤ n
      → IsNew via next
      → ((request : HttpScanRequest) (passed : List Text)
          → IsDistinct passed
          → length passed + remaining ≤ n
          → Keeps (λ t. Unit) (IsBounded n) (loop request passed))
      → Keeps (λ t. Unit) (IsBounded n) (follow_turn rt current via loop next)
  unfolding follow_turn
  follow_turn-IsBounded n remaining current via loop (done response) d b e k =
      let short : length via ≤ n = omega (arith, b) in Keeps-pure _ (rw e d, rw e short)
  follow_turn-IsBounded n remaining current via loop (moved location) d b e k =
      let room : length (via ++ (location ∷ [])) + remaining ≤ n =
        omega (arith, b, length-append via (location ∷ [])) in
      Keeps-bind _ _ (Keeps-any _)
        λ request _. k request (via ++ (location ∷ [])) (IsDistinct-append via location d e) room

  hop_loop-IsBounded :
      (n remaining : ℕ) (current : HttpScanRequest) (limits : HttpLimits) (via : List Text)
      → IsDistinct via
      → length via + remaining ≤ n
      → Keeps (λ t. Unit) (IsBounded n) (hop_loop rt remaining current limits via)
  unfolding hop_loop
  hop_loop-IsBounded n zero current limits via d b =
      Keeps-bind _ _ (turn-IsNew current limits via)
        λ next e. stop_at-IsBounded n via next d (omega (arith, b)) e
  hop_loop-IsBounded n (suc remaining) current limits via d b =
      Keeps-bind _ _ (turn-IsNew current limits via) λ next e.
        follow_turn-IsBounded n remaining current via _ next d b e
          λ request passed d' b'. hop_loop-IsBounded n remaining request limits passed d' b'

  -- A response that is returned was reached over at most `max_redirects` locations, no two of which
  -- are the same: no redirect loop is followed.
  pub execute-IsDistinct :
      (request : HttpScanRequest) (limits : HttpLimits) (t : Traffic)
      → Returns
          (λ response.
            IsDistinct response.via_redirects
            × (length response.via_redirects ≤ limits.max_redirects))
          (execute rt request limits t).0
  unfolding execute
  execute-IsDistinct request limits t =
      (Keeps-bind _ _ (Keeps-refuse_if (not rt.established) sandbox_not_established) λ _ _.
          Keeps-bind _ _ (Keeps-lift_self _) λ current _.
            hop_loop-IsBounded limits.max_redirects limits.max_redirects current limits [] tt
              (omega arith)).value
        t tt
