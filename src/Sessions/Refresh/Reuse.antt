-- ===== src/Sessions/Refresh/Reuse.antt =====
-- Reuse detection: a credential that was rotated out kills its family.
use sentinel_gpt.Common.{
  ℕ, ◌≡◌, ◌≢◌, refl, sym, Bool, true, ◌==◌, nat_eq, Option, none, some, [], ◌∷◌, arith, Bool-cases,
  inl, inr,
}
use sentinel_gpt.Common.Table.{get, add, update_if, matching}
use sentinel_gpt.Common.Table.Searches.{first-add, first-update_if}
use sentinel_gpt.Common.Table.Keys.{first-get}
use sentinel_gpt.Common.Text.{Text, text_eq}
use sentinel_gpt.Sessions.Store.{
  RefreshSession, Sessions, SessionStatus, active, rotated, revoked, is_active, has_hash,
  set_rotated, get_by_token_hash, try_mark_rotated,
}
use sentinel_gpt.Sessions.Store.Counts.{live_in, live_in-revoked_family}
use sentinel_gpt.Sessions.Store.Steady.{IsSteady}
use sentinel_gpt.Sessions.Refresh.{
  Fresh, RotatedSession, rotation, rejection, reused, refresh, rotate, checked, found, token_given,
  is_expired, ineligible,
}
use sentinel_gpt.Sessions.Refresh.Rotation.{IsSound, live_of_match}

-- The row of the credential that was exchanged for `r`
abbrev pub IsMarked : Text → RotatedSession → Sessions → Type 0
IsMarked token r u =
    (i : ℕ) × (s : RefreshSession) × (get_by_token_hash token u ≡ some (i, s))
    × (s.status ≡ rotated)
    × (s.family_id ≡ r.family_id)

module _ (hash : Text → Text) (ttl : ℕ) (users : ℕ → Option Bool) (meanwhile : Sessions → Sessions)
    (fresh : Fresh) where
  rotate-reused :
      (i : ℕ) (stored : RefreshSession) (t : Sessions)
      → (rotate hash ttl fresh i stored t).0 ≡ rejection reused
      → live_in stored.family_id (rotate hash ttl fresh i stored t).1 ≡ 0
  unfolding rotate try_mark_rotated
  rotate-reused i stored t e =
      let dead = live_in-revoked_family stored.family_id (update_if i is_active set_rotated t) in
      ground arith

  checked-reused :
      (i : ℕ) (stored : RefreshSession) (status : SessionStatus) (t : Sessions)
      → (checked hash ttl users meanwhile fresh i stored status t).0 ≡ rejection reused
      → live_in stored.family_id (checked hash ttl users meanwhile fresh i stored status t).1 ≡ 0
  unfolding checked
  checked-reused i stored revoked t e = ground arith
  checked-reused i stored rotated t e = live_in-revoked_family stored.family_id t
  checked-reused i stored active t e = ground (arith, rotate-reused i stored (meanwhile t))

  -- When `refresh` answers REUSED, no credential of the presented one's family is live any more:
  -- whether the credential had been rotated out before, or lost the race for its rotation.
  refresh-reused :
      (raw : Text) (i : ℕ) (stored : RefreshSession) (t : Sessions)
      → raw ≢ []
      → get_by_token_hash (hash raw) t ≡ some (i, stored)
      → (refresh hash ttl users meanwhile fresh (some raw) t).0 ≡ rejection reused
      → live_in stored.family_id (refresh hash ttl users meanwhile fresh (some raw) t).1 ≡ 0
  unfolding refresh token_given found
  refresh-reused [] i stored t n e h = ground arith
  refresh-reused (c ∷ raw) i stored t n e h =
      simp e (checked-reused i stored stored.status t (simp e at h))

  marked :
      (token : Text) (i : ℕ) (q : RefreshSession) (u : Sessions)
      → get_by_token_hash token u ≡ some (i, q)
      → is_active q ≡ true
      → get_by_token_hash token (update_if i is_active set_rotated u) ≡ some (i, set_rotated q)
  unfolding get_by_token_hash
  marked token i q u e a =
      let step = first-update_if (has_hash token) set_rotated (λ s. refl) i is_active u i q e in
      ground arith

  kept :
      (token : Text) (i j : ℕ) (q c : RefreshSession) (u : Sessions)
      → get_by_token_hash token u ≡ some (i, q)
      → get_by_token_hash token (add j c u) ≡ some (i, q)
  unfolding get_by_token_hash
  kept token i j q c u e = first-add (has_hash token) j c u i q e

  -- A rotation that succeeds marks its row.
  rotate-marks :
      (token : Text) (i : ℕ) (stored q : RefreshSession) (u : Sessions) (r : RotatedSession)
      → IsSound u
      → get_by_token_hash token u ≡ some (i, q)
      → get i u ≡ some q
      → q.family_id ≡ stored.family_id
      → (rotate hash ttl fresh i stored u).0 ≡ rotation r
      → IsMarked token r (rotate hash ttl fresh i stored u).1
  unfolding rotate try_mark_rotated
  rotate-marks token i stored q u r sound e g f h =
      elim (Bool-cases (matching i is_active u == 1)) [
        | inl won ↦ simp won (
          i,
          set_rotated q,
          kept token i _ (set_rotated q) _ _
              (marked token i q u e (live_of_match i u q sound.keyed g (ground arith))),
          refl,
          ground arith,
        )
        | inr lost ↦ ground arith
      ]

  module _ (token : Text) (t : Sessions) (r : RotatedSession) (steady : IsSteady t (meanwhile t))
      (sound : IsSound (meanwhile t)) where
    checked-marks :
        (i : ℕ) (stored : RefreshSession) (status : SessionStatus)
        → get_by_token_hash token t ≡ some (i, stored)
        → (checked hash ttl users meanwhile fresh i stored status t).0 ≡ rotation r
        → IsMarked token r (checked hash ttl users meanwhile fresh i stored status t).1
    unfolding checked get_by_token_hash
    checked-marks i stored revoked e h = ground arith
    checked-marks i stored rotated e h = ground arith
    checked-marks i stored active e h =
        let (q, e', same) = steady token i stored e in
        let row = first-get (has_hash token) (meanwhile t) i q sound.keyed e' in
        let marks = rotate-marks token i stored q (meanwhile t) r sound e' row same.0 in
        elim (Bool-cases (is_expired stored.expires_at fresh.now)) [
          | inl x ↦ ground arith
          | inr x ↦ elim (Bool-cases (ineligible (users stored.user_id))) [
            | inl y ↦ ground arith
            | inr y ↦ simp (x, y) (marks (simp (x, y) at h))
          ]
        ]

    found-marks :
        (row : Option (ℕ × RefreshSession))
        → get_by_token_hash token t ≡ row
        → (found hash ttl users meanwhile fresh row t).0 ≡ rotation r
        → IsMarked token r (found hash ttl users meanwhile fresh row t).1
    unfolding found
    found-marks none e h = ground arith
    found-marks (some (i, stored)) e h = checked-marks i stored stored.status e h

  pub refresh-marks :
      (c : ℕ) (raw : Text) (t : Sessions) (r : RotatedSession)
      → IsSteady t (meanwhile t)
      → IsSound (meanwhile t)
      → (refresh hash ttl users meanwhile fresh (some (c ∷ raw)) t).0 ≡ rotation r
      → IsMarked (hash (c ∷ raw)) r (refresh hash ttl users meanwhile fresh (some (c ∷ raw)) t).1
  unfolding refresh token_given
  refresh-marks c raw t r steady sound h = found-marks (hash (c ∷ raw)) t r steady sound _ refl h

-- What a rotated-out credential gets
marked_refresh :
    (hash : Text → Text) (ttl : ℕ) (users : ℕ → Option Bool) (meanwhile : Sessions → Sessions)
    (fresh : Fresh) (c : ℕ) (raw : Text) (r : RotatedSession) (u : Sessions)
    → IsMarked (hash (c ∷ raw)) r u
    → ((refresh hash ttl users meanwhile fresh (some (c ∷ raw)) u).0 ≡ rejection reused)
      × (live_in r.family_id (refresh hash ttl users meanwhile fresh (some (c ∷ raw)) u).1 ≡ 0)
unfolding refresh token_given found checked
marked_refresh hash ttl users meanwhile fresh c raw r u (i, s, e, rot, f) =
    let dead = live_in-revoked_family s.family_id u in simp (e, rot) (refl, rw (sym f) dead)

-- A credential works once. After a call that rotated it, presenting it again is answered REUSED and
-- leaves no live credential in its family, neither the new one: whatever the time, the users and
-- the other requests of the second call. (The first call's own interference leaves a sound table
-- where every hash still finds its row.)
pub refresh-replay :
    (hash : Text → Text) (ttl : ℕ) (users later_users : ℕ → Option Bool)
    (meanwhile later : Sessions → Sessions) (fresh later_fresh : Fresh) (c : ℕ) (raw : Text)
    (t : Sessions) (r : RotatedSession)
    → IsSteady t (meanwhile t)
    → IsSound (meanwhile t)
    → (refresh hash ttl users meanwhile fresh (some (c ∷ raw)) t).0 ≡ rotation r
    → ((refresh hash ttl later_users later later_fresh
          (some (c ∷ raw))
          (refresh hash ttl users meanwhile fresh (some (c ∷ raw)) t).1).0
        ≡ rejection reused)
      × (live_in r.family_id
            (refresh hash ttl later_users later later_fresh
              (some (c ∷ raw))
              (refresh hash ttl users meanwhile fresh (some (c ∷ raw)) t).1).1
          ≡ 0)
refresh-replay hash ttl users later_users meanwhile later fresh later_fresh c raw t r steady sound
      h =
    marked_refresh hash ttl later_users later later_fresh c raw r
      (refresh hash ttl users meanwhile fresh (some (c ∷ raw)) t).1
      (refresh-marks hash ttl users meanwhile fresh c raw t r steady sound h)
