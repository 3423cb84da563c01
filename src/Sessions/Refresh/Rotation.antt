-- ===== src/Sessions/Refresh/Rotation.antt =====
-- One live credential per family.
use sentinel_gpt.Common.{
  ℕ, ◌≤◌, ◌≡◌, refl, Bool, true, ◌==◌, nat_eq, Option, none, some, arith, Bool-cases, inl, inr,
}
use sentinel_gpt.Common.Table.{get, add, update_if, matching}
use sentinel_gpt.Common.Table.Keys.{
  IsKeyed, IsAbsent, IsKeyed-add, IsKeyed-update, IsKeyed-update_where, IsKeyed-update_if,
  IsAbsent-update_if, matching-get, first-get,
}
use sentinel_gpt.Common.Text.{Text, text_eq}
use sentinel_gpt.Sessions.Store.{
  RefreshSession, Sessions, SessionStatus, active, rotated, revoked, is_active, has_hash, in_family,
  set_rotated, set_revoked, get_by_token_hash, try_mark_rotated, revoke_family, revoke,
}
use sentinel_gpt.Sessions.Store.Counts.{
  live_in, live_in-add, live_in-revoke, live_in-revoke_family, live_in-rotate_le, live_in-rotate,
}
use sentinel_gpt.Sessions.Store.Steady.{IsSteady}
use sentinel_gpt.Sessions.Refresh.{
  Fresh, issue_family, refresh, rotate, checked, found, token_given, child, presented,
}

-- Primary keys are unique, and no family has two live credentials.
pub record IsSound (t : Sessions) : Type 0 where
  pub keyed : IsKeyed t
  pub single : (f : ℕ) → live_in f t ≤ 1

IsKeyed-revoke : (i : ℕ) (t : Sessions) → IsKeyed t → IsKeyed (revoke i t)
unfolding revoke
IsKeyed-revoke i t k = IsKeyed-update i set_revoked t k

IsKeyed-revoke_family : (g : ℕ) (t : Sessions) → IsKeyed t → IsKeyed (revoke_family g t)
unfolding revoke_family
IsKeyed-revoke_family g t k = IsKeyed-update_where (in_family g) set_revoked t k

IsSound-revoke : (i : ℕ) (t : Sessions) → IsSound t → IsSound (revoke i t)
IsSound-revoke i t h = record {
  keyed = IsKeyed-revoke i t h.keyed;
  single = λ f. omega (arith, live_in-revoke f i t, h.single f);
}

IsSound-revoke_family : (g : ℕ) (t : Sessions) → IsSound t → IsSound (revoke_family g t)
IsSound-revoke_family g t h = record {
  keyed = IsKeyed-revoke_family g t h.keyed;
  single = λ f. omega (arith, live_in-revoke_family f g t, h.single f);
}

IsSound-mark : (i : ℕ) (t : Sessions) → IsSound t → IsSound (update_if i is_active set_rotated t)
IsSound-mark i t h = record {
  keyed = IsKeyed-update_if i is_active set_rotated t h.keyed;
  single = λ f. omega (arith, live_in-rotate_le f i t, h.single f);
}

-- The row was live, if the atomic step matched it.
pub live_of_match :
    (i : ℕ) (t : Sessions) (r : RefreshSession)
    → IsKeyed t
    → get i t ≡ some r
    → matching i is_active t ≡ 1
    → is_active r ≡ true
live_of_match i t r k g m = ground (arith, matching-get i is_active t r k g)

module _ (hash : Text → Text) (ttl : ℕ) where
  rotate-single :
      (fresh : Fresh) (i : ℕ) (stored r : RefreshSession) (t : Sessions) (f : ℕ)
      → IsSound t
      → get i t ≡ some r
      → r.family_id ≡ stored.family_id
      → is_active r ≡ true
      → live_in f (
          add fresh.session_id
            (child hash ttl fresh stored.user_id stored.family_id)
            (update_if i is_active set_rotated t))
        ≤ 1
  unfolding child
  rotate-single fresh i stored r t f h g e a =
      let swapped = live_in-rotate f i t r h.keyed g a in
      let grown =
        live_in-add f fresh.session_id (child hash ttl fresh stored.user_id stored.family_id)
          (update_if i is_active set_rotated t) in
      ground (arith, swapped, grown, h.single f)

  rotate-IsSound :
      (fresh : Fresh) (i : ℕ) (stored r : RefreshSession) (t : Sessions)
      → IsSound t
      → get i t ≡ some r
      → r.family_id ≡ stored.family_id
      → IsAbsent fresh.session_id t
      → IsSound (rotate hash ttl fresh i stored t).1
  unfolding rotate try_mark_rotated
  rotate-IsSound fresh i stored r t h g e fresh_key =
      elim (Bool-cases (matching i is_active t == 1)) [
        | inl won ↦ simp won (record {
          keyed =
              IsKeyed-add _ _ _ (IsAbsent-update_if _ i is_active set_rotated t fresh_key)
                (IsKeyed-update_if i is_active set_rotated t h.keyed);
          single = λ f.
              rotate-single fresh i stored r t f h g e
                (live_of_match i t r h.keyed g (ground arith));
        })
        | inr lost ↦ simp lost (IsSound-revoke_family _ _ (IsSound-mark i t h))
      ]

  module _ (users : ℕ → Option Bool) (meanwhile : Sessions → Sessions) (fresh : Fresh)
      (t : Sessions) (h : IsSound t) (h' : IsSound (meanwhile t))
      (steady : IsSteady t (meanwhile t))
      (fresh_key : IsAbsent fresh.session_id (meanwhile t)) where
    checked-IsSound :
        (token : Text) (i : ℕ) (stored : RefreshSession) (status : SessionStatus)
        → get_by_token_hash token t ≡ some (i, stored)
        → IsSound (checked hash ttl users meanwhile fresh i stored status t).1
    unfolding checked get_by_token_hash
    checked-IsSound token i stored revoked e = h
    checked-IsSound token i stored rotated e = IsSound-revoke_family _ t h
    checked-IsSound token i stored active e =
        let (r, e', same) = steady token i stored e in
        let row = first-get (has_hash token) (meanwhile t) i r h'.keyed e' in
        let outcome = rotate-IsSound fresh i stored r (meanwhile t) h' row same.0 fresh_key in
        let gone = IsSound-revoke i t h in ground arith

    found-IsSound :
        (token : Text) (row : Option (ℕ × RefreshSession))
        → get_by_token_hash token t ≡ row
        → IsSound (found hash ttl users meanwhile fresh row t).1
    unfolding found
    found-IsSound token none e = h
    found-IsSound token (some (i, stored)) e = checked-IsSound token i stored stored.status e

    token_given-IsSound :
        (raw : Option Text) → IsSound (token_given hash ttl users meanwhile fresh raw t).1
    unfolding token_given
    token_given-IsSound none = h
    token_given-IsSound (some raw) = found-IsSound (hash raw) _ refl

    -- `refresh` keeps the primary keys unique and leaves every family with at most one live
    -- credential, whatever token is presented, also when other requests rotate or revoke sessions
    -- between its read and its atomic step (`meanwhile`: a sound table where every hash still finds
    -- its row).
    pub refresh-IsSound :
        (raw_token : Option Text) → IsSound (refresh hash ttl users meanwhile fresh raw_token t).1
    unfolding refresh
    refresh-IsSound raw_token = token_given-IsSound (presented raw_token)

  issue_family-single :
      (user_id : ℕ) (fresh : Fresh) (t : Sessions) (f : ℕ)
      → IsSound t
      → live_in fresh.family_id t ≡ 0
      → live_in f (add fresh.session_id (child hash ttl fresh user_id fresh.family_id) t) ≤ 1
  unfolding child
  issue_family-single user_id fresh t f h new =
      let grown = live_in-add f fresh.session_id (child hash ttl fresh user_id fresh.family_id) t in
      ground (arith, grown, h.single f)

  -- A login with a new primary key and a new family keeps it so as well.
  issue_family-IsSound :
      (user_id : ℕ) (fresh : Fresh) (t : Sessions)
      → IsSound t
      → IsAbsent fresh.session_id t
      → live_in fresh.family_id t ≡ 0
      → IsSound (issue_family hash ttl user_id fresh t).1
  unfolding issue_family
  issue_family-IsSound user_id fresh t h fresh_key new = record {
    keyed = IsKeyed-add _ _ t fresh_key h.keyed;
    single = λ f. issue_family-single user_id fresh t f h new;
  }
