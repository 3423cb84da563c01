-- ===== src/Sessions/Store/Steady.antt =====
-- What no statement of the repository changes: the row that a hash finds, its owner and its family.
use sentinel_gpt.Common.{ℕ, ◌≡◌, refl, ◌∙◌, Bool, true, false, nat_eq, some, if◌then◌else◌}
use sentinel_gpt.Common.Table.{add, update_if}
use sentinel_gpt.Common.Table.Searches.{
  first-add, first-update, first-update_where, first-update_if,
}
use sentinel_gpt.Common.Text.{Text, text_eq}
use sentinel_gpt.Sessions.Store.{
  RefreshSession, Sessions, is_active, has_hash, in_family, set_rotated, set_revoked,
  get_by_token_hash, revoke_family, revoke,
}

abbrev pub IsSame : RefreshSession → RefreshSession → Type 0
IsSame s r = (r.family_id ≡ s.family_id) × (r.user_id ≡ s.user_id) × (r.token_hash ≡ s.token_hash)

-- Whatever a hash finds in `t` it finds in `u`, with the same primary key, owner and family.
abbrev pub IsSteady : Sessions → Sessions → Type 0
IsSteady t u =
    (h : Text) (i : ℕ) (s : RefreshSession)
    → get_by_token_hash h t ≡ some (i, s)
    → (r : RefreshSession) × (get_by_token_hash h u ≡ some (i, r)) × IsSame s r

pub IsSteady-refl : (t : Sessions) → IsSteady t t
IsSteady-refl t h i s e = (s, e, (refl, refl, refl))

pub IsSteady-trans : (t u v : Sessions) → IsSteady t u → IsSteady u v → IsSteady t v
IsSteady-trans t u v f g h i s e =
    let (r, e', same) = f h i s e in
    let (q, e'', same') = g h i r e' in
    (q, e'', (same'.0 ∙ same.0, same'.1 ∙ same.1, same'.2 ∙ same.2))

IsSame-if : (b : Bool) (s r : RefreshSession) → IsSame s r → IsSame s (if b then r else s)
IsSame-if true s r h = h
IsSame-if false s r h = (refl, refl, refl)

pub IsSteady-add : (i : ℕ) (s : RefreshSession) (t : Sessions) → IsSteady t (add i s t)
unfolding get_by_token_hash
IsSteady-add i s t h j r e = (r, first-add (has_hash h) i s t j r e, (refl, refl, refl))

pub IsSteady-revoke : (i : ℕ) (t : Sessions) → IsSteady t (revoke i t)
unfolding get_by_token_hash revoke
IsSteady-revoke i t h j r e = (
  _,
  first-update (has_hash h) set_revoked (λ s. refl) i t j r e,
  IsSame-if _ r (set_revoked r) (refl, refl, refl),
)

pub IsSteady-revoke_family : (f : ℕ) (t : Sessions) → IsSteady t (revoke_family f t)
unfolding get_by_token_hash revoke_family
IsSteady-revoke_family f t h j r e = (
  _,
  first-update_where (has_hash h) set_revoked (λ s. refl) (in_family f) t j r e,
  IsSame-if _ r (set_revoked r) (refl, refl, refl),
)

pub IsSteady-rotate : (i : ℕ) (t : Sessions) → IsSteady t (update_if i is_active set_rotated t)
unfolding get_by_token_hash
IsSteady-rotate i t h j r e = (
  _,
  first-update_if (has_hash h) set_rotated (λ s. refl) i is_active t j r e,
  IsSame-if _ r (set_rotated r) (refl, refl, refl),
)
