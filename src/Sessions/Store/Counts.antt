-- ===== src/Sessions/Store/Counts.antt =====
-- How many live credentials a family has.
use sentinel_gpt.Common.{
  ℕ, ◌+◌, ◌≤◌, ◌≡◌, refl, Bool, true, false, nat_eq, some, [], ◌∷◌, ◌&&◌, arith,
}
use sentinel_gpt.Common.Table.{get, add, update, update_where, update_if}
use sentinel_gpt.Common.Table.Keys.{IsKeyed, IsAbsent}
use sentinel_gpt.Sessions.Store.{
  RefreshSession, Sessions, is_active, in_family, set_rotated, revoke_family, revoke,
}

abbrev pub one_if : Bool → ℕ
one_if true = 1
one_if false = 0

-- The ACTIVE sessions of a family
abbrev pub live_in : ℕ → Sessions → ℕ
live_in f [] = 0
live_in f ((i, s) ∷ t) = one_if (is_active s && in_family f s) + live_in f t

pub live_in-add :
    (f i : ℕ) (s : RefreshSession) (t : Sessions)
    → live_in f (add i s t) ≡ live_in f t + one_if (is_active s && in_family f s)
unfolding add
live_in-add f i s [] = omega arith
live_in-add f i s ((j, r) ∷ t) = omega (arith, live_in-add f i s t)

pub live_in-revoke : (f i : ℕ) (t : Sessions) → live_in f (revoke i t) ≤ live_in f t
unfolding revoke update
live_in-revoke f i [] = omega arith
live_in-revoke f i ((j, r) ∷ t) = ground (arith, live_in-revoke f i t)

pub live_in-revoke_family : (f g : ℕ) (t : Sessions) → live_in f (revoke_family g t) ≤ live_in f t
unfolding revoke_family update_where
live_in-revoke_family f g [] = omega arith
live_in-revoke_family f g ((j, r) ∷ t) = ground (arith, live_in-revoke_family f g t)

-- No session of a family that was revoked is live.
pub live_in-revoked_family : (f : ℕ) (t : Sessions) → live_in f (revoke_family f t) ≡ 0
unfolding revoke_family update_where
live_in-revoked_family f [] = refl
live_in-revoked_family f ((j, r) ∷ t) = ground (arith, live_in-revoked_family f t)

pub live_in-rotate_le :
    (f i : ℕ) (t : Sessions) → live_in f (update_if i is_active set_rotated t) ≤ live_in f t
unfolding update_if
live_in-rotate_le f i [] = omega arith
live_in-rotate_le f i ((j, r) ∷ t) = ground (arith, live_in-rotate_le f i t)

live_in-rotate_absent :
    (f i : ℕ) (t : Sessions)
    → IsAbsent i t
    → live_in f (update_if i is_active set_rotated t) ≡ live_in f t
unfolding update_if
live_in-rotate_absent f i [] a = refl
live_in-rotate_absent f i ((j, r) ∷ t) a = ground (arith, live_in-rotate_absent f i t a.1)

pub live_in-rotate :
    (f i : ℕ) (t : Sessions) (s : RefreshSession)
    → IsKeyed t
    → get i t ≡ some s
    → is_active s ≡ true
    → live_in f (update_if i is_active set_rotated t) + one_if (in_family f s) ≡ live_in f t
unfolding update_if get
live_in-rotate f i [] s k h a = ground arith
live_in-rotate f i ((j, r) ∷ t) s k h a =
    ground (arith, live_in-rotate f i t s k.1, live_in-rotate_absent f i t)
