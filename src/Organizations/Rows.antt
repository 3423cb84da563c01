-- ===== src/Organizations/Rows.antt =====
-- Memberships: no user is twice in an organization, under each statement on the table.
use sentinel_gpt.Common.{
  ℕ, suc, ◌≡◌, ◌<◌, ◌≤◌, refl, Bool, false, nat_eq, none, some, [], ◌∷◌, arith,
}
use sentinel_gpt.Common.Table.{Table, add, update, remove, first, exists}
use sentinel_gpt.Common.Table.Distinct.{
  IsDistinct, IsDistinct-add, IsDistinct-update, exists_of_first,
}
use sentinel_gpt.Scans.Store.{Role, Membership, belongs}
use sentinel_gpt.Scans.Store.Session.{Session}

abbrev pub same_place : Membership → Membership → Bool
same_place m n = belongs m.user_id m.organization_id n

-- No two rows are about the same user and organization.
abbrev pub IsSingle : Table Membership → Type 0
IsSingle = IsDistinct same_place

-- The keys of organizations come from the supply.
abbrev pub AreIssued : ℕ → Table Membership → Type 0
AreIssued n [] = Unit
AreIssued n ((i, m) ∷ rows) = (m.organization_id < n) × AreIssued n rows

pub record IsRostered (s : Session) : Type 0 where
  pub single : IsSingle s.working.memberships
  pub issued : AreIssued s.supply s.working.memberships

same_place_sym : (m n : Membership) → same_place m n ≡ same_place n m
same_place_sym m n = ground arith

pub IsSingle-add :
    (i : ℕ) (m : Membership) (rows : Table Membership)
    → exists (same_place m) rows ≡ false
    → IsSingle rows
    → IsSingle (add i m rows)
IsSingle-add i m rows h k = IsDistinct-add same_place same_place_sym i m rows h k

pub IsSingle-update :
    (i : ℕ) (role : Role) (rows : Table Membership)
    → IsSingle rows
    → IsSingle (update i (λ m. record m { role = role }) rows)
IsSingle-update i role rows k = IsDistinct-update same_place i _ (λ m n. refl) (λ m n. refl) rows k

pub AreIssued-add :
    (n i : ℕ) (m : Membership) (rows : Table Membership)
    → m.organization_id < n
    → AreIssued n rows
    → AreIssued n (add i m rows)
unfolding add
AreIssued-add n i m [] h k = (h, tt)
AreIssued-add n i m ((j, m') ∷ rows) h k = (k.0, AreIssued-add n i m rows h k.1)

pub AreIssued-update :
    (n i : ℕ) (role : Role) (rows : Table Membership)
    → AreIssued n rows
    → AreIssued n (update i (λ m. record m { role = role }) rows)
unfolding update
AreIssued-update n i role [] k = tt
AreIssued-update n i role ((j, m) ∷ rows) k = ground (arith, AreIssued-update n i role rows k.1)

pub AreIssued-remove :
    (n i : ℕ) (rows : Table Membership) → AreIssued n rows → AreIssued n (remove i rows)
unfolding remove
AreIssued-remove n i [] k = tt
AreIssued-remove n i ((j, m) ∷ rows) k = ground (arith, AreIssued-remove n i rows k.1)

pub AreIssued-mono :
    (n n' : ℕ) (rows : Table Membership) → n ≤ n' → AreIssued n rows → AreIssued n' rows
AreIssued-mono n n' [] le k = tt
AreIssued-mono n n' ((j, m) ∷ rows) le k = (omega arith, AreIssued-mono n n' rows le k.1)

-- An organization whose key is not issued yet has no members.
pub AreIssued-exists :
    (n user organization : ℕ) (rows : Table Membership)
    → AreIssued n rows
    → n ≤ organization
    → exists (belongs user organization) rows ≡ false
unfolding exists
AreIssued-exists n user organization [] k le = refl
AreIssued-exists n user organization ((j, m) ∷ rows) k le =
    let rest = AreIssued-exists n user organization rows k.1 le in grind arith

pub AreIssued-first :
    (n user organization : ℕ) (rows : Table Membership) (i : ℕ) (m : Membership)
    → AreIssued n rows
    → first (belongs user organization) rows ≡ some (i, m)
    → organization < n
unfolding first
AreIssued-first n user organization [] i m k e = ground arith
AreIssued-first n user organization ((j, m') ∷ rows) i m k e =
    grind (arith, AreIssued-first n user organization rows i m k.1)

-- The rows after a new member
pub joined-IsRostered :
    (n user organization : ℕ) (role : Role) (now : ℕ) (rows : Table Membership)
    → IsSingle rows
    → AreIssued n rows
    → organization < n
    → first (belongs user organization) rows ≡ none
    → let m : Membership = record {
      organization_id = organization;
      user_id = user;
      role = role;
      created_at = now;
    } in
      IsSingle (add n m rows) × AreIssued (suc n) (add n m rows)
joined-IsRostered n user organization role now rows single issued below e = (
  IsSingle-add n _ rows (exists_of_first _ rows e) single,
  AreIssued-add (suc n) n _ rows (omega arith) (AreIssued-mono n (suc n) rows (omega arith) issued),
)
