-- ===== src/Scans/Comparison/Partition.antt =====
-- The four lists part the fingerprints of the two scans.
use sentinel_gpt.Common.{
  ℕ, ◌≡◌, refl, sym, ap, ◌∙◌, Bool, true, not, ◌==◌, nat_eq, Option, List, [], ◌∷◌, map, keep_if,
  contains, arith, ◌&&◌, ◌||◌,
}
use sentinel_gpt.Common.Text.{Text, text_eq}
use sentinel_gpt.Errors.{Result, ok}
use sentinel_gpt.Action.Ends.{Ends, Ends-step, Ends-refuse_if}
use sentinel_gpt.Scans.Store.{Scan}
use sentinel_gpt.Scans.Store.Session.{Session}
use sentinel_gpt.Scans.Requests.{visible_scan}
use sentinel_gpt.Scans.Comparison.History.{was_resolved, contains-resolved_before}
use sentinel_gpt.Scans.Comparison.{
  Index, fingerprints, fingerprint_index, resolved_before, sorted, insert_text, CompareEntry,
  Comparison, entry_at, entries_of, cons_entry, to_compare_dtos, gather, minus, meet, compared,
  compare_scans,
}

contains-keep_if :
    (p : Text → Bool) (xs : List Text) (a : Text)
    → contains (keep_if p xs) a ≡ (contains xs a && p a)
contains-keep_if p [] a = refl
contains-keep_if p (x ∷ xs) a =
    let rest = contains-keep_if p xs a in
    elim (text_eq.dec a x) [ yes e ↦ let same = ap p e in ground arith | no n ↦ ground arith ]

contains-insert_text :
    (x : Text) (xs : List Text) (a : Text)
    → contains (insert_text x xs) a ≡ (a == x || contains xs a)
unfolding insert_text
contains-insert_text x [] a = refl
contains-insert_text x (y ∷ xs) a = ground (arith, contains-insert_text x xs a)

contains-sorted : (xs : List Text) (a : Text) → contains (sorted xs) a ≡ contains xs a
unfolding sorted
contains-sorted [] a = refl
contains-sorted (x ∷ xs) a =
    ground (arith, contains-insert_text x (sorted xs) a, contains-sorted xs a)

-- A fingerprint of the dictionary has an entry.
record Found (fp : Text) (index : Index) : Type 0 where
  pub entry : CompareEntry
  pub at : entry_at fp index ≡ ok entry
  pub named : entry.fingerprint ≡ fp

entry_at-Found :
    (fp : Text) (index : Index) → contains (fingerprints index) fp ≡ true → Found fp index
unfolding entry_at
entry_at-Found fp [] h = absurd (ground arith)
entry_at-Found fp ((f, (id, title)) ∷ index) h = elim (text_eq.dec f fp) [
  | yes e ↦ record {
    entry = record { id = id; fingerprint = fp; title = title };
    at = ground arith;
    named = refl;
  }
  | no n ↦
      let rest = entry_at-Found fp index (ground arith) in
      let found = rest.at in record { entry = rest.entry; at = ground arith; named = rest.named }
]

abbrev pub names : List CompareEntry → List Text
names entries = map (λ e. e.fingerprint) entries

made_cons :
    {r : Result CompareEntry} {rs : Result (List CompareEntry)} (e : CompareEntry)
    (es : List CompareEntry)
    → r ≡ ok e
    → rs ≡ ok es
    → cons_entry r rs ≡ ok (e ∷ es)
unfolding cons_entry
made_cons e es h k = rw h (rw k refl)

-- The list could be made, and its entries are those of the fingerprints.
record Made (index : Index) (fps : List Text) : Type 0 where
  pub entries : List CompareEntry
  pub returns : entries_of index fps ≡ ok entries
  pub listed : names entries ≡ fps

entries_of-Made :
    (index : Index) (fps : List Text)
    → ((f : Text) → contains fps f ≡ true → contains (fingerprints index) f ≡ true)
    → Made index fps
unfolding entries_of
entries_of-Made index [] h = record { entries = []; returns = refl; listed = refl }
entries_of-Made index (fp ∷ fps) h =
    let first = entry_at-Found fp index (h fp (ground arith)) in
    let rest = entries_of-Made index fps (λ f e. h f (ground arith)) in
    record {
      entries = first.entry ∷ rest.entries;
      returns = made_cons first.entry rest.entries first.at rest.returns;
      listed = rw first.named (rw rest.listed refl);
    }

-- Every list that is asked for is made, and it names the fingerprints it is asked for.
record Listed (index : Index) (fps : List Text) : Type 0 where
  pub entries : List CompareEntry
  pub returns : to_compare_dtos index fps ≡ ok entries
  pub same : (f : Text) → contains (names entries) f ≡ contains fps f

to_compare_dtos-Listed :
    (index : Index) (fps : List Text)
    → ((f : Text) → contains fps f ≡ true → contains (fingerprints index) f ≡ true)
    → Listed index fps
unfolding to_compare_dtos
to_compare_dtos-Listed index fps h =
    let made = entries_of-Made index (sorted fps) λ f e. h f (sym (contains-sorted fps f) ∙ e) in
    record {
      entries = made.entries;
      returns = made.returns;
      same = λ f. ap (λ l. contains l f) made.listed ∙ contains-sorted fps f;
    }

-- By the two dictionaries and what was resolved before: which fingerprints each of the four lists
-- names.
pub record IsPartition (a b : Index) (was_resolved : Text → Bool) (c : Comparison) : Type 0 where
  pub in_new :
      (f : Text)
      → contains (names c.new_entries) f ≡ (
          (contains (fingerprints b) f && not (contains (fingerprints a) f))
          && not (was_resolved f))
  pub in_regressed :
      (f : Text)
      → contains (names c.regressed_entries) f
        ≡ ((contains (fingerprints b) f && not (contains (fingerprints a) f)) && was_resolved f)
  pub in_persistent :
      (f : Text)
      → contains (names c.persistent_entries) f
        ≡ (contains (fingerprints a) f && contains (fingerprints b) f)
  pub in_resolved :
      (f : Text)
      → contains (names c.resolved_entries) f
        ≡ (contains (fingerprints a) f && not (contains (fingerprints b) f))

contains-minus :
    (xs ys : List Text) (f : Text)
    → contains (minus xs ys) f ≡ (contains xs f && not (contains ys f))
contains-minus xs ys f = contains-keep_if (λ g. not (contains ys g)) xs f

contains-meet :
    (xs ys : List Text) (f : Text) → contains (meet xs ys) f ≡ (contains xs f && contains ys f)
contains-meet xs ys f = contains-keep_if (contains ys) xs f

record Parted (a b : Index) (history_resolved : List Text) : Type 0 where
  pub comparison : Comparison
  pub returns : compared a b history_resolved ≡ ok comparison
  pub partition : IsPartition a b (contains history_resolved) comparison

compared-Parted : (a b : Index) (history_resolved : List Text) → Parted a b history_resolved
unfolding compared gather
compared-Parted a b h =
    let candidates = minus (fingerprints b) (fingerprints a) in
    let n = to_compare_dtos-Listed b (sorted (minus candidates h)) λ f e. ground (
      arith,
      contains-sorted (minus candidates h) f,
      contains-minus candidates h f,
      contains-minus (fingerprints b) (fingerprints a) f,
    ) in
    let g = to_compare_dtos-Listed b (sorted (meet candidates h)) λ f e. ground (
      arith,
      contains-sorted (meet candidates h) f,
      contains-meet candidates h f,
      contains-minus (fingerprints b) (fingerprints a) f,
    ) in
    let p = to_compare_dtos-Listed b (sorted (meet (fingerprints a) (fingerprints b))) λ f e.
      ground (
        arith,
        contains-sorted (meet (fingerprints a) (fingerprints b)) f,
        contains-meet (fingerprints a) (fingerprints b) f,
      ) in
    let r = to_compare_dtos-Listed a (sorted (minus (fingerprints a) (fingerprints b))) λ f e.
      ground (
        arith,
        contains-sorted (minus (fingerprints a) (fingerprints b)) f,
        contains-minus (fingerprints a) (fingerprints b) f,
      ) in
    record {
      comparison = record {
        new_entries = n.entries;
        persistent_entries = p.entries;
        resolved_entries = r.entries;
        regressed_entries = g.entries;
      };
      returns = rw n.returns (rw p.returns (rw r.returns (rw g.returns refl)));
      partition = record {
        in_new = λ f.
            n.same f
            ∙ contains-sorted (minus candidates h) f
            ∙ contains-minus candidates h f
            ∙ ap (λ b'. b' && not (contains h f))
                (contains-minus (fingerprints b) (fingerprints a) f);
        in_regressed = λ f.
            g.same f
            ∙ contains-sorted (meet candidates h) f
            ∙ contains-meet candidates h f
            ∙ ap (λ b'. b' && contains h f) (contains-minus (fingerprints b) (fingerprints a) f);
        in_persistent = λ f.
            p.same f
            ∙ contains-sorted (meet (fingerprints a) (fingerprints b)) f
            ∙ contains-meet (fingerprints a) (fingerprints b) f;
        in_resolved = λ f.
            r.same f
            ∙ contains-sorted (minus (fingerprints a) (fingerprints b)) f
            ∙ contains-minus (fingerprints a) (fingerprints b) f;
      };
    }

IsPartition-cong :
    (a b : Index) (was was' : Text → Bool) (c : Comparison)
    → ((f : Text) → was f ≡ (contains (minus (fingerprints b) (fingerprints a)) f && was' f))
    → IsPartition a b was c
    → IsPartition a b was' c
IsPartition-cong a b was was' c same h = record {
  in_new = λ f.
      let n = h.in_new f in
      ground (arith, same f, contains-minus (fingerprints b) (fingerprints a) f);
  in_regressed = λ f.
      let g = h.in_regressed f in
      ground (arith, same f, contains-minus (fingerprints b) (fingerprints a) f);
  in_persistent = h.in_persistent;
  in_resolved = h.in_resolved;
}

-- Two scans of one target that the caller sees are compared: the comparison is returned and the
-- session stays as it was. A fingerprint of the second scan alone is regressed if the history has a
-- row of the target and of this fingerprint whose status is RESOLVED, and new otherwise; one of both
-- is persistent, and one of the first alone is resolved. No list names any other.
pub compare_scans-IsPartition :
    (principal : Option ℕ) (i j : ℕ) (a b : Scan) (s : Session)
    → visible_scan principal i s ≡ ok a
    → visible_scan principal j s ≡ ok b
    → a.target_id ≡ b.target_id
    → let a_map = fingerprint_index i s.working.findings in
      let b_map = fingerprint_index j s.working.findings in
      Ends s
        (λ c s'. IsPartition a_map b_map (was_resolved a.target_id s.working.history) c × (s' ≡ s))
        (compare_scans principal i j)
unfolding compare_scans
compare_scans-IsPartition principal i j a b s seen_a seen_b same =
    let c =
      compared-Parted (fingerprint_index i s.working.findings)
        (fingerprint_index j s.working.findings)
        (resolved_before a.target_id
          (minus (fingerprints (fingerprint_index j s.working.findings))
            (fingerprints (fingerprint_index i s.working.findings)))
          s.working.history) in
    Ends-step s _ _ a seen_a (
      Ends-step s _ _ b seen_b (
        Ends-refuse_if s _ _ _ (ground arith) (
          Ends-step s _ _ s.working.findings refl (
            Ends-step s _ _ s.working.history refl (record {
              value = c.comparison;
              returns = c.returns;
              state = (
                IsPartition-cong _ _ _ (was_resolved a.target_id s.working.history) _
                    (contains-resolved_before a.target_id _ s.working.history) c.partition,
                refl,
              );
            })))))
