-- ===== src/Identity/Tables.antt =====
-- src/ard_ossie/identity.py: what the decision of `classify_table` says of the existing tables.
use ard_ossie_provider.Prelude.{
  ◌≡◌, ◌≢◌, refl, ap, ◌⊎◌, inl, inr, Bool, true, false, ◌&&◌, Option, none, some, List, [], ◌∷◌,
  ◌∙◌, String, map, keep, any, find_first, arith, Option-cases, Bool-cases, eq_iff,
}
use ard_ossie_provider.Prelude.Text.{opt_str_eq, str_eq, opt_str_eq→eq, opt_str_eq_of_eq}
use ard_ossie_provider.Prelude.Sorting.{any-sort_by}
use ard_ossie_provider.Models.{
  TableRecord, active, retired, is_active, is_retired, status_retired, status_active,
  status_not_retired,
}
use ard_ossie_provider.Models.Locator.{key}
use ard_ossie_provider.Identity.{
  DuplicateDecision, block, warn, no_change, reuse, create, update, classify_table,
  classify_table_found, classify_unknown_table, classify_known_table, classify_located,
  classify_schema, schema_matches, has_table_id, has_locator, has_schema,
}

-- the candidate brings a retired table back
abbrev pub Returns : TableRecord → TableRecord → Type 0
Returns c t = (t.status ≡ retired) × (c.status ≡ active)

no_return :
    (c t : TableRecord) → (is_retired t.status && is_active c.status) ≡ false → ¬ Returns c t
no_return c t e h = ground (arith, e, ap is_retired h.0, ap is_active h.1)

-- What each decision says: first of the table with the candidate's identifier, if there is one,
-- then of the table with its locator.
abbrev pub MeansTable :
    TableRecord
    → List TableRecord
    → Option TableRecord
    → Option TableRecord
    → DuplicateDecision
    → Type 0
MeansTable c ts (some t) located block = Returns c t ⊎ (key t.locator ≢ key c.locator)
MeansTable c ts (some t) located no_change =
    (¬ Returns c t) × (key t.locator ≡ key c.locator) × (t.canonical_hash ≡ c.canonical_hash)
MeansTable c ts (some t) located update =
    (¬ Returns c t) × (key t.locator ≡ key c.locator) × (t.canonical_hash ≢ c.canonical_hash)
MeansTable c ts none (some t) block = t.status ≡ retired
MeansTable c ts none (some t) reuse = t.status ≡ active
MeansTable c ts none none warn = any (has_schema c) ts ≡ true
MeansTable c ts none none create = any (has_schema c) ts ≡ false
MeansTable c ts _ _ _ = ⊥

known_means :
    (c t : TableRecord) (ts : List TableRecord) (l : Option TableRecord)
    → MeansTable c ts (some t) l (classify_known_table c t).decision
unfolding classify_known_table
known_means c t ts l = elim (Bool-cases (is_retired t.status && is_active c.status)) [
  | inl e ↦
      rw e (inl (ground (arith, status_retired t.status), ground (arith, status_active c.status)))
  | inr e ↦ elim (Bool-cases (str_eq (key t.locator) (key c.locator))) [
    | inl f ↦ elim (Bool-cases (opt_str_eq t.canonical_hash c.canonical_hash)) [
      | inl g ↦
          rw (e, f, g)
            (no_return c t e, (eq_iff (key t.locator) (key c.locator)).0 f, opt_str_eq→eq _ _ g)
      | inr g ↦
          rw (e, f, g)
            (
              no_return c t e,
              (eq_iff (key t.locator) (key c.locator)).0 f,
              λ h. ground (arith, g, opt_str_eq_of_eq _ _ h),
            )
    ]
    | inr f ↦ rw (e, f) (inr (λ h. ground (arith, f, (eq_iff (key t.locator) (key c.locator)).1 h)))
  ]
]

located_means :
    (c t : TableRecord) (ts : List TableRecord)
    → MeansTable c ts none (some t) (classify_located t).decision
unfolding classify_located
located_means c t ts = elim (Bool-cases (is_retired t.status)) [
  | inl e ↦ rw e (status_retired t.status e)
  | inr e ↦ rw e (status_not_retired t.status e)
]

abbrev is_nonempty : List String → Bool
is_nonempty [] = false
is_nonempty (x ∷ xs) = true

nonempty-any : (xs : List String) → is_nonempty xs ≡ any (λ x. true) xs
nonempty-any [] = refl
nonempty-any (x ∷ xs) = ground arith

any-ids :
    (c : TableRecord) (ts : List TableRecord)
    → any (λ (x : String). true) (map (λ (t : TableRecord). t.table_id) (keep (has_schema c) ts))
      ≡ any (has_schema c) ts
any-ids c [] = refl
any-ids c (t ∷ ts) = ground (arith, any-ids c ts)

nonempty-schema_matches :
    (c : TableRecord) (ts : List TableRecord)
    → is_nonempty (schema_matches c ts) ≡ any (has_schema c) ts
unfolding schema_matches
nonempty-schema_matches c ts =
    nonempty-any (schema_matches c ts)
    ∙ any-sort_by (λ s. s) (λ x. true)
        (map (λ (t : TableRecord). t.table_id) (keep (has_schema c) ts))
    ∙ any-ids c ts

schema_means :
    (c : TableRecord) (ts : List TableRecord) (ids : List String)
    → is_nonempty ids ≡ any (has_schema c) ts
    → MeansTable c ts none none (classify_schema ids).decision
unfolding classify_schema
schema_means c ts [] h = ground arith
schema_means c ts (i ∷ is) h = ground arith

found_means :
    (c : TableRecord) (ts : List TableRecord) (o : Option TableRecord)
    → MeansTable c ts o (find_first (has_locator c) ts) (classify_table_found c ts o).decision
unfolding classify_table_found classify_unknown_table
found_means c ts (some t) = known_means c t ts (find_first (has_locator c) ts)
found_means c ts none = elim (Option-cases (find_first (has_locator c) ts)) [
  | inl e ↦ rw e (schema_means c ts (schema_matches c ts) (nonempty-schema_matches c ts))
  | inr (t, e) ↦ rw e (located_means c t ts)
]

-- `classify_table` blocks exactly on a return from retirement, on an identifier whose table has
-- another locator, and on a locator whose table is retired; it reuses the active table at the
-- locator; it tells a changed content from an unchanged one; and of a table that is unknown by both
-- it warns exactly where another has its schema.
pub classify_table_means :
    (candidate : TableRecord) (existing : List TableRecord)
    → MeansTable candidate existing
        (find_first (has_table_id candidate) existing)
        (find_first (has_locator candidate) existing)
        (classify_table candidate existing).decision
unfolding classify_table
classify_table_means c ts = found_means c ts (find_first (has_table_id c) ts)
