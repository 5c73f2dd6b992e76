-- ===== src/Models/References.antt =====
-- src/ard_ossie/models.py: what the validators of `CandidateChange` and of the named records
-- accept.
use ard_ossie_provider.Prelude.{
  ◌≡◌, ◌≢◌, refl, ◌↔◌, true, List, [], ◌∷◌, map, String, All, find_first, arith, inl, inr,
  Bool-cases, Option-cases, some, Result-cases, subst, ok, eq_iff,
}
use ard_ossie_provider.Prelude.Text.{str_eq}
use ard_ossie_provider.Prelude.Sets.{IsNodup, length-dedupe_iff}
use ard_ossie_provider.Models.{
  TableRecord, ProductTableRef, check_mapping, validate_references, all_different, unique_names,
}

-- `t` is the first table of the list with the identifier
pub data IsFirst (id : String) (t : TableRecord) : List TableRecord → Type 0 where
  here : {ts : List TableRecord} → t.table_id ≡ id → IsFirst id t (t ∷ ts)
  later :
      {u : TableRecord} {ts : List TableRecord}
      → u.table_id ≢ id
      → IsFirst id t ts
      → IsFirst id t (u ∷ ts)

-- a mapping names the product, and a listed table at the version of that table
abbrev pub Resolves : String → List TableRecord → ProductTableRef → Type 0
Resolves product_id tables m =
    (m.product_id ≡ product_id)
    × ((t : TableRecord) × IsFirst m.table_id t tables × (m.table_version ≡ t.version))

found-IsFirst :
    (id : String) (ts : List TableRecord) (t : TableRecord)
    → find_first (λ (u : TableRecord). str_eq u.table_id id) ts ≡ some t
    → IsFirst id t ts
found-IsFirst id [] t h = cc
found-IsFirst id (u ∷ ts) t h = elim (Bool-cases (str_eq u.table_id id)) [
  | inl e ↦
      let p : u ≡ t = ground arith in
      subst (λ v. IsFirst id v (u ∷ ts)) p (here ((eq_iff u.table_id id).0 e))
  | inr e ↦
      later (λ p. ground (arith, (eq_iff u.table_id id).1 p)) (found-IsFirst id ts t (ground arith))
]

IsFirst-found :
    (id : String) (t : TableRecord) (ts : List TableRecord)
    → IsFirst id t ts
    → find_first (λ (u : TableRecord). str_eq u.table_id id) ts ≡ some t
IsFirst-found id t ts (here {ts = r} e) = rw ((eq_iff t.table_id id).1 e)
IsFirst-found id t ts (later {u = u} {ts = r} n f) =
    ground (arith, eq_iff u.table_id id, IsFirst-found id t r f)

check_mapping_iff :
    (product_id : String) (tables : List TableRecord) (m : ProductTableRef)
    → (check_mapping product_id tables m ≡ ok tt) ↔ Resolves product_id tables m
unfolding check_mapping
check_mapping_iff product_id tables m = (
  λ h. elim (Option-cases (find_first (λ (u : TableRecord). str_eq u.table_id m.table_id) tables)) [
    | inl e ↦ absurd (ground arith)
    | inr (t, e) ↦ (
      ground (arith, eq_iff m.product_id product_id),
      (t, found-IsFirst m.table_id tables t e, ground arith),
    )
  ],
  λ h. ground (
    arith,
    h.0,
    eq_iff m.product_id product_id,
    IsFirst-found m.table_id h.1.0 tables h.1.1,
    h.1.2,
  ),
)

-- A candidate's references are accepted exactly if every mapping names the product and a listed
-- table at that table's version.
pub validate_references_iff :
    (product_id : String) (tables : List TableRecord) (ms : List ProductTableRef)
    → (validate_references product_id tables ms ≡ ok tt) ↔ All (Resolves product_id tables) ms
unfolding validate_references
validate_references_iff product_id tables [] = (λ _. tt, λ _. refl)
validate_references_iff product_id tables (m ∷ ms) =
    let first = check_mapping_iff product_id tables m in
    let rest = validate_references_iff product_id tables ms in
    (
      λ h. elim (Result-cases (check_mapping product_id tables m)) [
        | inl e ↦ (first.0 e, rest.0 (rw e at h))
        | inr (x, e) ↦ absurd (ground arith)
      ],
      λ h. rw (first.1 h.0) (rest.1 h.1),
    )

pub all_different_iff : (xs : List String) → (all_different xs ≡ true) ↔ IsNodup xs
unfolding all_different
all_different_iff xs = ground (arith, length-dedupe_iff xs)

-- Objects with identifiers and names pass exactly if no identifier stands twice and no two names
-- are equal up to case.
unique_names_iff :
    (casefold : String → String) (identifiers names : List String)
    → (unique_names casefold identifiers names ≡ true)
      ↔ (IsNodup identifiers × IsNodup (map casefold names))
unfolding unique_names
unique_names_iff casefold identifiers names =
    ground (arith, all_different_iff identifiers, all_different_iff (map casefold names))
