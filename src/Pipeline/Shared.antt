-- ===== src/Pipeline/Shared.antt =====
-- src/ard_ossie/pipeline.py: `_shared_table_findings`, on a change of a table that products share.
use ard_ossie_provider.Prelude.{
  ℕ, ◌≡◌, ◌↔◌, ◌⊎◌, inl, inr, refl, Bool, true, false, not, ◌&&◌, Option, none, some, List, [], ◌∷◌,
  ◌++◌, String, arith, ltb, keep, all, ok, Result, if◌then◌else◌, ◌>>=◌, Option-cases,
}
use ard_ossie_provider.Prelude.Text.{given, contains}
use ard_ossie_provider.Prelude.Dict.{get, has}
use ard_ossie_provider.Models.{TableRecord}
use ard_ossie_provider.Versioning.{VersionDecision}
use ard_ossie_provider.Impact.{ChangeSetRecord, PatternError, analyze_table_change}
use ard_ossie_provider.Registry.{Registry, get_changeset, mappings}

pub data SharedFinding : Type 0 where
  changeset_required changeset_not_found product_not_required table_not_included :
      String → SharedFinding
  pr_number_required : SharedFinding

-- a changed table that the Registry holds
abbrev pub is_changed : Registry → TableRecord × VersionDecision → Bool
is_changed r e = e.1.changed && has r.tables e.0.table_id

-- `[table for table in changed if analyze_table_change(...).shared]`
unfoldable pub shared_of :
    Registry → List (TableRecord × VersionDecision) → Result PatternError (List TableRecord)
unfolding analyze_table_change mappings
shared_of r [] = ok []
shared_of r (e ∷ es) = do
  report ← analyze_table_change e.0.table_id (mappings r)
  rest ← shared_of r es
  ok (if report.shared then e.0 ∷ rest else rest)

-- `pr_number is None or pr_number < 1`
abbrev pub lacks_number : Option ℕ → Bool
lacks_number none = true
lacks_number (some n) = ltb n 1

abbrev pub is_required_by : ChangeSetRecord → String → Bool
is_required_by c product_id = contains c.required_product_ids product_id

abbrev required_findings : List TableRecord → List SharedFinding
required_findings [] = []
required_findings (t ∷ ts) = changeset_required t.table_id ∷ required_findings ts

abbrev table_findings : ChangeSetRecord → List TableRecord → List SharedFinding
table_findings c [] = []
table_findings c (t ∷ ts) =
    let rest = table_findings c ts in
    if contains c.table_ids t.table_id then rest else table_not_included t.table_id ∷ rest

abbrev finding_if : Bool → SharedFinding → List SharedFinding
finding_if true f = f ∷ []
finding_if false f = []

-- the findings against the changeset
unfoldable pub changeset_findings :
    ChangeSetRecord → String → Option ℕ → List TableRecord → List SharedFinding
changeset_findings c product_id pr_number shared =
    finding_if (not (is_required_by c product_id)) (product_not_required product_id)
    ++ (table_findings c shared ++ finding_if (lacks_number pr_number) pr_number_required)

-- from the test of `shared` on
unfoldable pub findings_of :
    Registry → Option String → String → Option ℕ → List TableRecord → List SharedFinding
unfolding changeset_findings get
findings_of r changeset_id product_id pr_number [] = []
findings_of r changeset_id product_id pr_number (t ∷ ts) = elim (given changeset_id) [
  | none ↦ required_findings (t ∷ ts)
  | some id ↦ elim (get_changeset r id) [
    | none ↦ changeset_not_found id ∷ []
    | some c ↦ changeset_findings c product_id pr_number (t ∷ ts)
  ]
]

-- `_shared_table_findings`, on the zipped tables and decisions
unfoldable pub shared_table_findings :
    Registry
    → Option String
    → String
    → List (TableRecord × VersionDecision)
    → Option ℕ
    → Result PatternError (List SharedFinding)
unfolding shared_of findings_of
shared_table_findings r changeset_id product_id pairs pr_number = do
  shared ← shared_of r (keep (is_changed r) pairs)
  ok (findings_of r changeset_id product_id pr_number shared)

-- a changeset covers the tables: it requires the product, includes every table, and there is a
-- number of a pull request to mark the readiness with
pub record IsCovered (r : Registry) (changeset_id : Option String) (product_id : String)
    (pr_number : Option ℕ) (shared : List TableRecord) : Type 0 where
  pub id : String
  pub c : ChangeSetRecord
  pub named : given changeset_id ≡ some id
  pub registered : get_changeset r id ≡ some c
  pub required : is_required_by c product_id ≡ true
  pub included : all (λ (t : TableRecord). contains c.table_ids t.table_id) shared ≡ true
  pub numbered : lacks_number pr_number ≡ false

abbrev is_clear : List SharedFinding → Bool
is_clear [] = true
is_clear (_ ∷ _) = false

is_clear-append : (xs ys : List SharedFinding) → is_clear (xs ++ ys) ≡ (is_clear xs && is_clear ys)
is_clear-append [] ys = refl
is_clear-append (x ∷ xs) ys = refl

is_clear_iff : (xs : List SharedFinding) → (xs ≡ []) ↔ (is_clear xs ≡ true)
is_clear_iff [] = (λ _. refl, λ _. refl)
is_clear_iff (x ∷ xs) = (λ h. cc, λ h. cc)

is_clear-table_findings :
    (c : ChangeSetRecord) (ts : List TableRecord)
    → is_clear (table_findings c ts) ≡ all (λ (t : TableRecord). contains c.table_ids t.table_id) ts
is_clear-table_findings c [] = refl
is_clear-table_findings c (t ∷ ts) = ground (arith, is_clear-table_findings c ts)

is_clear-changeset_findings :
    (c : ChangeSetRecord) (product_id : String) (pr_number : Option ℕ) (ts : List TableRecord)
    → is_clear (changeset_findings c product_id pr_number ts) ≡ (
        is_required_by c product_id
        && (all (λ (t : TableRecord). contains c.table_ids t.table_id) ts
            && not (lacks_number pr_number)))
unfolding changeset_findings
is_clear-changeset_findings c product_id pr_number ts = ground (
  arith,
  is_clear-append (finding_if (not (is_required_by c product_id)) (product_not_required product_id))
      (table_findings c ts ++ finding_if (lacks_number pr_number) pr_number_required),
  is_clear-append (table_findings c ts) (finding_if (lacks_number pr_number) pr_number_required),
  is_clear-table_findings c ts,
)

covers :
    (r : Registry) (changeset_id : Option String) (product_id : String) (pr_number : Option ℕ)
    (t : TableRecord) (ts : List TableRecord)
    → is_clear (findings_of r changeset_id product_id pr_number (t ∷ ts)) ≡ true
    → IsCovered r changeset_id product_id pr_number (t ∷ ts)
unfolding findings_of
covers r changeset_id product_id pr_number t ts h = elim (Option-cases (given changeset_id)) [
  | inl e ↦ absurd (ground (arith, e, h))
  | inr (id, e) ↦ elim (Option-cases (get_changeset r id)) [
    | inl n ↦ absurd (ground (arith, e, n, h))
    | inr (c, f) ↦
        let clear : is_clear (changeset_findings c product_id pr_number (t ∷ ts)) ≡ true =
          ground (arith, e, f, h) in
        let parts = is_clear-changeset_findings c product_id pr_number (t ∷ ts) in
        record {
          id = id;
          c = c;
          named = e;
          registered = f;
          required = ground (arith, clear, parts);
          included = ground (arith, clear, parts);
          numbered = ground (arith, clear, parts);
        }
  ]
]

covered :
    (r : Registry) (changeset_id : Option String) (product_id : String) (pr_number : Option ℕ)
    (t : TableRecord) (ts : List TableRecord)
    → IsCovered r changeset_id product_id pr_number (t ∷ ts)
    → is_clear (findings_of r changeset_id product_id pr_number (t ∷ ts)) ≡ true
unfolding findings_of
covered r changeset_id product_id pr_number t ts w = ground (
  arith,
  w.named,
  w.registered,
  w.required,
  w.included,
  w.numbered,
  is_clear-changeset_findings w.c product_id pr_number (t ∷ ts),
)

-- Of shared tables that changed there are no findings exactly if there is no such table, or a
-- changeset covers them.
pub findings_of_iff :
    (r : Registry) (changeset_id : Option String) (product_id : String) (pr_number : Option ℕ)
    (shared : List TableRecord)
    → (findings_of r changeset_id product_id pr_number shared ≡ [])
      ↔ ((shared ≡ []) ⊎ IsCovered r changeset_id product_id pr_number shared)
unfolding findings_of
findings_of_iff r changeset_id product_id pr_number [] = (λ _. inl refl, λ _. refl)
findings_of_iff r changeset_id product_id pr_number (t ∷ ts) = (
  λ h. inr (
      covers r changeset_id product_id pr_number t ts
        ((is_clear_iff (findings_of r changeset_id product_id pr_number (t ∷ ts))).0 h)),
  λ w. elim w [
    | inl e ↦ absurd (ground (arith, e))
    | inr c ↦
        (is_clear_iff (findings_of r changeset_id product_id pr_number (t ∷ ts))).1
          (covered r changeset_id product_id pr_number t ts c)
  ],
)
