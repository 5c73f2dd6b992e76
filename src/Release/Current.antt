-- ===== src/Release/Current.antt =====
-- src/ard_ossie/release.py: what the checks of tables, readiness and reports have established.
use ard_ossie_provider.Prelude.{
  ◌≢◌, ap, find_first, eq_iff, ◌==◌, ◌≡◌, ◌⊎◌, inl, inr, refl, sym, Bool, true, false, Option, none,
  some, List, [], ◌∷◌, String, arith, All, ok, err, ◌>>=◌, if◌then◌else◌, bind_ok, ok_injective,
  Option-cases, Bool-cases, subst, all,
}
use ard_ossie_provider.Prelude.Text.{contains, str_eq, opt_str_eq→eq}
use ard_ossie_provider.Prelude.Dict.{Dict, get, keys, has, has-eq-contains}
use ard_ossie_provider.Models.{ProductRecord, TableRecord, ProductTableRef}
use ard_ossie_provider.Impact.{ChangeSetRecord, ProductReadiness, status, ready, same_set}
use ard_ossie_provider.Registry.{Registry, products, get_changeset, get_product, get_table}
use ard_ossie_provider.Release.{
  ReleaseBlocked, yaml_error, product_not_found, changeset_incomplete, quality_gate_failed,
  plan_record, QualityReport, ReleasePlan, build_release_plan, gate_fails, not_ready,
}
use ard_ossie_provider.Release.Snapshots.{Node, file, other}
use ard_ossie_provider.Release.Resolve.{
  read_changeset_id, find_changeset, find_product, is_left_out, mapped_table, resolve_tables,
  check_current, check_readiness, check_changeset, check_quality,
}

-- the tables that a release may be limited to name this one, or there is no limit
abbrev pub IsChosen : Option (List String) → String → Type 0
IsChosen none id = Unit
IsChosen (some ids) id = contains ids id ≡ true

-- the tables are those of the chosen mappings, in their order, each in the Registry at the version
-- of its mapping
abbrev pub AreMapped :
    Registry → Option (List String) → List ProductTableRef → List TableRecord → Type 0
AreMapped r table_ids [] tables = tables ≡ []
AreMapped r table_ids (m ∷ ms) tables =
    ((¬ IsChosen table_ids m.table_id) × AreMapped r table_ids ms tables)
    ⊎ (IsChosen table_ids m.table_id
        × ((t : TableRecord) × (ts : List TableRecord) × (get_table r m.table_id ≡ some t)
            × (t.version ≡ m.table_version)
            × (tables ≡ t ∷ ts)
            × AreMapped r table_ids ms ts))

left_out-not-IsChosen :
    (ids : Option (List String)) (id : String) → is_left_out ids id ≡ true → ¬ IsChosen ids id
left_out-not-IsChosen none id h c = cc
left_out-not-IsChosen (some ids) id h c = ground (arith, h, c)

kept-IsChosen :
    (ids : Option (List String)) (id : String) → is_left_out ids id ≡ false → IsChosen ids id
kept-IsChosen none id h = tt
kept-IsChosen (some ids) id h = ground (arith, h)

mapped_table_ok :
    (m : ProductTableRef) (found : Option TableRecord) (t : TableRecord)
    → mapped_table m found ≡ ok t
    → (found ≡ some t) × (t.version ≡ m.table_version)
unfolding mapped_table
mapped_table_ok m none t h = absurd (ground (arith, h))
mapped_table_ok m (some t') t h = elim (Bool-cases (t'.version == m.table_version)) [
  | inl e ↦
      let same : t' ≡ t = ok_injective {E = ReleaseBlocked} t' t (ground (arith, e, h)) in
      (
        ap some same,
        subst (λ (u : TableRecord). u.version ≡ m.table_version) same (ground (arith, e)),
      )
  | inr e ↦ absurd (ground (arith, e, h))
]

pub resolve_tables-AreMapped :
    (r : Registry) (table_ids : Option (List String)) (ms : List ProductTableRef)
    (tables : List TableRecord)
    → resolve_tables r table_ids ms ≡ ok tables
    → AreMapped r table_ids ms tables
unfolding resolve_tables
resolve_tables-AreMapped r table_ids [] tables h =
    sym (ok_injective {E = ReleaseBlocked} [] tables h)
resolve_tables-AreMapped r table_ids (m ∷ ms) tables h =
    elim (Bool-cases (is_left_out table_ids m.table_id)) [
      | inl e ↦ inl (
        left_out-not-IsChosen table_ids m.table_id e,
        resolve_tables-AreMapped r table_ids ms tables (ground (arith, e, h)),
      )
      | inr e ↦
          let first = bind_ok (mapped_table m (get_table r m.table_id)) _ tables (
            subst
              (λ b.
                (if b then resolve_tables r table_ids ms else (do
                  t ← mapped_table m (get_table r m.table_id)
                  ts ← resolve_tables r table_ids ms
                  ok (t ∷ ts)))
                ≡ ok tables)
              e h) in
          let rest = bind_ok (resolve_tables r table_ids ms) _ tables first.1.1 in
          let found = mapped_table_ok m (get_table r m.table_id) first.0 first.1.0 in
          inr (
            kept-IsChosen table_ids m.table_id e,
            (
              first.0,
              rest.0,
              found.0,
              found.1,
              sym (ok_injective {E = ReleaseBlocked} (first.0 ∷ rest.0) tables rest.1.1),
              resolve_tables-AreMapped r table_ids ms rest.0 rest.1.0,
            ),
          )
    ]

-- `product.yaml` names the changeset; where it is no file, none is named
abbrev pub Names :
    {Bytes : Type 0}
    → (Bytes → Option (Option String))
    → Option (Node Bytes)
    → Option String
    → Type 0
Names yaml_changeset (some (file bytes)) id = yaml_changeset bytes ≡ some id
Names yaml_changeset _ id = id ≡ none

pub read_changeset_id-Names :
    {Bytes : Type 0} (yaml_changeset : Bytes → Option (Option String)) (node : Option (Node Bytes))
    (id : Option String)
    → read_changeset_id yaml_changeset node ≡ ok id
    → Names yaml_changeset node id
unfolding read_changeset_id
read_changeset_id-Names yaml_changeset none id h = sym (ok_injective {E = ReleaseBlocked} none id h)
read_changeset_id-Names yaml_changeset (some other) id h =
    sym (ok_injective {E = ReleaseBlocked} none id h)
read_changeset_id-Names yaml_changeset (some (file bytes)) id h = split (yaml_changeset bytes) h
  where
    split :
        (o : Option (Option String))
        → elim o [ none ↦ err yaml_error | some i ↦ ok i ] ≡ ok id
        → o ≡ some id
    split none k = cc
    split (some i) k = ap some (ok_injective {E = ReleaseBlocked} i id k)

-- the changeset is the registered one with the name, and there is none without a name
abbrev pub IsFound : Registry → Option String → Option ChangeSetRecord → Type 0
IsFound r none changeset = changeset ≡ none
IsFound r (some name) changeset =
    ((name ≡ "") × (changeset ≡ none))
    ⊎ ((name ≢ "") × (c : ChangeSetRecord) × (get_changeset r name ≡ some c) × (changeset ≡ some c))

pub find_changeset-IsFound :
    (r : Registry) (id : Option String) (changeset : Option ChangeSetRecord)
    → find_changeset r id ≡ ok changeset
    → IsFound r id changeset
unfolding find_changeset
find_changeset-IsFound r none changeset h = sym (ok_injective {E = ReleaseBlocked} none changeset h)
find_changeset-IsFound r (some name) changeset h = elim (Bool-cases (str_eq name "")) [
  | inl e ↦ inl (
    (eq_iff name "").0 e,
    sym (ok_injective {E = ReleaseBlocked} none changeset (ground (arith, e, h))),
  )
  | inr e ↦ elim (Option-cases (get_changeset r name)) [
    | inl lacks ↦ absurd (ground (arith, e, lacks, h))
    | inr (c, found) ↦ inr (
      λ k. ground (arith, e, (eq_iff name "").1 k),
      c,
      found,
      sym (ok_injective {E = ReleaseBlocked} (some c) changeset (ground (arith, e, found, h))),
    )
  ]
]

-- the product has the identifier, or no product has and it is the first that has it as its key
abbrev pub IsIdentified : Registry → String → ProductRecord → Type 0
IsIdentified r identifier p =
    (get_product r identifier ≡ some p)
    ⊎ ((get_product r identifier ≡ none)
        × (find_first (λ (q : ProductRecord). str_eq q.product_key identifier) (products r)
            ≡ some p))

pub find_product-IsIdentified :
    (r : Registry) (identifier : String) (p : ProductRecord)
    → find_product r identifier ≡ ok p
    → IsIdentified r identifier p
unfolding find_product
find_product-IsIdentified r identifier p h =
    split (get_product r identifier)
      (find_first (λ (q : ProductRecord). str_eq q.product_key identifier) (products r)) h
  where
    split :
        (o by_key : Option ProductRecord)
        → elim o [
          | some q ↦ ok q
          | none ↦ elim by_key [ some q ↦ ok q | none ↦ err (product_not_found identifier) ]
        ]
          ≡ ok p
        → (o ≡ some p) ⊎ ((o ≡ none) × (by_key ≡ some p))
    split (some q) by_key k = inl (ap some (ok_injective {E = ReleaseBlocked} q p k))
    split none (some q) k = inr (refl, ap some (ok_injective {E = ReleaseBlocked} q p k))
    split none none k = cc

-- the required product is in the Registry at the version at which it is ready
abbrev pub IsCurrent : Registry → ChangeSetRecord → String → Type 0
IsCurrent r c id =
    (p : ProductRecord) × ((readiness : ProductReadiness) × ((get_product r id ≡ some p)
        × ((get c.ready_products id ≡ some readiness) × (p.version ≡ readiness.version))))

check_current_ok :
    (r : Registry) (c : ChangeSetRecord) (id : String)
    → has c.ready_products id ≡ true
    → check_current r id (get c.ready_products id) ≡ ok tt
    → IsCurrent r c id
unfolding check_current
check_current_ok r c id k h = elim (Option-cases (get c.ready_products id)) [
  | inl e ↦ absurd (ground (arith, e, k))
  | inr (readiness, e) ↦ elim (Option-cases (get_product r id)) [
    | inl e' ↦ absurd (ground (arith, e, e', h))
    | inr (p, e') ↦ (p, (readiness, (e', (e, ground (arith, e, e', h)))))
  ]
]

check_readiness-All :
    (r : Registry) (c : ChangeSetRecord) (ids : List String)
    → all (contains (keys c.ready_products)) ids ≡ true
    → check_readiness r c.ready_products ids ≡ ok tt
    → All (IsCurrent r c) ids
unfolding check_readiness check_current
check_readiness-All r c [] k h = tt
check_readiness-All r c (id ∷ ids) k h =
    let step = bind_ok (check_current r id (get c.ready_products id)) _ tt h in
    (
      check_current_ok r c id (ground (arith, k, has-eq-contains c.ready_products id)) step.1.0,
      check_readiness-All r c ids (ground (arith, k)) step.1.1,
    )

-- there is no changeset, or it is ready with every required product at its current version
abbrev pub IsReleasable : Registry → Option ChangeSetRecord → Type 0
IsReleasable r none = Unit
IsReleasable r (some c) = (status c ≡ ready) × All (IsCurrent r c) c.required_product_ids

ready_covers :
    (c : ChangeSetRecord)
    → status c ≡ ready
    → all (contains (keys c.ready_products)) c.required_product_ids ≡ true
unfolding status same_set
ready_covers c h = ground (arith, h)

pub check_changeset-IsReleasable :
    (r : Registry) (changeset : Option ChangeSetRecord)
    → check_changeset r changeset ≡ ok tt
    → not_ready changeset ≡ none
    → IsReleasable r changeset
unfolding check_changeset not_ready
check_changeset-IsReleasable r none h k = tt
check_changeset-IsReleasable r (some c) h k =
    let is_ready : status c ≡ ready = ground (arith, k) in
    (is_ready, check_readiness-All r c c.required_product_ids (ready_covers c is_ready) h)

pub quality_checked :
    (q : QualityReport) (p : ProductRecord)
    → check_quality q p ≡ ok tt
    → (q.product_id ≡ some p.product_id) × (q.product_version ≡ some p.version)
unfolding check_quality
quality_checked q p h = ground (arith, h, opt_str_eq→eq q.product_id (some p.product_id))

gates_passed :
    (missing : Option (List String)) (fails : Bool) (made plan : ReleasePlan)
    → elim missing [
      | some ids ↦ err (changeset_incomplete ids)
      | none ↦ if fails then err quality_gate_failed else ok made
    ]
      ≡ ok plan
    → (fails ≡ false) × ((missing ≡ none) × (plan ≡ made))
gates_passed (some ids) fails made plan h = cc
gates_passed none true made plan h = cc
gates_passed none false made plan h = (refl, (refl, sym (ok_injective made plan h)))

pub plan_made :
    (p : ProductRecord) (tables : List TableRecord) (changeset : Option ChangeSetRecord)
    (q : QualityReport) (hashes : Dict String) (plan : ReleasePlan)
    → build_release_plan p tables changeset (some q) hashes ≡ ok plan
    → (gate_fails q ≡ false)
      × ((not_ready changeset ≡ none) × (plan ≡ plan_record p tables changeset hashes))
unfolding build_release_plan
plan_made p tables changeset q hashes plan h =
    gates_passed (not_ready changeset) (gate_fails q) (plan_record p tables changeset hashes) plan h
