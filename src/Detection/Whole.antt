-- ===== src/Detection/Whole.antt =====
-- src/ard_ossie/application/release_detection.py: how the sets grow as changesets are expanded.
use ard_ossie_provider.Prelude.{
  ◌≡◌, ◌⊎◌, inl, inr, refl, ap, Bool, true, ◌||◌, some, List, [], ◌∷◌, String, arith, All, all, ok,
  in_chain, ok_injective, subst, Bool-cases, Option-cases, eq_iff,
}
use ard_ossie_provider.Prelude.Text.{str_eq, contains, contains-append, all_from_contains}
use ard_ossie_provider.Prelude.Dict.{get}
use ard_ossie_provider.Models.{ProductRecord}
use ard_ossie_provider.Impact.{ChangeSetRecord, ready, status}
use ard_ossie_provider.Registry.{Registry, get_product, get_changeset}
use ard_ossie_provider.Detection.{DetectionError}
use ard_ossie_provider.Detection.Expansion.{
  Expanded, check_required, resolve_required, require_tables, postponed, enlarged, expanded_or,
  expand_changeset, is_blocked, visit_id, visit_ids,
}
use ard_ossie_provider.Detection.Released.{check_required_cases, resolve_required-All}
use ard_ossie_provider.Detection.Waiting.{IsWaiting, resolve_required-IsLater}
use ard_ossie_provider.Release.Current.{IsCurrent}

-- the registered product's key is among the keys
abbrev pub HasKey : Registry → List String → String → Type 0
HasKey r keys id =
    (p : ProductRecord) × ((get_product r id ≡ some p) × (contains keys p.product_key ≡ true))

-- the changeset is due, with every product and every table among the released ones, or it waits,
-- with every table among the deferred
abbrev pub IsWhole : Registry → ChangeSetRecord → Expanded → Type 0
IsWhole r c e =
    (All (IsCurrent r c) c.required_product_ids
      × All (HasKey r e.products) c.required_product_ids
      × (all (contains e.tables) c.table_ids ≡ true))
    ⊎ (IsWaiting r c × (all (contains e.deferred) c.table_ids ≡ true))

-- nothing that was there is taken out
pub record Grows (e e' : Expanded) : Type 0 where
  pub products : (k : String) → contains e.products k ≡ true → contains e'.products k ≡ true
  pub tables : (k : String) → contains e.tables k ≡ true → contains e'.tables k ≡ true
  pub deferred : (k : String) → contains e.deferred k ≡ true → contains e'.deferred k ≡ true

pub HasKey-more :
    (r : Registry) (keys keys' : List String) (ids : List String)
    → ((k : String) → contains keys k ≡ true → contains keys' k ≡ true)
    → All (HasKey r keys) ids
    → All (HasKey r keys') ids
HasKey-more r keys keys' [] more a = tt
HasKey-more r keys keys' (id ∷ ids) more a =
    ((a.0.0, (a.0.1.0, more a.0.0.product_key a.0.1.1)), HasKey-more r keys keys' ids more a.1)

all-more :
    (xs ys ts : List String)
    → ((k : String) → contains xs k ≡ true → contains ys k ≡ true)
    → all (contains xs) ts ≡ true
    → all (contains ys) ts ≡ true
all-more xs ys [] more a = refl
all-more xs ys (t ∷ ts) more a = ground (arith, all-more xs ys ts more, more t, a)

IsWhole-Grows :
    (r : Registry) (c : ChangeSetRecord) (e e' : Expanded)
    → Grows e e'
    → IsWhole r c e
    → IsWhole r c e'
IsWhole-Grows r c e e' g (inl (due, keys, tables)) = inl (
  due,
  HasKey-more r e.products e'.products c.required_product_ids g.products keys,
  all-more e.tables e'.tables c.table_ids g.tables tables,
)
IsWhole-Grows r c e e' g (inr (waits, tables)) =
    inr (waits, all-more e.deferred e'.deferred c.table_ids g.deferred tables)

resolve_required-HasKey :
    (r : Registry) (c : ChangeSetRecord) (ids : List String) (out : List String × Bool)
    → resolve_required r c.ready_products ids ≡ ok out
    → All (HasKey r out.0) ids
unfolding resolve_required
resolve_required-HasKey r c [] out h = tt
resolve_required-HasKey r c (id ∷ ids) out h =
    in_chain (check_required id (get c.ready_products id) (get_product r id)) _ out h
      λ first checked h. in_chain (resolve_required r c.ready_products ids) _ out h λ rest others h.
        let same = ok_injective (first.0 ∷ rest.0, first.1 || rest.1) out h in
        let found =
          check_required_cases id (get c.ready_products id) (get_product r id) first checked in
        (
          (
            found.0,
            (
              found.1.1.0,
              ground (
                arith,
                found.1.1.1.1.0,
                ap (λ o. contains o.0 first.0) same,
                ap (contains out.0) found.1.1.1.1.0,
                eq_iff first.0 first.0,
              ),
            ),
          ),
          HasKey-more r rest.0 out.0 ids (λ k m. ground (arith, m, ap (λ o. contains o.0 k) same))
              (resolve_required-HasKey r c ids rest others),
        )

contains_self : (xs : List String) → all (contains xs) xs ≡ true
contains_self xs = all_from_contains (contains xs) xs λ a h. h

postponed-Grows : (c : ChangeSetRecord) (e : Expanded) → Grows e (postponed c e)
postponed-Grows c e = record {
  products = λ k m. m;
  tables = λ k m. m;
  deferred = λ k m. ground (arith, m, contains-append c.table_ids e.deferred k);
}

enlarged-Grows :
    (c : ChangeSetRecord) (keys : List String) (e : Expanded) → Grows e (enlarged c keys e)
enlarged-Grows c keys e = record {
  products = λ k m. ground (arith, m, contains-append keys e.products k);
  tables = λ k m. ground (arith, m, contains-append c.table_ids e.tables k);
  deferred = λ k m. m;
}

-- one expansion keeps what is there, and releases its changeset whole or defers it
expand_changeset-IsWhole :
    (r : Registry) (c : ChangeSetRecord) (e e' : Expanded)
    → expand_changeset r c e ≡ ok e'
    → Grows e e' × IsWhole r c e'
unfolding expand_changeset
expand_changeset-IsWhole r c e e' h =
    in_chain (resolve_required r c.ready_products c.required_product_ids) _ e' h λ out resolved h.
      elim (Bool-cases out.1) [
        | inl future ↦
            let same =
              ok_injective (postponed c e) e'
                (subst (λ b. expanded_or r c out.0 e b ≡ ok e') future h) in
            subst (λ x. Grows e x × IsWhole r c x) same
              (
                postponed-Grows c e,
                inr (
                  resolve_required-IsLater r c c.required_product_ids out resolved future,
                  all-more c.table_ids (postponed c e).deferred c.table_ids
                      (λ k m. ground (arith, m, contains-append c.table_ids e.deferred k))
                      (contains_self c.table_ids),
                ),
              )
        | inr current ↦
            in_chain (require_tables r c.table_ids) _ e'
              (subst (λ b. expanded_or r c out.0 e b ≡ ok e') current h)
              λ _ _ h.
                subst (λ x. Grows e x × IsWhole r c x) (ok_injective (enlarged c out.0 e) e' h)
                  (
                    enlarged-Grows c out.0 e,
                    inl (
                      resolve_required-All r c c.required_product_ids out resolved current,
                      HasKey-more r out.0 (enlarged c out.0 e).products c.required_product_ids
                          (λ k m. ground (arith, m, contains-append out.0 e.products k))
                          (resolve_required-HasKey r c c.required_product_ids out resolved),
                      all-more c.table_ids (enlarged c out.0 e).tables c.table_ids
                          (λ k m. ground (arith, m, contains-append c.table_ids e.tables k))
                          (contains_self c.table_ids),
                    ),
                  )
      ]

same-Grows : (e e' : Expanded) → e ≡ e' → Grows e e'
same-Grows e e' s =
    subst (Grows e) s (record { products = λ k m. m; tables = λ k m. m; deferred = λ k m. m })

visit_id-Grows :
    (r : Registry) (id : String) (e e' : Expanded) → visit_id r id e ≡ ok e' → Grows e e'
unfolding visit_id
visit_id-Grows r id e e' h = elim (Option-cases (get_changeset r id)) [
  | inl lacks ↦ absurd (ground (arith, lacks, h))
  | inr (c, registered) ↦ elim (Bool-cases (is_blocked c)) [
    | inl b ↦
        same-Grows e e' (ok_injective {E = DetectionError} e e' (ground (arith, registered, b, h)))
    | inr b ↦ (expand_changeset-IsWhole r c e e' (ground (arith, registered, b, h))).0
  ]
]

visit_id-IsWhole :
    (r : Registry) (id : String) (c : ChangeSetRecord) (e e' : Expanded)
    → get_changeset r id ≡ some c
    → status c ≡ ready
    → visit_id r id e ≡ ok e'
    → IsWhole r c e'
unfolding visit_id
visit_id-IsWhole r id c e e' registered is_ready h =
    (expand_changeset-IsWhole r c e e' (ground (arith, registered, is_ready, h))).1

Grows-trans : (a b c : Expanded) → Grows a b → Grows b c → Grows a c
Grows-trans a b c g k = record {
  products = λ x m. k.products x (g.products x m);
  tables = λ x m. k.tables x (g.tables x m);
  deferred = λ x m. k.deferred x (g.deferred x m);
}

visit_ids-Grows :
    (r : Registry) (ids : List String) (e e' : Expanded) → visit_ids r ids e ≡ ok e' → Grows e e'
unfolding visit_ids
visit_ids-Grows r [] e e' h = same-Grows e e' (ok_injective {E = DetectionError} e e' h)
visit_ids-Grows r (id ∷ ids) e e' h = in_chain (visit_id r id e) _ e' h λ middle first h.
    Grows-trans e middle e' (visit_id-Grows r id e middle first) (visit_ids-Grows r ids middle e' h)

pub visit_ids-IsWhole :
    (r : Registry) (ids : List String) (id : String) (c : ChangeSetRecord) (e e' : Expanded)
    → contains ids id ≡ true
    → get_changeset r id ≡ some c
    → status c ≡ ready
    → visit_ids r ids e ≡ ok e'
    → IsWhole r c e'
unfolding visit_ids
visit_ids-IsWhole r [] id c e e' m registered is_ready h = absurd (ground (arith, m))
visit_ids-IsWhole r (i ∷ ids) id c e e' m registered is_ready h =
    in_chain (visit_id r i e) _ e' h λ middle first h. elim (Bool-cases (str_eq i id)) [
      | inl same ↦ IsWhole-Grows r c middle e' (visit_ids-Grows r ids middle e' h) (
          visit_id-IsWhole r id c e middle registered is_ready
            (subst (λ x. visit_id r x e ≡ ok middle) ((eq_iff i id).0 same) first))
      | inr differ ↦
          visit_ids-IsWhole r ids id c middle e' (ground (arith, m, differ)) registered is_ready h
    ]
