-- ===== src/Detection/Released.antt =====
-- src/ard_ossie/application/release_detection.py: what the expansion of the changesets releases.
use ard_ossie_provider.Prelude.{
  ◌≡◌, ◌⊎◌, inl, inr, refl, sym, ap, ◌∙◌, Bool, true, false, ◌||◌, Option, none, some, List, [],
  ◌∷◌, String, arith, All, ltb, ok, in_chain, ok_injective, subst, Option-cases, Bool-cases, eq_iff,
}
use ard_ossie_provider.Prelude.Text.{contains-append, str_eq, contains}
use ard_ossie_provider.Prelude.Dict.{get}
use ard_ossie_provider.Models.{ProductRecord}
use ard_ossie_provider.Impact.{ChangeSetRecord, ProductReadiness, ready, status}
use ard_ossie_provider.Registry.{Registry, get_product, get_changeset}
use ard_ossie_provider.Release.Current.{IsCurrent}
use ard_ossie_provider.Detection.{DetectionError}
use ard_ossie_provider.Detection.Expansion.{
  Expanded, check_required, resolve_required, require_tables, postponed, enlarged, expanded_or,
  expand_changeset, is_blocked, visit_id, visit_ids,
}

-- the key is of a registered product among the identifiers
pub record IsKeyOf (r : Registry) (ids : List String) (k : String) : Type 0 where
  pub id : String
  pub p : ProductRecord
  pub listed : contains ids id ≡ true
  pub registered : get_product r id ≡ some p
  pub keyed : p.product_key ≡ k

-- the key is released by a ready changeset among the identifiers, of which every required product
-- is at the version at which it is ready
pub record IsExpandedFrom (r : Registry) (ids : List String) (k : String) : Type 0 where
  pub id : String
  pub c : ChangeSetRecord
  pub listed : contains ids id ≡ true
  pub registered : get_changeset r id ≡ some c
  pub is_ready : status c ≡ ready
  pub current : All (IsCurrent r c) c.required_product_ids
  pub key_of : IsKeyOf r c.required_product_ids k

pub check_required_cases :
    (id : String) (readiness : Option ProductReadiness) (product : Option ProductRecord)
    (out : String × Bool)
    → check_required id readiness product ≡ ok out
    → (p : ProductRecord) × ((s : ProductReadiness) × ((product ≡ some p)
          × ((readiness ≡ some s)
              × ((p.product_key ≡ out.0) × ((out.1 ≡ false) → p.version ≡ s.version)))))
unfolding check_required
check_required_cases id none product out h = cc
check_required_cases id (some s) none out h = cc
check_required_cases id (some s) (some p) out h = elim (Bool-cases (ltb s.version p.version)) [
  | inl e ↦ absurd (ground (arith, e, h))
  | inr e ↦
      let same : ◌≡◌ {A = String × Bool} (p.product_key, ltb p.version s.version) out =
        ok_injective {E = DetectionError} (p.product_key, ltb p.version s.version) out
          (ground (arith, e, h)) in
      (p, (s, (refl, (refl, (ap (λ o. o.0) same, λ k. ground (arith, e, k, ap (λ o. o.1) same))))))
]

pub resolve_required-All :
    (r : Registry) (c : ChangeSetRecord) (ids : List String) (out : List String × Bool)
    → resolve_required r c.ready_products ids ≡ ok out
    → out.1 ≡ false
    → All (IsCurrent r c) ids
unfolding resolve_required
resolve_required-All r c [] out h k = tt
resolve_required-All r c (id ∷ ids) out h k =
    in_chain (check_required id (get c.ready_products id) (get_product r id)) _ out h
      λ first checked h. in_chain (resolve_required r c.ready_products ids) _ out h λ rest others h.
        let same = ok_injective (first.0 ∷ rest.0, first.1 || rest.1) out h in
        let found =
          check_required_cases id (get c.ready_products id) (get_product r id) first checked in
        (
          (
            found.0,
            (
              found.1.0,
              (
                found.1.1.0,
                (found.1.1.1.0, found.1.1.1.1.1 (ground (arith, k, ap (λ o. o.1) same))),
              ),
            ),
          ),
          resolve_required-All r c ids rest others (ground (arith, k, ap (λ o. o.1) same)),
        )

widen :
    (r : Registry) (id : String) (ids : List String) (k : String)
    → IsKeyOf r ids k
    → IsKeyOf r (id ∷ ids) k
widen r id ids k w = record {
  id = w.id;
  p = w.p;
  listed = ground (arith, w.listed);
  registered = w.registered;
  keyed = w.keyed;
}

resolve_required-IsKeyOf :
    (r : Registry) (c : ChangeSetRecord) (ids : List String) (out : List String × Bool) (k : String)
    → resolve_required r c.ready_products ids ≡ ok out
    → contains out.0 k ≡ true
    → IsKeyOf r ids k
unfolding resolve_required
resolve_required-IsKeyOf r c [] out k h l =
    absurd (ground (arith, l, ap (λ o. contains o.0 k) (ok_injective ([], false) out h)))
resolve_required-IsKeyOf r c (id ∷ ids) out k h l =
    in_chain (check_required id (get c.ready_products id) (get_product r id)) _ out h
      λ first checked h. in_chain (resolve_required r c.ready_products ids) _ out h λ rest others h.
        let same = ok_injective (first.0 ∷ rest.0, first.1 || rest.1) out h in
        let found =
          check_required_cases id (get c.ready_products id) (get_product r id) first checked in
        elim (Bool-cases (str_eq first.0 k)) [
          | inl e ↦ record {
            id = id;
            p = found.0;
            listed = ground (arith, eq_iff id id);
            registered = found.1.1.0;
            keyed = found.1.1.1.1.0 ∙ (eq_iff first.0 k).0 e;
          }
          | inr e ↦ widen r id ids k (
              resolve_required-IsKeyOf r c ids rest k others
                (ground (arith, e, l, ap (λ o. contains o.0 k) same)))
        ]

expand_changeset-origin :
    (r : Registry) (id : String) (c : ChangeSetRecord) (e e' : Expanded) (k : String)
    → get_changeset r id ≡ some c
    → status c ≡ ready
    → expand_changeset r c e ≡ ok e'
    → contains e'.products k ≡ true
    → (contains e.products k ≡ true) ⊎ IsExpandedFrom r (id ∷ []) k
unfolding expand_changeset
expand_changeset-origin r id c e e' k registered is_ready h l =
    in_chain (resolve_required r c.ready_products c.required_product_ids) _ e' h λ out resolved h.
      elim (Bool-cases out.1) [
        | inl future ↦
            let same =
              ok_injective (postponed c e) e'
                (subst (λ b. expanded_or r c out.0 e b ≡ ok e') future h) in
            inl (ap (λ x. contains x.products k) same ∙ l)
        | inr current ↦
            in_chain (require_tables r c.table_ids) _ e'
              (subst (λ b. expanded_or r c out.0 e b ≡ ok e') current h)
              λ _ _ h.
                let same = ok_injective (enlarged c out.0 e) e' h in
                let either : (contains out.0 k || contains e.products k) ≡ true =
                  sym (contains-append out.0 e.products k)
                  ∙ (ap (λ x. contains x.products k) same ∙ l) in
                elim (Bool-cases (contains out.0 k)) [
                  | inr lacks ↦ inl (ground (arith, either, lacks))
                  | inl holds ↦ inr (record {
                    id = id;
                    c = c;
                    listed = ground (arith, eq_iff id id);
                    registered = registered;
                    is_ready = is_ready;
                    current = resolve_required-All r c c.required_product_ids out resolved current;
                    key_of =
                        resolve_required-IsKeyOf r c c.required_product_ids out k resolved holds;
                  })
                ]
      ]

visit_id-origin :
    (r : Registry) (id : String) (e e' : Expanded) (k : String)
    → visit_id r id e ≡ ok e'
    → contains e'.products k ≡ true
    → (contains e.products k ≡ true) ⊎ IsExpandedFrom r (id ∷ []) k
unfolding visit_id
visit_id-origin r id e e' k h l = elim (Option-cases (get_changeset r id)) [
  | inl lacks ↦ absurd (ground (arith, lacks, h))
  | inr (c, registered) ↦ elim (Bool-cases (is_blocked c)) [
    | inl b ↦ inl (
        ap (λ x. contains x.products k)
          (ok_injective {E = DetectionError} e e' (ground (arith, registered, b, h)))
        ∙ l)
    | inr b ↦
        expand_changeset-origin r id c e e' k registered (ground (arith, b))
          (ground (arith, registered, b, h)) l
  ]
]

pub widen_ids :
    (r : Registry) (ids ids' : List String) (k : String)
    → ((a : String) → contains ids a ≡ true → contains ids' a ≡ true)
    → IsExpandedFrom r ids k
    → IsExpandedFrom r ids' k
widen_ids r ids ids' k more w = record {
  id = w.id;
  c = w.c;
  listed = more w.id w.listed;
  registered = w.registered;
  is_ready = w.is_ready;
  current = w.current;
  key_of = w.key_of;
}

-- A released key was there before, or comes from an expanded changeset.
pub visit_ids-origin :
    (r : Registry) (ids : List String) (e e' : Expanded) (k : String)
    → visit_ids r ids e ≡ ok e'
    → contains e'.products k ≡ true
    → (contains e.products k ≡ true) ⊎ IsExpandedFrom r ids k
unfolding visit_ids
visit_ids-origin r [] e e' k h l =
    inl (ap (λ x. contains x.products k) (ok_injective {E = DetectionError} e e' h) ∙ l)
visit_ids-origin r (id ∷ ids) e e' k h l = in_chain (visit_id r id e) _ e' h λ middle first h.
    elim (visit_ids-origin r ids middle e' k h l) [
      | inr w ↦ inr (widen_ids r ids (id ∷ ids) k (λ a m. ground (arith, m)) w)
      | inl m ↦ elim (visit_id-origin r id e middle k first m) [
        | inl b ↦ inl b
        | inr w ↦ inr (widen_ids r (id ∷ []) (id ∷ ids) k (λ a m. ground (arith, m)) w)
      ]
    ]
