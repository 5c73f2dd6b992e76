-- ===== src/Detection/Waiting.antt =====
-- src/ard_ossie/application/release_detection.py: which changesets wait, and what they withhold.
use ard_ossie_provider.Prelude.{
  ◌≡◌, ◌⊎◌, ◌<◌, inl, inr, refl, sym, ap, ◌∙◌, Bool, true, false, ◌||◌, Option, none, some, List,
  [], ◌∷◌, String, arith, ltb, ok, in_chain, ok_injective, subst, Option-cases, Bool-cases, eq_iff,
}
use ard_ossie_provider.Prelude.Text.{contains-append, contains}
use ard_ossie_provider.Prelude.Dict.{get}
use ard_ossie_provider.Models.{ProductRecord}
use ard_ossie_provider.Impact.{ChangeSetRecord, ProductReadiness, ready, status}
use ard_ossie_provider.Registry.{Registry, get_product, get_changeset}
use ard_ossie_provider.Detection.{DetectionError}
use ard_ossie_provider.Detection.Expansion.{
  Expanded, check_required, resolve_required, require_tables, postponed, enlarged, expanded_or,
  expand_changeset, is_blocked, visit_id, visit_ids,
}

-- one of these products is registered at a version before the one at which it is ready
pub record IsLater (r : Registry) (c : ChangeSetRecord) (ids : List String) : Type 0 where
  pub id : String
  pub p : ProductRecord
  pub readiness : ProductReadiness
  pub listed : contains ids id ≡ true
  pub registered : get_product r id ≡ some p
  pub reported : get c.ready_products id ≡ some readiness
  pub later : p.version < readiness.version

-- the changeset waits for one of its products
abbrev pub IsWaiting : Registry → ChangeSetRecord → Type 0
IsWaiting r c = IsLater r c c.required_product_ids

-- the table is of a ready changeset among the identifiers that waits
pub record IsWithheld (r : Registry) (ids : List String) (t : String) : Type 0 where
  pub id : String
  pub c : ChangeSetRecord
  pub listed : contains ids id ≡ true
  pub registered : get_changeset r id ≡ some c
  pub is_ready : status c ≡ ready
  pub waiting : IsWaiting r c
  pub holds : contains c.table_ids t ≡ true

check_required-later :
    (id : String) (readiness : Option ProductReadiness) (product : Option ProductRecord)
    (out : String × Bool)
    → check_required id readiness product ≡ ok out
    → out.1 ≡ true
    → (p : ProductRecord) × (s : ProductReadiness) × (product ≡ some p)
      × (readiness ≡ some s)
      × (p.version < s.version)
unfolding check_required
check_required-later id none product out h l = cc
check_required-later id (some s) none out h l = cc
check_required-later id (some s) (some p) out h l = elim (Bool-cases (ltb s.version p.version)) [
  | inl e ↦ absurd (ground (arith, e, h))
  | inr e ↦
      let same : ◌≡◌ {A = String × Bool} (p.product_key, ltb p.version s.version) out =
        ok_injective {E = DetectionError} (p.product_key, ltb p.version s.version) out
          (ground (arith, e, h)) in
      (p, s, refl, refl, ground (arith, l, ap (λ o. o.1) same))
]

IsLater-more :
    (r : Registry) (c : ChangeSetRecord) (id : String) (ids : List String)
    → IsLater r c ids
    → IsLater r c (id ∷ ids)
IsLater-more r c id ids w = record {
  id = w.id;
  p = w.p;
  readiness = w.readiness;
  listed = ground (arith, w.listed);
  registered = w.registered;
  reported = w.reported;
  later = w.later;
}

pub resolve_required-IsLater :
    (r : Registry) (c : ChangeSetRecord) (ids : List String) (out : List String × Bool)
    → resolve_required r c.ready_products ids ≡ ok out
    → out.1 ≡ true
    → IsLater r c ids
unfolding resolve_required
resolve_required-IsLater r c [] out h k =
    absurd (ground (arith, k, ap (λ o. o.1) (ok_injective ([], false) out h)))
resolve_required-IsLater r c (id ∷ ids) out h k =
    in_chain (check_required id (get c.ready_products id) (get_product r id)) _ out h
      λ first checked h. in_chain (resolve_required r c.ready_products ids) _ out h λ rest others h.
        let same = ok_injective (first.0 ∷ rest.0, first.1 || rest.1) out h in
        elim (Bool-cases first.1) [
          | inr e ↦ IsLater-more r c id ids (
              resolve_required-IsLater r c ids rest others
                (ground (arith, e, k, ap (λ o. o.1) same)))
          | inl e ↦
              let found =
                check_required-later id (get c.ready_products id) (get_product r id) first checked
                  e in
              record {
                id = id;
                p = found.0;
                readiness = found.1;
                listed = ground (arith, eq_iff id id);
                registered = found.2;
                reported = found.3;
                later = found.4;
              }
        ]

expand_changeset-IsWithheld :
    (r : Registry) (id : String) (c : ChangeSetRecord) (e e' : Expanded) (t : String)
    → get_changeset r id ≡ some c
    → status c ≡ ready
    → expand_changeset r c e ≡ ok e'
    → contains e'.deferred t ≡ true
    → (contains e.deferred t ≡ true) ⊎ IsWithheld r (id ∷ []) t
unfolding expand_changeset
expand_changeset-IsWithheld r id c e e' t registered is_ready h l =
    in_chain (resolve_required r c.ready_products c.required_product_ids) _ e' h λ out resolved h.
      elim (Bool-cases out.1) [
        | inr current ↦
            in_chain (require_tables r c.table_ids) _ e'
              (subst (λ b. expanded_or r c out.0 e b ≡ ok e') current h)
              λ _ _ h.
                inl (ap (λ x. contains x.deferred t) (ok_injective (enlarged c out.0 e) e' h) ∙ l)
        | inl future ↦
            let same =
              ok_injective (postponed c e) e'
                (subst (λ b. expanded_or r c out.0 e b ≡ ok e') future h) in
            let either : (contains c.table_ids t || contains e.deferred t) ≡ true =
              sym (contains-append c.table_ids e.deferred t)
              ∙ (ap (λ x. contains x.deferred t) same ∙ l) in
            elim (Bool-cases (contains c.table_ids t)) [
              | inr lacks ↦ inl (ground (arith, either, lacks))
              | inl holds ↦ inr (record {
                id = id;
                c = c;
                listed = ground (arith, eq_iff id id);
                registered = registered;
                is_ready = is_ready;
                waiting = resolve_required-IsLater r c c.required_product_ids out resolved future;
                holds = holds;
              })
            ]
      ]

visit_id-IsWithheld :
    (r : Registry) (id : String) (e e' : Expanded) (t : String)
    → visit_id r id e ≡ ok e'
    → contains e'.deferred t ≡ true
    → (contains e.deferred t ≡ true) ⊎ IsWithheld r (id ∷ []) t
unfolding visit_id
visit_id-IsWithheld r id e e' t h l = elim (Option-cases (get_changeset r id)) [
  | inl lacks ↦ absurd (ground (arith, lacks, h))
  | inr (c, registered) ↦ elim (Bool-cases (is_blocked c)) [
    | inl b ↦ inl (
        ap (λ x. contains x.deferred t)
          (ok_injective {E = DetectionError} e e' (ground (arith, registered, b, h)))
        ∙ l)
    | inr b ↦
        expand_changeset-IsWithheld r id c e e' t registered (ground (arith, b))
          (ground (arith, registered, b, h)) l
  ]
]

pub widen-IsWithheld :
    (r : Registry) (ids ids' : List String) (t : String)
    → ((a : String) → contains ids a ≡ true → contains ids' a ≡ true)
    → IsWithheld r ids t
    → IsWithheld r ids' t
widen-IsWithheld r ids ids' t more w = record {
  id = w.id;
  c = w.c;
  listed = more w.id w.listed;
  registered = w.registered;
  is_ready = w.is_ready;
  waiting = w.waiting;
  holds = w.holds;
}

-- A deferred table was so before, or is of a changeset that waits.
pub visit_ids-IsWithheld :
    (r : Registry) (ids : List String) (e e' : Expanded) (t : String)
    → visit_ids r ids e ≡ ok e'
    → contains e'.deferred t ≡ true
    → (contains e.deferred t ≡ true) ⊎ IsWithheld r ids t
unfolding visit_ids
visit_ids-IsWithheld r [] e e' t h l =
    inl (ap (λ x. contains x.deferred t) (ok_injective {E = DetectionError} e e' h) ∙ l)
visit_ids-IsWithheld r (id ∷ ids) e e' t h l = in_chain (visit_id r id e) _ e' h λ middle first h.
    elim (visit_ids-IsWithheld r ids middle e' t h l) [
      | inr w ↦ inr (widen-IsWithheld r ids (id ∷ ids) t (λ a m. ground (arith, m)) w)
      | inl m ↦ elim (visit_id-IsWithheld r id e middle t first m) [
        | inl b ↦ inl b
        | inr w ↦ inr (widen-IsWithheld r (id ∷ []) (id ∷ ids) t (λ a m. ground (arith, m)) w)
      ]
    ]
