-- ===== src/Detection/Artifact.antt =====
-- src/ard_ossie/application/release_detection.py: what a changed artifact makes of its product.
use ard_ossie_provider.Prelude.Dict.{Dict, get, put, get-put, get-nil}
use ard_ossie_provider.Prelude.Reindex.{index_from}
use ard_ossie_provider.Prelude.{
  IsAmong, [], Option-cases, some, ◌∷◌, sym, ℕ, ◌≡◌, ◌⊎◌, inl, inr, refl, ap, ◌∙◌, not, Bool, true,
  false, Option, none, some, List, String, arith, raise_if, ok, in_chain, ok_injective, subst,
  Bool-cases, eq_iff,
}
use ard_ossie_provider.Prelude.Text.{str_eq, contains}
use ard_ossie_provider.Models.{ProductRecord}
use ard_ossie_provider.Models.Patterns.{is_product_key, is_id}
use ard_ossie_provider.Registry.{Registry, products}
use ard_ossie_provider.Detection.{
  ConfigFile, Config, Value, text, number, absent, other, missing, malformed, no_mapping, mapping,
  is_text, is_number, matches_product, config_changeset, DetectionError, artifact_deleted, Ports,
  Found, add_product, require_product_key, product_changeset, visit_artifact, visit_present,
}

-- the configuration is a mapping of the product and its version that names no changeset
pub record IsPlain (ports : Ports) (p : ProductRecord) : Type 0 where
  pub config : Config
  pub mapped : ports.config_file p.product_key ≡ mapping config
  pub of_id : config.product_id ≡ text p.product_id
  pub of_key : config.product_key ≡ text p.product_key
  pub of_version : config.version ≡ number p.version
  pub no_changeset : (config.changeset_id ≡ absent) ⊎ (config.changeset_id ≡ text "")

pub is_text-eq : (v : Value) (t : String) → is_text v t ≡ true → v ≡ text t
is_text-eq (text s) t h = ap text ((eq_iff s t).0 h)
is_text-eq (number n) t h = cc
is_text-eq absent t h = cc
is_text-eq other t h = cc

pub is_number-eq : (v : Value) (n : ℕ) → is_number v n ≡ true → v ≡ number n
is_number-eq (number m) n h = ap number (ground (arith, h))
is_number-eq (text s) n h = cc
is_number-eq absent n h = cc
is_number-eq other n h = cc

config_changeset-none :
    (key : String) (v : Value) → config_changeset key v ≡ ok none → (v ≡ absent) ⊎ (v ≡ text "")
unfolding config_changeset
config_changeset-none key absent h = inl refl
config_changeset-none key (text s) h = elim (Bool-cases (str_eq s "")) [
  | inl e ↦ inr (ap text ((eq_iff s "").0 e))
  | inr e ↦ elim (Bool-cases (is_id "cst_" s)) [
    | inl f ↦ absurd (ground (arith, e, f, h))
    | inr f ↦ absurd (ground (arith, e, f, h))
  ]
]
config_changeset-none key (number n) h = cc
config_changeset-none key other h = cc

-- the product is one of the Registry, with the key
abbrev pub IsRegistered : Registry → String → ProductRecord → Type 0
IsRegistered r key p = (p.product_key ≡ key) × IsAmong p (products r)

index_from-IsAmong :
    (d : Dict ProductRecord) (ps : List ProductRecord) (k : String) (p : ProductRecord)
    → get (index_from (λ (q : ProductRecord). q.product_key) d ps) k ≡ some p
    → (get d k ≡ some p) ⊎ ((p.product_key ≡ k) × IsAmong p ps)
unfolding index_from
index_from-IsAmong d [] k p h = inl h
index_from-IsAmong d (q ∷ ps) k p h = elim (index_from-IsAmong (put d q.product_key q) ps k p h) [
  | inr (keyed, among) ↦ inr (keyed, inr among)
  | inl first ↦
      let step = sym (get-put d q.product_key k q) ∙ first in
      elim (Bool-cases (str_eq q.product_key k)) [
        | inr e ↦ inl (ground (arith, e, step))
        | inl e ↦
            let same : q ≡ p = ground (arith, e, step) in
            inr (ap (λ x. x.product_key) (sym same) ∙ (eq_iff q.product_key k).0 e, inl (sym same))
      ]
]

pub require_product_key-IsRegistered :
    (r : Registry) (key : String) (p : ProductRecord)
    → require_product_key r key ≡ ok p
    → IsRegistered r key p
unfolding require_product_key
require_product_key-IsRegistered r key p h =
    elim (Option-cases
      (get (index_from (λ (q : ProductRecord). q.product_key) [] (products r)) key)) [
        | inl e ↦ absurd (ground (arith, e, h))
        | inr (q, e) ↦
            let same : q ≡ p = ok_injective {E = DetectionError} q p (ground (arith, e, h)) in
            elim (index_from-IsAmong [] (products r) key p (e ∙ ap some same)) [
              | inl none_yet ↦ absurd (ground (arith, none_yet, get-nil {V = ProductRecord} key))
              | inr found ↦ found
            ]
      ]

product_changeset-IsPlain :
    (ports : Ports) (p : ProductRecord)
    → product_changeset (ports.config_file p.product_key) p ≡ ok none
    → IsPlain ports p
unfolding product_changeset
product_changeset-IsPlain ports p h = split (ports.config_file p.product_key) refl h
  where
    split :
        (file : ConfigFile)
        → ports.config_file p.product_key ≡ file
        → product_changeset file p ≡ ok none
        → IsPlain ports p
    split missing e k = cc
    split malformed e k = cc
    split no_mapping e k = cc
    split (mapping c) e k = elim (Bool-cases (matches_product c p)) [
      | inr f ↦ absurd (ground (arith, f, k))
      | inl f ↦ record {
        config = c;
        mapped = e;
        of_id = is_text-eq c.product_id p.product_id (ground (arith, f));
        of_key = is_text-eq c.product_key p.product_key (ground (arith, f));
        of_version = is_number-eq c.version p.version (ground (arith, f));
        no_changeset = config_changeset-none p.product_key c.changeset_id (ground (arith, f, k));
      }
    ]

-- what the visit of an artifact of the product establishes
pub record IsArtifact (ports : Ports) (r : Registry) (parts : List String) (key k : String)
    : Type 0 where
  pub p : ProductRecord
  pub same_key : key ≡ k
  pub is_key : is_product_key k ≡ true
  pub present : ports.is_file parts ≡ true
  pub registered : IsRegistered r k p
  pub plain : IsPlain ports p

-- a visit leaves the direct products as they were, or adds that of an artifact
abbrev pub Origin : Ports → Registry → List String → String → Found → Found → String → Type 0
Origin ports r parts key f f' k =
    contains f'.direct k ≡ true → (contains f.direct k ≡ true) ⊎ IsArtifact ports r parts key k

add_product-Origin :
    (f f' : Found) (key : String) (id : Option String) (k : String)
    → add_product f key id ≡ f'
    → contains f'.direct k ≡ true
    → (contains f.direct k ≡ true) ⊎ ((key ≡ k) × (id ≡ none))
add_product-Origin f f' key none k e l = elim (Bool-cases (str_eq key k)) [
  | inl same ↦ inr ((eq_iff key k).0 same, refl)
  | inr differ ↦ inl (ground (arith, differ, l, ap (λ x. contains x.direct k) e))
]
add_product-Origin f f' key (some id) k e l = inl (ap (λ x. contains x.direct k) e ∙ l)

raise_if_passes : (b : Bool) (e : DetectionError) → raise_if (not b) e ≡ ok tt → b ≡ true
raise_if_passes true e h = refl
raise_if_passes false e h = cc

visit_present-Origin :
    (ports : Ports) (r : Registry) (parts : List String) (key : String) (f f' : Found) (k : String)
    → is_product_key key ≡ true
    → visit_present ports r parts key f ≡ ok f'
    → Origin ports r parts key f f' k
unfolding visit_present
visit_present-Origin ports r parts key f f' k is_key h l =
    in_chain (raise_if (not (ports.is_file parts)) (artifact_deleted parts)) _ f' h λ _ present h.
      in_chain (require_product_key r key) _ f' h λ p registered h.
        in_chain (product_changeset (ports.config_file p.product_key) p) _ f' h λ id config h.
          elim (add_product-Origin f f' key id k (ok_injective (add_product f key id) f' h) l) [
            | inl before ↦ inl before
            | inr (same, nothing) ↦ inr (record {
              p = p;
              same_key = same;
              is_key = subst (λ x. is_product_key x ≡ true) same is_key;
              present = raise_if_passes (ports.is_file parts) (artifact_deleted parts) present;
              registered =
                  subst (λ x. IsRegistered r x p) same
                    (require_product_key-IsRegistered r key p registered);
              plain = product_changeset-IsPlain ports p (config ∙ ap ok nothing);
            })
          ]

pub visit_artifact-Origin :
    (ports : Ports) (r : Registry) (parts : List String) (key : String) (f f' : Found) (k : String)
    → visit_artifact ports r parts key f ≡ ok f'
    → Origin ports r parts key f f' k
unfolding visit_artifact
visit_artifact-Origin ports r parts key f f' k h l = elim (Bool-cases (is_product_key key)) [
  | inl is_key ↦ visit_present-Origin ports r parts key f f' k is_key (ground (arith, is_key, h)) l
  | inr e ↦ absurd (ground (arith, e, h))
]
