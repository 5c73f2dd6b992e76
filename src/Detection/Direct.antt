-- ===== src/Detection/Direct.antt =====
-- src/ard_ossie/application/release_detection.py: the changed paths behind a direct product.
use ard_ossie_provider.Prelude.{
  IsAmong, ap₂, ◌||◌, Option-cases, ◌≡◌, ◌⊎◌, inl, inr, refl, sym, ap, ◌∙◌, not, true, false, ◌&&◌,
  Option, none, some, List, [], ◌∷◌, String, arith, ok, in_chain, ok_injective, subst, Result,
  Bool-cases, eq_iff,
}
use ard_ossie_provider.Prelude.Text.{str_eq, contains}
use ard_ossie_provider.Models.{ProductRecord}
use ard_ossie_provider.Models.Patterns.{is_product_key, is_id}
use ard_ossie_provider.Registry.{Registry}
use ard_ossie_provider.Detection.{
  same_parts, DetectionError, ChangedPath, Ports, Found, safe_relative, visit_changeset,
  visit_table, visit_registry, require_table, add_table, visit_parts, visit_paths, json_stem,
}
use ard_ossie_provider.Detection.Artifact.{IsRegistered, IsPlain, IsArtifact, visit_artifact-Origin}

-- among the paths is a file below `generated` of the product with the key, a plain relative path
-- that is still there, and the product's configuration names no changeset
pub record IsDirect (ports : Ports) (r : Registry) (paths : List ChangedPath) (k : String)
    : Type 0 where
  pub path : ChangedPath
  pub name : String
  pub rest : List String
  pub p : ProductRecord
  pub listed : IsAmong path paths
  pub relative : path.absolute ≡ false
  pub resolved : ports.resolve_relative path ≡ some path.parts
  pub no_parent : contains path.parts ".." ≡ false
  pub generated : path.parts ≡ "products" ∷ k ∷ "generated" ∷ name ∷ rest
  pub is_key : is_product_key k ≡ true
  pub present : ports.is_file path.parts ≡ true
  pub registered : IsRegistered r k p
  pub plain : IsPlain ports p

visit_changeset-direct :
    (stem : Option String) (f f' : Found) → visit_changeset stem f ≡ ok f' → f.direct ≡ f'.direct
unfolding visit_changeset
visit_changeset-direct none f f' h = ap (λ x. x.direct) (ok_injective {E = DetectionError} f f' h)
visit_changeset-direct (some id) f f' h = elim (Bool-cases (is_id "cst_" id)) [
  | inl e ↦
      ap (λ x. x.direct)
        (ok_injective {E = DetectionError} (record f { changesets = id ∷ f.changesets }) f'
          (ground (arith, e, h)))
  | inr e ↦ absurd (ground (arith, e, h))
]

add_table-direct :
    (r : Registry) (id : String) (f f' : Found) → add_table r id f ≡ ok f' → f.direct ≡ f'.direct
unfolding add_table
add_table-direct r id f f' h = in_chain (require_table r id) _ f' h λ _ _ h.
    ap (λ x. x.direct)
      (ok_injective {E = DetectionError} (record f { tables = id ∷ f.tables }) f' h)

visit_table-direct :
    (r : Registry) (stem : Option String) (f f' : Found)
    → visit_table r stem f ≡ ok f'
    → f.direct ≡ f'.direct
unfolding visit_table
visit_table-direct r none f f' h = ap (λ x. x.direct) (ok_injective {E = DetectionError} f f' h)
visit_table-direct r (some id) f f' h = elim (Bool-cases (is_id "tbl_" id)) [
  | inl e ↦ add_table-direct r id f f' (ground (arith, e, h))
  | inr e ↦ absurd (ground (arith, e, h))
]

visit_registry-direct :
    (r : Registry) (top directory name : String) (f f' : Found)
    → visit_registry r top directory name f ≡ ok f'
    → f.direct ≡ f'.direct
unfolding visit_registry visit_changeset visit_table
visit_registry-direct r top directory name f f' h =
    elim (Bool-cases (str_eq top "registry" && str_eq directory "changesets")) [
      | inl e ↦ visit_changeset-direct (json_stem name) f f' (ground (arith, e, h))
      | inr e ↦ elim (Bool-cases (str_eq top "registry" && str_eq directory "tables")) [
        | inl t ↦ visit_table-direct r (json_stem name) f f' (ground (arith, e, t, h))
        | inr t ↦
            ap (λ x. x.direct) (ok_injective {E = DetectionError} f f' (ground (arith, e, t, h)))
      ]
    ]

kept :
    (f f' : Found) (k : String)
    → f.direct ≡ f'.direct
    → contains f'.direct k ≡ true
    → contains f.direct k ≡ true
kept f f' k e l = ap (λ x. contains x k) e ∙ l

same_direct :
    (f f' : Found) → ◌≡◌ {A = Result DetectionError Found} (ok f) (ok f') → f.direct ≡ f'.direct
same_direct f f' h = ap (λ x. x.direct) (ok_injective f f' h)

-- the parts are of a file below `generated` of the product with the key
record IsGenerated (ports : Ports) (r : Registry) (parts : List String) (k : String) : Type 0 where
  name : String
  rest : List String
  generated : parts ≡ "products" ∷ k ∷ "generated" ∷ name ∷ rest
  artifact : IsArtifact ports r parts k k

artifact-IsGenerated :
    (ports : Ports) (r : Registry) (top key kind name : String) (rest : List String) (k : String)
    → (str_eq top "products" && str_eq kind "generated") ≡ true
    → IsArtifact ports r (top ∷ key ∷ kind ∷ name ∷ rest) key k
    → IsGenerated ports r (top ∷ key ∷ kind ∷ name ∷ rest) k
artifact-IsGenerated ports r top key kind name rest k e w =
    let is_top : top ≡ "products" = (eq_iff top "products").0 (ground (arith, e)) in
    let is_kind : kind ≡ "generated" = (eq_iff kind "generated").0 (ground (arith, e)) in
    let same : key ≡ k = w.same_key in
    record {
      name = name;
      rest = rest;
      generated = cc;
      artifact = record {
        p = w.p;
        same_key = refl;
        is_key = w.is_key;
        present = w.present;
        registered = w.registered;
        plain = w.plain;
      };
    }

visit_parts-Origin :
    (ports : Ports) (r : Registry) (parts : List String) (f f' : Found) (k : String)
    → visit_parts ports r parts f ≡ ok f'
    → contains f'.direct k ≡ true
    → (contains f.direct k ≡ true) ⊎ IsGenerated ports r parts k
unfolding visit_parts
visit_parts-Origin ports r [] f f' k h l = inl (kept f f' k (same_direct f f' h) l)
visit_parts-Origin ports r (_ ∷ []) f f' k h l = inl (kept f f' k (same_direct f f' h) l)
visit_parts-Origin ports r (_ ∷ _ ∷ []) f f' k h l = inl (kept f f' k (same_direct f f' h) l)
visit_parts-Origin ports r (top ∷ directory ∷ name ∷ []) f f' k h l =
    inl (kept f f' k (visit_registry-direct r top directory name f f' h) l)
visit_parts-Origin ports r (top ∷ key ∷ kind ∷ name ∷ rest) f f' k h l =
    elim (Bool-cases (str_eq top "products" && str_eq kind "generated")) [
      | inl e ↦
          elim (visit_artifact-Origin ports r (top ∷ key ∷ kind ∷ name ∷ rest) key f f' k
            (ground (arith, e, h)) l) [
              | inl before ↦ inl before
              | inr w ↦ inr (artifact-IsGenerated ports r top key kind name rest k e w)
            ]
      | inr e ↦ inl (kept f f' k (same_direct f f' (ground (arith, e, h))) l)
    ]

same_parts-eq : (ps qs : List String) → same_parts ps qs ≡ true → ps ≡ qs
unfolding same_parts
same_parts-eq [] [] h = refl
same_parts-eq [] (q ∷ qs) h = cc
same_parts-eq (p ∷ ps) [] h = cc
same_parts-eq (p ∷ ps) (q ∷ qs) h =
    ap₂ ◌∷◌ ((eq_iff p q).0 (ground (arith, h))) (same_parts-eq ps qs (ground (arith, h)))

-- what a safe relative path is
pub record IsSafe (ports : Ports) (path : ChangedPath) (parts : List String) : Type 0 where
  pub same : parts ≡ path.parts
  pub relative : path.absolute ≡ false
  pub no_parent : contains path.parts ".." ≡ false
  pub resolved : ports.resolve_relative path ≡ some parts

pub safe_relative-IsSafe :
    (ports : Ports) (path : ChangedPath) (parts : List String)
    → safe_relative ports path ≡ ok parts
    → IsSafe ports path parts
unfolding safe_relative
safe_relative-IsSafe ports path parts h = elim (Option-cases (ports.resolve_relative path)) [
  | inl e ↦ absurd (ground (arith, e, h))
  | inr (relative, e) ↦
      elim (Bool-cases
        (path.absolute || contains path.parts ".." || not (same_parts relative path.parts))) [
          | inl bad ↦ absurd (ground (arith, e, bad, h))
          | inr good ↦
              let is : relative ≡ parts =
                ok_injective {E = DetectionError} relative parts (ground (arith, e, good, h)) in
              record {
                same = sym is ∙ same_parts-eq relative path.parts (ground (arith, good));
                relative = ground (arith, good);
                no_parent = ground (arith, good);
                resolved = e ∙ ap some is;
              }
        ]
]

generated-IsDirect :
    (ports : Ports) (r : Registry) (path : ChangedPath) (paths : List ChangedPath)
    (parts : List String) (k : String)
    → IsSafe ports path parts
    → IsGenerated ports r parts k
    → IsDirect ports r (path ∷ paths) k
generated-IsDirect ports r path paths parts k s w = record {
  path = path;
  name = w.name;
  rest = w.rest;
  p = w.artifact.p;
  listed = inl refl;
  relative = s.relative;
  resolved = s.resolved ∙ ap some s.same;
  no_parent = s.no_parent;
  generated = sym s.same ∙ w.generated;
  is_key = w.artifact.is_key;
  present = subst (λ x. ports.is_file x ≡ true) s.same w.artifact.present;
  registered = w.artifact.registered;
  plain = w.artifact.plain;
}

later-IsDirect :
    (ports : Ports) (r : Registry) (q : ChangedPath) (paths : List ChangedPath) (k : String)
    → IsDirect ports r paths k
    → IsDirect ports r (q ∷ paths) k
later-IsDirect ports r q paths k w = record {
  path = w.path;
  name = w.name;
  rest = w.rest;
  p = w.p;
  listed = inr w.listed;
  relative = w.relative;
  resolved = w.resolved;
  no_parent = w.no_parent;
  generated = w.generated;
  is_key = w.is_key;
  present = w.present;
  registered = w.registered;
  plain = w.plain;
}

pub visit_paths-Origin :
    (ports : Ports) (r : Registry) (paths : List ChangedPath) (f f' : Found) (k : String)
    → visit_paths ports r paths f ≡ ok f'
    → contains f'.direct k ≡ true
    → (contains f.direct k ≡ true) ⊎ IsDirect ports r paths k
unfolding visit_paths
visit_paths-Origin ports r [] f f' k h l =
    inl (ap (λ x. contains x.direct k) (ok_injective {E = DetectionError} f f' h) ∙ l)
visit_paths-Origin ports r (path ∷ paths) f f' k h l =
    in_chain (safe_relative ports path) _ f' h λ parts safe h.
      in_chain (visit_parts ports r parts f) _ f' h λ middle first h.
        elim (visit_paths-Origin ports r paths middle f' k h l) [
          | inr w ↦ inr (later-IsDirect ports r path paths k w)
          | inl m ↦ elim (visit_parts-Origin ports r parts f middle k first m) [
            | inl before ↦ inl before
            | inr w ↦ inr (
                generated-IsDirect ports r path paths parts k
                  (safe_relative-IsSafe ports path parts safe) w)
          ]
        ]
