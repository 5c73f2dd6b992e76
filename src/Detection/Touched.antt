-- ===== src/Detection/Touched.antt =====
-- src/ard_ossie/application/release_detection.py: the changed paths behind an expanded changeset.
use ard_ossie_provider.Prelude.{
  IsAmong, ◌≡◌, ◌⊎◌, inl, inr, refl, ap, ◌∙◌, not, true, ◌&&◌, Option, none, some, List, [], ◌∷◌,
  String, arith, raise_if, ok, in_chain, ok_injective, subst, Result, Bool-cases, eq_iff,
}
use ard_ossie_provider.Prelude.Text.{str_eq, contains}
use ard_ossie_provider.Models.{ProductRecord}
use ard_ossie_provider.Models.Patterns.{is_product_key, is_id}
use ard_ossie_provider.Registry.{Registry}
use ard_ossie_provider.Detection.{
  ConfigFile, Config, Value, text, number, absent, other, missing, malformed, no_mapping, mapping,
  matches_product, config_changeset, DetectionError, artifact_deleted, ChangedPath, Ports, Found,
  add_product, safe_relative, require_product_key, product_changeset, visit_artifact, add_table,
  visit_changeset, visit_table, visit_registry, visit_present, require_table, visit_parts,
  visit_paths, json_stem,
}
use ard_ossie_provider.Detection.Artifact.{
  IsRegistered, require_product_key-IsRegistered, is_text-eq, is_number-eq,
}
use ard_ossie_provider.Detection.Direct.{safe_relative-IsSafe}

-- the configuration is a mapping of the product and its version that names the changeset
pub record IsNaming (ports : Ports) (p : ProductRecord) (id : String) : Type 0 where
  pub config : Config
  pub mapped : ports.config_file p.product_key ≡ mapping config
  pub of_id : config.product_id ≡ text p.product_id
  pub of_key : config.product_key ≡ text p.product_key
  pub of_version : config.version ≡ number p.version
  pub names : config.changeset_id ≡ text id

-- a file below `generated` of a product whose configuration names the changeset
pub record IsArtifactOf (ports : Ports) (r : Registry) (parts : List String) (id : String)
    : Type 0 where
  pub key : String
  pub name : String
  pub rest : List String
  pub p : ProductRecord
  pub generated : parts ≡ "products" ∷ key ∷ "generated" ∷ name ∷ rest
  pub registered : IsRegistered r key p
  pub naming : IsNaming ports p id

-- the file of the changeset
pub record IsFileOf (parts : List String) (id : String) : Type 0 where
  pub name : String
  pub stored : parts ≡ "registry" ∷ "changesets" ∷ name ∷ []
  pub stem : json_stem name ≡ some id

-- among the paths is one that touches the changeset
pub record IsTouched (ports : Ports) (r : Registry) (paths : List ChangedPath) (id : String)
    : Type 0 where
  pub path : ChangedPath
  pub listed : IsAmong path paths
  pub touching : IsFileOf path.parts id ⊎ IsArtifactOf ports r path.parts id

config_changeset-some :
    (key : String) (v : Value) (id : String) → config_changeset key v ≡ ok (some id) → v ≡ text id
unfolding config_changeset
config_changeset-some key absent id h =
    absurd (ground (arith, ok_injective {E = DetectionError} none (some id) h))
config_changeset-some key (text s) id h = elim (Bool-cases (str_eq s "")) [
  | inl e ↦ absurd (ground (arith, e, h))
  | inr e ↦ elim (Bool-cases (is_id "cst_" s)) [
    | inl f ↦ ground (arith, e, f, h)
    | inr f ↦ absurd (ground (arith, e, f, h))
  ]
]
config_changeset-some key (number n) id h = cc
config_changeset-some key other id h = cc

product_changeset-IsNaming :
    (ports : Ports) (p : ProductRecord) (id : String)
    → product_changeset (ports.config_file p.product_key) p ≡ ok (some id)
    → IsNaming ports p id
unfolding product_changeset
product_changeset-IsNaming ports p id h = split (ports.config_file p.product_key) refl h
  where
    split :
        (file : ConfigFile)
        → ports.config_file p.product_key ≡ file
        → product_changeset file p ≡ ok (some id)
        → IsNaming ports p id
    split missing e k = cc
    split malformed e k = cc
    split no_mapping e k = cc
    split (mapping c) e k = elim (Bool-cases (matches_product c p)) [
      | inr f ↦ absurd (ground (arith, f, k))
      | inl f ↦ record {
        config = c;
        mapped = e;
        of_id = is_text-eq c.product_id p.product_id (ground (arith, f));
        of_key = is_text-eq c.product_key p.product_key (ground (arith, f));
        of_version = is_number-eq c.version p.version (ground (arith, f));
        names = config_changeset-some p.product_key c.changeset_id id (ground (arith, f, k));
      }
    ]

-- a visit adds the changeset
abbrev Adds : Found → Found → String → Type 0 → Type 0
Adds f f' id P = contains f'.changesets id ≡ true → (contains f.changesets id ≡ true) ⊎ P

keeps : (f f' : Found) (id : String) (P : Type 0) → f.changesets ≡ f'.changesets → Adds f f' id P
keeps f f' id P e l = inl (ap (λ x. contains x id) e ∙ l)

same_changesets :
    (f f' : Found)
    → ◌≡◌ {A = Result DetectionError Found} (ok f) (ok f')
    → f.changesets ≡ f'.changesets
same_changesets f f' h = ap (λ x. x.changesets) (ok_injective f f' h)

add_product-Adds :
    (f f' : Found) (key : String) (o : Option String) (id : String)
    → add_product f key o ≡ f'
    → Adds f f' id (o ≡ some id)
add_product-Adds f f' key none id e = keeps f f' id _ (ap (λ x. x.changesets) e)
add_product-Adds f f' key (some a) id e = λ l. elim (Bool-cases (str_eq a id)) [
  | inl same ↦ inr (ap some ((eq_iff a id).0 same))
  | inr differ ↦ inl (ground (arith, differ, l, ap (λ x. contains x.changesets id) e))
]

-- what the visit of an artifact establishes
abbrev Names : Ports → Registry → String → String → Type 0
Names ports r key id = (p : ProductRecord) × (IsRegistered r key p × IsNaming ports p id)

visit_present-Adds :
    (ports : Ports) (r : Registry) (parts : List String) (key : String) (f f' : Found) (id : String)
    → visit_present ports r parts key f ≡ ok f'
    → Adds f f' id (Names ports r key id)
unfolding visit_present
visit_present-Adds ports r parts key f f' id h l =
    in_chain (raise_if (not (ports.is_file parts)) (artifact_deleted parts)) _ f' h λ _ _ h.
      in_chain (require_product_key r key) _ f' h λ p registered h.
        in_chain (product_changeset (ports.config_file p.product_key) p) _ f' h λ o config h.
          elim (add_product-Adds f f' key o id (ok_injective (add_product f key o) f' h) l) [
            | inl before ↦ inl before
            | inr same ↦ inr (
              p,
              (
                require_product_key-IsRegistered r key p registered,
                product_changeset-IsNaming ports p id (config ∙ ap ok same),
              ),
            )
          ]

visit_artifact-Adds :
    (ports : Ports) (r : Registry) (parts : List String) (key : String) (f f' : Found) (id : String)
    → visit_artifact ports r parts key f ≡ ok f'
    → Adds f f' id (Names ports r key id)
unfolding visit_artifact
visit_artifact-Adds ports r parts key f f' id h = elim (Bool-cases (is_product_key key)) [
  | inl is_key ↦ visit_present-Adds ports r parts key f f' id (ground (arith, is_key, h))
  | inr e ↦ absurd (ground (arith, e, h))
]

visit_changeset-Adds :
    (stem : Option String) (f f' : Found) (id : String)
    → visit_changeset stem f ≡ ok f'
    → Adds f f' id (stem ≡ some id)
unfolding visit_changeset
visit_changeset-Adds none f f' id h l = keeps f f' id _ (same_changesets f f' h) l
visit_changeset-Adds (some a) f f' id h l = elim (Bool-cases (is_id "cst_" a)) [
  | inr e ↦ absurd (ground (arith, e, h))
  | inl e ↦ elim (Bool-cases (str_eq a id)) [
    | inl same ↦ inr (ap some ((eq_iff a id).0 same))
    | inr differ ↦ inl (
        ground (
          arith,
          differ,
          l,
          ap (λ x. contains x id)
              (same_changesets (record f { changesets = a ∷ f.changesets }) f'
                (ground (arith, e, h))),
        ))
  ]
]

visit_table-same :
    (r : Registry) (stem : Option String) (f f' : Found)
    → visit_table r stem f ≡ ok f'
    → f.changesets ≡ f'.changesets
unfolding visit_table add_table
visit_table-same r none f f' h = same_changesets f f' h
visit_table-same r (some a) f f' h = elim (Bool-cases (is_id "tbl_" a)) [
  | inr e ↦ absurd (ground (arith, e, h))
  | inl e ↦
      let added : add_table r a f ≡ ok f' = ground (arith, e, h) in
      in_chain (require_table r a) _ f' added
        λ _ _ h. same_changesets (record f { tables = a ∷ f.tables }) f' h
]

visit_registry-Adds :
    (r : Registry) (top directory name : String) (f f' : Found) (id : String)
    → visit_registry r top directory name f ≡ ok f'
    → Adds f f' id (IsFileOf (top ∷ directory ∷ name ∷ []) id)
unfolding visit_registry visit_changeset visit_table
visit_registry-Adds r top directory name f f' id h l =
    elim (Bool-cases (str_eq top "registry" && str_eq directory "changesets")) [
      | inl e ↦ elim (visit_changeset-Adds (json_stem name) f f' id (ground (arith, e, h)) l) [
        | inl before ↦ inl before
        | inr stem ↦
            let is_top : top ≡ "registry" = (eq_iff top "registry").0 (ground (arith, e)) in
            let is_directory : directory ≡ "changesets" =
              (eq_iff directory "changesets").0 (ground (arith, e)) in
            inr (record { name = name; stored = cc; stem = stem })
      ]
      | inr e ↦ elim (Bool-cases (str_eq top "registry" && str_eq directory "tables")) [
        | inl t ↦
            keeps f f' id _ (visit_table-same r (json_stem name) f f' (ground (arith, e, t, h))) l
        | inr t ↦ keeps f f' id _ (same_changesets f f' (ground (arith, e, t, h))) l
      ]
    ]

visit_parts-Adds :
    (ports : Ports) (r : Registry) (parts : List String) (f f' : Found) (id : String)
    → visit_parts ports r parts f ≡ ok f'
    → Adds f f' id (IsFileOf parts id ⊎ IsArtifactOf ports r parts id)
unfolding visit_parts
visit_parts-Adds ports r [] f f' id h l = keeps f f' id _ (same_changesets f f' h) l
visit_parts-Adds ports r (_ ∷ []) f f' id h l = keeps f f' id _ (same_changesets f f' h) l
visit_parts-Adds ports r (_ ∷ _ ∷ []) f f' id h l = keeps f f' id _ (same_changesets f f' h) l
visit_parts-Adds ports r (top ∷ directory ∷ name ∷ []) f f' id h l =
    elim (visit_registry-Adds r top directory name f f' id h l) [
      | inl before ↦ inl before
      | inr w ↦ inr (inl w)
    ]
visit_parts-Adds ports r (top ∷ key ∷ kind ∷ name ∷ rest) f f' id h l =
    elim (Bool-cases (str_eq top "products" && str_eq kind "generated")) [
      | inr e ↦ keeps f f' id _ (same_changesets f f' (ground (arith, e, h))) l
      | inl e ↦
          elim (visit_artifact-Adds ports r (top ∷ key ∷ kind ∷ name ∷ rest) key f f' id
            (ground (arith, e, h)) l) [
              | inl before ↦ inl before
              | inr (p, (registered, naming)) ↦
                  let is_top : top ≡ "products" = (eq_iff top "products").0 (ground (arith, e)) in
                  let is_kind : kind ≡ "generated" =
                    (eq_iff kind "generated").0 (ground (arith, e)) in
                  inr (
                    inr (record {
                      key = key;
                      name = name;
                      rest = rest;
                      p = p;
                      generated = cc;
                      registered = registered;
                      naming = naming;
                    }))
            ]
    ]

-- A changeset that the loop over the paths finds was found before, or one of the paths touches it.
pub visit_paths-IsTouched :
    (ports : Ports) (r : Registry) (paths : List ChangedPath) (f f' : Found) (id : String)
    → visit_paths ports r paths f ≡ ok f'
    → contains f'.changesets id ≡ true
    → (contains f.changesets id ≡ true) ⊎ IsTouched ports r paths id
unfolding visit_paths
visit_paths-IsTouched ports r [] f f' id h l = keeps f f' id _ (same_changesets f f' h) l
visit_paths-IsTouched ports r (path ∷ paths) f f' id h l =
    in_chain (safe_relative ports path) _ f' h λ parts safe h.
      in_chain (visit_parts ports r parts f) _ f' h λ middle first h.
        elim (visit_paths-IsTouched ports r paths middle f' id h l) [
          | inr w ↦ inr (record { path = w.path; listed = inr w.listed; touching = w.touching })
          | inl m ↦ elim (visit_parts-Adds ports r parts f middle id first m) [
            | inl before ↦ inl before
            | inr w ↦ inr (record {
              path = path;
              listed = inl refl;
              touching =
                  subst (λ x. IsFileOf x id ⊎ IsArtifactOf ports r x id)
                    (safe_relative-IsSafe ports path parts safe).same w;
            })
          ]
        ]
