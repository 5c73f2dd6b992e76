-- ===== src/Detection.antt =====
-- src/ard_ossie/application/release_detection.py: which products and tables a merge releases. The
-- ports are arguments: what git lists, what the paths resolve to, which files there are.
pub mod Expansion
pub mod Outputs
pub mod Released
pub mod Artifact
pub mod Direct
pub mod Touched
pub mod Safe
pub mod Waiting
pub mod Whole
pub mod Withheld
mod Tests
use Prim.Native.String as S
use ard_ossie_provider.Prelude.{
  ℕ, Bool, true, false, not, ◌&&◌, ◌||◌, Option, none, some, List, [], ◌∷◌, ◌++◌, map, String, ltb,
  ◌==◌, if◌then◌else◌, any, keep, raise_if, Result, ok, err, ◌>>=◌,
}
use ard_ossie_provider.Prelude.Text.{str_eq, contains}
use ard_ossie_provider.Prelude.Sets.{sorted_set}
use ard_ossie_provider.Prelude.Dict.{Dict, get}
use ard_ossie_provider.Prelude.Reindex.{index_from}
use ard_ossie_provider.Models.{ProductRecord, TableRecord}
use ard_ossie_provider.Models.Patterns.{is_id, is_product_key}
use ard_ossie_provider.Impact.{
  ChangeSetRecord, ProductReadiness, ChangeSetStatus, ready, blocked, status,
}
use ard_ossie_provider.Registry.{Registry, load, products, get_product, get_table, get_changeset}
use ard_ossie_provider.Registry.Files.{Disk}

-- the codes of the exceptions, security errors first
pub data DetectionError : Type 0 where
  repository_mismatch head_mismatch changed_path_unsafe path_refused : DetectionError
  registry_invalid product_key_invalid changeset_path_invalid table_path_invalid : DetectionError
  artifact_deleted : List String → DetectionError
  product_not_found config_missing config_invalid config_mismatch : String → DetectionError
  changeset_reference_invalid changeset_not_found table_not_found : String → DetectionError
  changeset_reference_missing : String → DetectionError
  changeset_version_not_current : String → ℕ → ℕ → DetectionError

-- a changed path by its parts
pub record ChangedPath : Type 0 where
  pub absolute : Bool
  pub parts : List String

-- a value of a YAML mapping; `number n` is any value equal to the integer
pub data Value : Type 0 where
  absent other : Value
  text : String → Value
  number : ℕ → Value

pub record Config : Type 0 where
  pub product_id : Value
  pub product_key : Value
  pub version : Value
  pub changeset_id : Value

-- `product.yaml`: no file, one that cannot be parsed, one that is no mapping, and one that is
pub data ConfigFile : Type 0 where
  missing malformed no_mapping : ConfigFile
  mapping : Config → ConfigFile

pub record Request : Type 0 where
  pub repository : String
  pub before : String
  pub current : String

-- what the ports answer
pub record Ports : Type 0 where
  pub root : String
  pub current_sha : String
  pub changed_paths : List ChangedPath
  pub merge_base : String
  -- `resolve_write(path).relative_to(root)`; nothing where it raises
  pub resolve_relative : ChangedPath → Option (List String)
  pub is_file : List String → Bool
  pub config_file : String → ConfigFile
  -- the Registry's files, or nothing where one is malformed
  pub registry : Option Disk

pub data WorkflowStatus : Type 0 where
  success noop : WorkflowStatus

pub record WorkflowResult : Type 0 where
  pub status : WorkflowStatus
  pub before : String
  pub current : String
  pub merge_base : String
  pub products : List String
  pub tables : List String

-- the three sets that the loop over the paths fills
pub record Found : Type 0 where
  pub direct : List String
  pub changesets : List String
  pub tables : List String

-- equality of two sequences of parts
unfoldable pub same_parts : List String → List String → Bool
same_parts [] [] = true
same_parts [] (_ ∷ _) = false
same_parts (_ ∷ _) [] = false
same_parts (p ∷ ps) (q ∷ qs) = str_eq p q && same_parts ps qs

-- `_safe_relative`; where the port refuses the path, its exception escapes
unfoldable pub safe_relative : Ports → ChangedPath → Result DetectionError (List String)
unfolding same_parts
safe_relative ports path = elim (ports.resolve_relative path) [
  | none ↦ err path_refused
  | some relative ↦
      if path.absolute || contains path.parts ".." || not (same_parts relative path.parts)
      then err changed_path_unsafe
      else ok relative
]

-- `name.removesuffix(".json")` of a name that ends with it
unfoldable pub json_stem : String → Option String
json_stem S.[] = none
json_stem (S.◌∷◌ c s) =
    let rest = json_stem s in
    if str_eq (S.◌∷◌ c s) ".json"
    then some S.[]
    else elim rest [ none ↦ none | some stem ↦ some (S.◌∷◌ c stem) ]

abbrev pub is_text : Value → String → Bool
is_text (text s) t = str_eq s t
is_text _ t = false

abbrev pub is_number : Value → ℕ → Bool
is_number (number n) m = n == m
is_number _ m = false

abbrev pub matches_product : Config → ProductRecord → Bool
matches_product c p =
    is_text c.product_id p.product_id
    && is_text c.product_key p.product_key
    && is_number c.version p.version

-- the changeset of a mapping, where it names one
unfoldable pub config_changeset : String → Value → Result DetectionError (Option String)
unfolding is_id
config_changeset product_key absent = ok none
config_changeset product_key (text s) =
    if str_eq s ""
    then ok none
    else (if is_id "cst_" s then ok (some s) else err (changeset_reference_invalid product_key))
config_changeset product_key _ = err (changeset_reference_invalid product_key)

-- `_product_changeset`
unfoldable pub product_changeset :
    ConfigFile → ProductRecord → Result DetectionError (Option String)
unfolding config_changeset
product_changeset missing p = err (config_missing p.product_key)
product_changeset malformed p = err (config_invalid p.product_key)
product_changeset no_mapping p = err (config_mismatch p.product_key)
product_changeset (mapping c) p =
    if matches_product c p
    then config_changeset p.product_key c.changeset_id
    else err (config_mismatch p.product_key)

unfoldable pub require_product_key : Registry → String → Result DetectionError ProductRecord
unfolding products index_from get
require_product_key r product_key =
    elim (get (index_from (λ (p : ProductRecord). p.product_key) [] (products r)) product_key) [
      | none ↦ err (product_not_found product_key)
      | some p ↦ ok p
    ]

-- `_require_table`
unfoldable pub require_table : Registry → String → Result DetectionError (Unit {0})
unfolding get
require_table r table_id = elim (get_table r table_id) [
  | none ↦ err (table_not_found table_id)
  | some _ ↦ ok tt
]

abbrev pub add_product : Found → String → Option String → Found
add_product f product_key none = record f { direct = product_key ∷ f.direct }
add_product f product_key (some id) = record f { changesets = id ∷ f.changesets }

-- from `_require_current_artifact` on
unfoldable pub visit_present :
    Ports → Registry → List String → String → Found → Result DetectionError Found
unfolding require_product_key product_changeset
visit_present ports r parts product_key f = do
  _ ← raise_if (not (ports.is_file parts)) (artifact_deleted parts)
  p ← require_product_key r product_key
  id ← product_changeset (ports.config_file p.product_key) p
  ok (add_product f product_key id)

-- a changed file under `products/<product_key>/generated`
unfoldable pub visit_artifact :
    Ports → Registry → List String → String → Found → Result DetectionError Found
unfolding is_product_key visit_present
visit_artifact ports r parts product_key f =
    if is_product_key product_key
    then visit_present ports r parts product_key f
    else err product_key_invalid

-- a changed file of `registry/changesets` and of `registry/tables`
unfoldable pub visit_changeset : Option String → Found → Result DetectionError Found
unfolding is_id
visit_changeset none f = ok f
visit_changeset (some id) f =
    if is_id "cst_" id
    then ok (record f { changesets = id ∷ f.changesets })
    else err changeset_path_invalid

unfoldable pub add_table : Registry → String → Found → Result DetectionError Found
unfolding require_table
add_table r id f = do _ ← require_table r id; ok (record f { tables = id ∷ f.tables })

unfoldable pub visit_table : Registry → Option String → Found → Result DetectionError Found
unfolding is_id add_table
visit_table r none f = ok f
visit_table r (some id) f = if is_id "tbl_" id then add_table r id f else err table_path_invalid

-- a changed file of the Registry, by its directory
unfoldable pub visit_registry :
    Registry → String → String → String → Found → Result DetectionError Found
unfolding json_stem visit_changeset visit_table
visit_registry r top directory name f =
    if str_eq top "registry" && str_eq directory "changesets"
    then visit_changeset (json_stem name) f
    else (if str_eq top "registry" && str_eq directory "tables"
        then visit_table r (json_stem name) f
        else ok f)

-- the branches of the loop on the parts
unfoldable pub visit_parts : Ports → Registry → List String → Found → Result DetectionError Found
unfolding visit_artifact visit_registry
visit_parts ports r (top ∷ key ∷ kind ∷ name ∷ rest) f =
    if str_eq top "products" && str_eq kind "generated"
    then visit_artifact ports r (top ∷ key ∷ kind ∷ name ∷ rest) key f
    else ok f
visit_parts ports r (top ∷ directory ∷ name ∷ []) f = visit_registry r top directory name f
visit_parts ports r _ f = ok f

-- the loop over the changed paths
unfoldable pub visit_paths :
    Ports → Registry → List ChangedPath → Found → Result DetectionError Found
unfolding safe_relative visit_parts
visit_paths ports r [] f = ok f
visit_paths ports r (path ∷ paths) f = do
  parts ← safe_relative ports path
  f' ← visit_parts ports r parts f
  visit_paths ports r paths f'
