-- ===== src/Models.antt =====
-- src/ard_ossie/models.py: the records of the Registry, and what their construction checks.
pub mod Patterns
pub mod Locator
pub mod References
mod Tests
use Prim.Native.Char.{Char, code}
use Prim.Native.String as S
use ard_ossie_provider.Prelude.{
  ℕ, zero, suc, ◌≡◌, refl, Bool, true, false, not, ◌&&◌, ◌||◌, Option, none, some, List, [], ◌∷◌,
  map, String, leb, ◌==◌, if◌then◌else◌, length, find_first, any, all, Result, ok, err, ◌>>=◌,
}
use ard_ossie_provider.Prelude.Text.{str_eq, contains}
use ard_ossie_provider.Prelude.Sets.{dedupe}
use Patterns.{is_id, is_sha256, is_product_key, is_version}
use Locator.{TableLocator}

pub data EntityStatus : Type 0 where
  active retired : EntityStatus

pub data Operation : Type 0 where
  create update retire : Operation

abbrev pub is_active : EntityStatus → Bool
is_active active = true
is_active retired = false

abbrev pub is_retired : EntityStatus → Bool
is_retired active = false
is_retired retired = true

pub status_retired : (s : EntityStatus) → is_retired s ≡ true → s ≡ retired
status_retired active h = cc
status_retired retired h = refl

pub status_active : (s : EntityStatus) → is_active s ≡ true → s ≡ active
status_active active h = refl
status_active retired h = cc

pub status_not_retired : (s : EntityStatus) → is_retired s ≡ false → s ≡ active
status_not_retired active h = refl
status_not_retired retired h = cc

abbrev pub is_create : Operation → Bool
is_create create = true
is_create _ = false

pub record MetricRecord : Type 0 where
  pub metric_id : String
  pub name : String
  pub aliases : List String
  pub status : EntityStatus

pub record RelationshipRecord : Type 0 where
  pub relationship_id : String
  pub name : String
  pub aliases : List String
  pub status : EntityStatus

pub record ProductRecord : Type 0 where
  pub product_id : String
  pub product_key : String
  pub version : ℕ
  pub status : EntityStatus
  pub display_name : Option String
  pub aliases : List String
  pub canonical_hash : Option String
  pub metrics : List MetricRecord
  pub relationships : List RelationshipRecord

pub record ColumnRecord : Type 0 where
  pub column_id : String
  pub name : String
  pub aliases : List String
  pub status : EntityStatus

pub record TableRecord : Type 0 where
  pub table_id : String
  pub locator : TableLocator
  pub version : ℕ
  pub status : EntityStatus
  pub aliases : List String
  pub columns : List ColumnRecord
  pub schema_hash : Option String
  pub canonical_hash : Option String

pub data Usage : Type 0 where
  source output reference : Usage

pub record ProductTableRef : Type 0 where
  pub link_id : String
  pub product_id : String
  pub table_id : String
  pub table_version : ℕ
  pub usage : Usage
  pub required : Bool
  pub semantic_dataset : Option String

-- a field of type `Sha256 | None`
abbrev pub is_optional_sha : Option String → Bool
is_optional_sha none = true
is_optional_sha (some s) = is_sha256 s

-- `len(xs) == len(set(xs))`
unfoldable pub all_different : List String → Bool
all_different xs = length xs == length (dedupe xs)

-- The validators take `str.casefold` of Python as a parameter.
module _ (casefold : String → String) where
  -- `_validate_named_ids`, on the identifiers and the names
  pub unique_names : List String → List String → Bool
  unfolding all_different
  unique_names identifiers names = all_different identifiers && all_different (map casefold names)

  -- what the construction of a `ProductRecord` accepts, `validate_semantic_objects` included
  pub valid_product : ProductRecord → Bool
  unfolding unique_names
  valid_product p =
      is_id "prd_" p.product_id
      && is_product_key p.product_key
      && is_version p.version
      && all is_product_key p.aliases
      && is_optional_sha p.canonical_hash
      && all (λ (m : MetricRecord). is_id "met_" m.metric_id) p.metrics
      && all (λ (r : RelationshipRecord). is_id "rel_" r.relationship_id) p.relationships
      && unique_names (map (λ (m : MetricRecord). m.metric_id) p.metrics)
          (map (λ (m : MetricRecord). m.name) p.metrics)
      && unique_names (map (λ (r : RelationshipRecord). r.relationship_id) p.relationships)
          (map (λ (r : RelationshipRecord). r.name) p.relationships)

  -- what the construction of a `TableRecord` accepts, `validate_columns` included; the locator and
  -- the stripped column names are checked where they are made
  pub valid_table : TableRecord → Bool
  unfolding unique_names
  valid_table t =
      is_id "tbl_" t.table_id
      && is_version t.version
      && all (λ (c : ColumnRecord). is_id "col_" c.column_id && not (str_eq c.name "")) t.columns
      && is_optional_sha t.schema_hash
      && is_optional_sha t.canonical_hash
      && unique_names (map (λ (c : ColumnRecord). c.column_id) t.columns)
          (map (λ (c : ColumnRecord). c.name) t.columns)

-- what the construction of a `ProductTableRef` accepts
pub valid_mapping : ProductTableRef → Bool
valid_mapping m =
    is_id "lnk_" m.link_id
    && is_id "prd_" m.product_id
    && is_id "tbl_" m.table_id
    && is_version m.table_version

pub data ReferenceError : Type 0 where
  different_product : ReferenceError
  unlisted_table differing_version : String → ReferenceError

-- the table that `next` finds, and the test of its version
check_version : ProductTableRef → Option TableRecord → Result ReferenceError (Unit {0})
check_version m none = err (unlisted_table m.table_id)
check_version m (some t) =
    if m.table_version == t.version then ok tt else err (differing_version m.table_id)

-- one round of the loop of `CandidateChange.validate_references`
check_mapping : String → List TableRecord → ProductTableRef → Result ReferenceError (Unit {0})
unfolding check_version
check_mapping product_id tables m =
    if str_eq m.product_id product_id
    then check_version m (find_first (λ (t : TableRecord). str_eq t.table_id m.table_id) tables)
    else err different_product

pub validate_references :
    String → List TableRecord → List ProductTableRef → Result ReferenceError (Unit {0})
unfolding check_mapping
validate_references product_id tables [] = ok tt
validate_references product_id tables (m ∷ ms) = do
  _ ← check_mapping product_id tables m
  validate_references product_id tables ms
