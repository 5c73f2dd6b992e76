-- ===== src/Impact.antt =====
-- src/ard_ossie/impact.py: which products a table change concerns, and the readiness of a changeset.
pub mod Readiness
pub mod Analysis
mod Tests
use ard_ossie_provider.Prelude.{
  ℕ, ◌≡◌, Bool, true, false, not, ◌&&◌, ◌||◌, Option, none, some, List, [], ◌∷◌, map, String, ltb,
  ◌==◌, if◌then◌else◌, length, any, all, keep, Result, ok, err,
}
use ard_ossie_provider.Prelude.Text.{str_eq, contains}
use ard_ossie_provider.Prelude.Sets.{sorted_set}
use ard_ossie_provider.Prelude.Dict.{Dict, get, put, keys}
use ard_ossie_provider.Models.{ProductTableRef}
use ard_ossie_provider.Models.Patterns.{is_id, is_version, is_commit_sha}

pub data ChangeSetStatus : Type 0 where
  blocked ready : ChangeSetStatus

pub record ImpactReport : Type 0 where
  pub table_id : String
  pub required_product_ids : List String
  pub shared : Bool

pub record ProductReadiness : Type 0 where
  pub version : ℕ
  pub pr_number : ℕ
  pub head_sha : String

pub record ChangeSetRecord : Type 0 where
  pub changeset_id : String
  pub table_ids : List String
  pub required_product_ids : List String
  pub ready_products : Dict ProductReadiness

-- `set(xs) == set(ys)`
unfoldable pub same_set : List String → List String → Bool
same_set xs ys = all (contains ys) xs && all (contains xs) ys

-- `ChangeSetRecord.status`
unfoldable pub status : ChangeSetRecord → ChangeSetStatus
unfolding same_set
status c = if same_set (keys c.ready_products) c.required_product_ids then ready else blocked

pub data ReadyError : Type 0 where
  not_required : String → ReadyError
  invalid_readiness : ReadyError

-- `mark_ready`, with the validation that constructing a `ProductReadiness` makes; a number below 0
-- is refused as 0 is, and is not written
unfoldable pub mark_ready :
    ChangeSetRecord → String → ℕ → ℕ → String → Result ReadyError ChangeSetRecord
unfolding is_version is_commit_sha put
mark_ready c product_id version pr_number head_sha =
    if contains c.required_product_ids product_id
    then if is_version version && ltb 0 pr_number && is_commit_sha head_sha
      then ok (record c {
        ready_products =
            put c.ready_products product_id
              (record { version = version; pr_number = pr_number; head_sha = head_sha });
      })
      else err invalid_readiness
    else err (not_required product_id)

-- `[item.product_id for item in mappings if item.table_id == table_id]`
pub products_of : String → List ProductTableRef → List String
products_of table_id mappings =
    map (λ (m : ProductTableRef). m.product_id)
      (keep (λ (m : ProductTableRef). str_eq m.table_id table_id) mappings)

-- a field that does not fit the pattern of its type
pub data PatternError : Type 0 where
  bad_field : PatternError

unfoldable pub analyze_table_change :
    String → List ProductTableRef → Result PatternError ImpactReport
unfolding products_of is_id sorted_set
analyze_table_change table_id mappings =
    let products = sorted_set (products_of table_id mappings) in
    if is_id "tbl_" table_id && all (is_id "prd_") products
    then ok (record {
      table_id = table_id;
      required_product_ids = products;
      shared = ltb 1 (length products);
    })
    else err bad_field

-- `changeset_id or new_id("cst")`; the new identifier is an argument
abbrev pub or_fresh : Option String → String → String
or_fresh none fresh = fresh
or_fresh (some i) fresh = if str_eq i "" then fresh else i

unfoldable pub build_changeset :
    String → List String → List String → Option String → Result PatternError ChangeSetRecord
build_changeset fresh table_ids required_product_ids changeset_id =
    let id = or_fresh changeset_id fresh in
    let tables = sorted_set table_ids in
    let products = sorted_set required_product_ids in
    if is_id "cst_" id && all (is_id "tbl_") tables && all (is_id "prd_") products
    then ok (record {
      changeset_id = id;
      table_ids = tables;
      required_product_ids = products;
      ready_products = [];
    })
    else err bad_field
