-- ===== src/Publication.antt =====
-- src/ard_ossie/application/release_publication.py: `ReleasePublicationService`. The file system
-- port, the plan resolver, the bundle builder and the ZIP format are arguments; a file may change
-- while programs run.
pub mod Run
pub mod Quiet
pub mod Bundles
pub mod Guarded
pub mod Safe
pub mod Unpushed
mod Tests
use Prim.Native.String.{◌++◌}
use ard_ossie_provider.Prelude.{
  not, Option, none, some, List, [], ◌∷◌, String, ltb, if◌then◌else◌, length, Result, ok, err,
}
use ard_ossie_provider.Prelude.Text.{str_eq}
use ard_ossie_provider.Prelude.Slices.{before_colon}
use ard_ossie_provider.Prelude.Dict.{Dict}
use ard_ossie_provider.Json.{
  text, number, array, object, Items, no_items, item, Fields, no_fields, field,
}
use ard_ossie_provider.Registry.Files.{Disk}
use ard_ossie_provider.Release.{
  ReleaseBlocked, ReleasePlan, decimal, bundle_content_mismatch, bundle_hash_mismatch,
}
use ard_ossie_provider.Release.Bundle.{verify_release_bundle}
use ard_ossie_provider.Workflow.{conflict_error}
use ard_ossie_provider.Shell.{Machine, Raised, workflow, Command}
use ard_ossie_provider.Shell.GitHub.{ReleaseState}
use ard_ossie_provider.Shell.Release.{assets_named, first_differs}

pub record Request : Type 0 where
  pub repository : String
  pub product_key : String
  pub current : String
  pub table_ids : List String

pub record Ports (Bytes : Type 0) : Type 0 where
  -- the root of the file system port
  pub root : String
  -- `_verify_release_source_paths` after some programs have run
  pub sources : List (Command Bytes) → String → Result Raised (Unit {0})
  -- the plan, or the text of the exception
  pub plan_resolver : Request → Result String ReleasePlan
  -- the Registry's files, or nothing where one is malformed
  pub registry : Option Disk
  -- the relative path of the bundle, of which its file name is the last part
  pub bundle_path : ReleasePlan → Result Raised String
  -- the text of the exception of the builder, where it raises one
  pub bundle_builder : ReleasePlan → Result String (Unit {0})
  -- `resolve_read` of the bundle
  pub resolve_bundle : ReleasePlan → Result Raised (Unit {0})
  -- the bytes of the bundle's file after some programs have run
  pub bundle_file : List (Command Bytes) → Option Bytes
  -- the entries of a ZIP archive
  pub open_zip : Bytes → Option (Dict (Option Bytes))

-- `_release_conflict`
unfoldable pub release_conflict : String → String → Raised
unfolding before_colon
release_conflict message fallback =
    let code = before_colon message in
    workflow (conflict_error (if str_eq code "" then fallback else code))

-- what the builder's and the resolver's exceptions become
abbrev pub or_conflict {ℓ} : {A : Type ℓ} → String → Result String A → Result Raised A
or_conflict fallback (ok a) = ok a
or_conflict fallback (err message) = err (release_conflict message fallback)

-- the code of an exception of `verify_release_bundle`
abbrev pub bundle_code : ReleaseBlocked → String
bundle_code bundle_content_mismatch = "RELEASE_BUNDLE_CONTENT_MISMATCH"
bundle_code (bundle_hash_mismatch _) = "RELEASE_BUNDLE_HASH_MISMATCH"
bundle_code _ = "RELEASE_BUNDLE_INVALID"

abbrev pub or_bundle_code {ℓ} : {A : Type ℓ} → Result ReleaseBlocked A → Result Raised A
or_bundle_code (ok a) = ok a
or_bundle_code (err e) = err (workflow (conflict_error (bundle_code e)))

-- `verify_release_bundle` on the bytes of the file, where it can be read
unfoldable pub verified_bytes :
    {Bytes : Type 0}
    → Machine Bytes
    → (Bytes → Option (Dict (Option Bytes)))
    → Dict String
    → Option Bytes
    → Result Raised Bytes
unfolding verify_release_bundle
verified_bytes m open_zip hashes none = err (workflow (conflict_error "RELEASE_BUNDLE_INVALID"))
verified_bytes m open_zip hashes (some payload) =
    or_bundle_code (verify_release_bundle m.sha256 open_zip payload hashes)

-- `_verify_existing_release`
unfoldable pub verify_existing_release :
    Option ReleaseState → ReleasePlan → String → String → Result Raised (Unit {0})
verify_existing_release none plan asset_name artifact_sha256 = ok tt
verify_existing_release (some release) plan asset_name artifact_sha256 =
    let matching = assets_named release asset_name in
    if not (str_eq release.tag plan.product_tag)
    then err (workflow (conflict_error "RELEASE_TAG_CONFLICT"))
    else (if ltb 1 (length matching)
        then err (workflow (conflict_error "MULTIPLE_RELEASE_ASSETS"))
        else (if first_differs matching artifact_sha256
            then err (workflow (conflict_error "RELEASE_ASSET_CONFLICT"))
            else ok tt))

-- the loop over `existing_targets.items()`
unfoldable pub verify_targets : Dict (Option String) → String → Result Raised (Unit {0})
verify_targets [] current = ok tt
verify_targets ((tag, none) ∷ targets) current = verify_targets targets current
verify_targets ((tag, some target) ∷ targets) current =
    let rest = verify_targets targets current in
    if str_eq target current then rest else err (workflow (conflict_error "TAG_TARGET_CONFLICT"))

-- what the checks give to the publication
pub record Prepared (Bytes : Type 0) : Type 0 where
  pub plan : ReleasePlan
  pub asset_name : String
  pub artifact : String
  pub payload : Bytes
  pub artifact_sha256 : String
  pub targets : Dict (Option String)

-- `[plan.product_tag, *plan.table_tags]`
abbrev pub tags_of : ReleasePlan → List String
tags_of plan = plan.product_tag ∷ plan.table_tags

-- `f"{plan.product_id}-v{plan.product_version}.zip"`
unfoldable pub bundle_name : ReleasePlan → String
unfolding decimal
bundle_name plan = plan.product_id ++ ("-v" ++ (decimal plan.product_version ++ ".zip"))

abbrev texts : List String → Items
texts [] = no_items
texts (s ∷ ss) = item (text s) (texts ss)

abbrev text_fields : Dict String → Fields
text_fields [] = no_fields
text_fields ((k, s) ∷ d) = field k (text s) (text_fields d)

abbrev with_changeset : Option String → Fields
with_changeset none = no_fields
with_changeset (some id) =
    if str_eq id "" then no_fields else field "changeset_id" (text id) no_fields

-- `outputs`
unfoldable pub outputs_of : {Bytes : Type 0} → Request → Prepared Bytes → Fields
unfolding decimal
outputs_of request p = field "product_id" (text p.plan.product_id) (
    field "product_key" (text p.plan.product_key) (
      field "version" (number (decimal p.plan.product_version)) (
        field "product_tag" (text p.plan.product_tag) (
          field "table_tags" (array (texts p.plan.table_tags)) (
            field "commit" (text request.current) (
              field "artifact_sha256" (text p.artifact_sha256) (
                field "artifact_hashes" (object (text_fields p.plan.artifact_hashes))
                  (with_changeset p.plan.changeset_id))))))))
