-- ===== src/Shell/Release.antt =====
-- src/ard_ossie/adapters/github_cli.py: `get_release` and `upsert_release`, with an asset that is
-- given by its bytes.
use Prim.Native.String.{◌++◌}
use ard_ossie_provider.Prelude.{
  and_then, ℕ, Bool, true, false, not, ◌||◌, Option, none, some, List, [], ◌∷◌, String, ltb,
  if◌then◌else◌, keep, length, Result, ok, err,
}
use ard_ossie_provider.Prelude.Text.{str_eq, opt_str_eq}
use ard_ossie_provider.Models.Patterns.{is_sha256}
use ard_ossie_provider.Json.{Json, object}
use ard_ossie_provider.Workflow.{MutationRecord, conflict_error, transient_error}
use ard_ossie_provider.Release.{decimal}
use ard_ossie_provider.Shell.{
  Shell, Machine, CommandResult, Raised, workflow, other, Command, stage, unstage,
  get_release_by_tag, patch_release, post_release, upload_asset, ◌>>=◌, give, lift, stop_if, sh,
  succeeded,
}
use ard_ossie_provider.Shell.Text.{bad_name}
use ard_ossie_provider.Shell.GitHub.{
  lookup, required_int, ReleaseAssetState, ReleaseState, decode, is_not_found, read_release,
}

-- `[asset for asset in release.assets if asset.name == name]`
abbrev pub assets_named : ReleaseState → String → List ReleaseAssetState
assets_named release name = keep (λ (a : ReleaseAssetState). str_eq a.name name) release.assets

-- the first asset has another digest
abbrev pub first_differs : List ReleaseAssetState → String → Bool
first_differs [] sha256 = false
first_differs (a ∷ _) sha256 = not (opt_str_eq a.digest (some sha256))

abbrev pub is_empty {ℓ} : {A : Type ℓ} → List A → Bool
is_empty [] = true
is_empty (_ ∷ _) = false

abbrev pub release_mutation : String → String → String → MutationRecord
release_mutation tag action result_id = record {
  resource = "release";
  target = tag;
  action = action;
  result_id = some result_id;
}

-- `metadata_changed`
abbrev pub metadata_changed : ReleaseState → String → Bool
metadata_changed r title = not (str_eq r.title title) || r.draft || r.prerelease

module _ {Bytes : Type 0} (m : Machine Bytes) where
  unfoldable pub read_lookup : CommandResult → Result Raised (Option ReleaseState)
  unfolding is_not_found decode read_release
  read_lookup result =
      if is_not_found m result
      then ok none
      else and_then (decode m result "RELEASE_LOOKUP_FAILED")
          λ answer. and_then (read_release m answer) λ release. ok (some release)

  -- `get_release`
  unfoldable pub get_release : String → Shell Bytes (Option ReleaseState)
  unfolding bad_name read_lookup
  get_release tag = do
    _ ← stop_if (bad_name tag) (other "ValueError")
    result ← sh m (get_release_by_tag tag)
    lift (read_lookup result)

  -- the call of `gh release upload`
  unfoldable pub upload : String → String → Bytes → String → ℕ → Shell Bytes MutationRecord
  unfolding decimal
  upload tag name payload sha256 release_id = do
    result ← sh m (upload_asset tag name payload)
    _ ← stop_if (not (succeeded result)) (workflow (transient_error "RELEASE_UPLOAD_FAILED"))
    give (release_mutation tag "upload" (decimal release_id ++ (":" ++ sha256)))

  unfoldable pub patch_if : Bool → ℕ → String → Shell Bytes (Unit {0})
  unfolding decode
  patch_if false id title = give tt
  patch_if true id title = do
    result ← sh m (patch_release id title)
    _ ← lift (decode m result "GITHUB_API_FAILED")
    give tt

  -- `created["id"]`; an array has no text index
  unfoldable pub created_id : Json → Result Raised ℕ
  unfolding required_int lookup
  created_id (object fs) = required_int m.int_of (lookup fs "id")
  created_id _ = err (other "TypeError")

  -- the release is there
  unfoldable pub update_release :
      String → String → String → Bytes → String → ReleaseState → Shell Bytes MutationRecord
  unfolding patch_if upload decimal
  update_release tag title name payload sha256 r =
      let matching = assets_named r name in
      do
        _ ← stop_if (ltb 1 (length matching)) (workflow (conflict_error "MULTIPLE_RELEASE_ASSETS"))
        _ ←
            stop_if (first_differs matching sha256)
              (workflow (conflict_error "RELEASE_ASSET_CONFLICT"))
        _ ← patch_if (metadata_changed r title) r.id title
        if is_empty matching
            then upload tag name payload sha256 r.id
            else give (
                release_mutation tag (if metadata_changed r title then "update" else "noop")
                  (decimal r.id))

  -- the release is not there
  unfoldable pub create_release :
      String → String → String → Bytes → String → Shell Bytes MutationRecord
  unfolding decode created_id upload
  create_release tag title name payload sha256 = do
    result ← sh m (post_release tag title)
    answer ← lift (decode m result "GITHUB_API_FAILED")
    id ← lift (created_id answer)
    upload tag name payload sha256 id

  unfoldable pub upsert_found :
      String → String → String → Bytes → String → Option ReleaseState → Shell Bytes MutationRecord
  unfolding create_release update_release
  upsert_found tag title name payload sha256 none = create_release tag title name payload sha256
  upsert_found tag title name payload sha256 (some r) =
      update_release tag title name payload sha256 r

  -- the body of the `try`
  unfoldable pub upsert_staged :
      String → String → String → Bytes → String → Shell Bytes MutationRecord
  unfolding get_release upsert_found
  upsert_staged tag title name payload sha256 = do
    existing ← get_release tag
    upsert_found tag title name payload sha256 existing

  -- the `finally`: the stage is removed, and a failure to do so is raised where nothing else is
  unfoldable pub cleaned :
      Result Raised MutationRecord × List (Command Bytes)
      → Result Raised MutationRecord × List (Command Bytes)
  cleaned (err e, log) = (err e, unstage ∷ log)
  cleaned (ok mutation, log) =
      if succeeded (m.reply (unstage ∷ log))
      then (ok mutation, unstage ∷ log)
      else (err (workflow (transient_error "RELEASE_ASSET_CLEANUP_FAILED")), unstage ∷ log)

  unfoldable pub upsert_cleaned :
      String → String → String → Bytes → String → Shell Bytes MutationRecord
  unfolding cleaned upsert_staged
  upsert_cleaned tag title name payload sha256 log =
      cleaned (upsert_staged tag title name payload sha256 log)

  -- `upsert_release`
  unfoldable pub upsert_release :
      String → String → String → Bytes → String → Shell Bytes MutationRecord
  unfolding bad_name is_sha256 upsert_cleaned
  upsert_release tag title name payload sha256 = do
    _ ← stop_if (bad_name tag) (other "ValueError")
    _ ← stop_if (not (is_sha256 sha256)) (other "ValueError")
    _ ←
        stop_if (not (str_eq (m.sha256 payload) sha256))
          (workflow (conflict_error "RELEASE_BUNDLE_CHANGED"))
    result ← sh m (stage name payload)
    _ ← stop_if (not (succeeded result)) (workflow (transient_error "RELEASE_ASSET_STAGING_FAILED"))
    upsert_cleaned tag title name payload sha256
