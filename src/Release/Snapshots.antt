-- ===== src/Release/Snapshots.antt =====
-- src/ard_ossie/release.py: the files that a release snapshots, and their hashes.
use Prim.Native.String.{◌++◌}
use ard_ossie_provider.Prelude.{
  Bool, false, not, ◌&&◌, ◌||◌, Option, none, some, List, [], ◌∷◌, ◌++◌ as append, map, String,
  if◌then◌else◌, keep, all, Result, ok, err, ◌>>=◌,
}
use ard_ossie_provider.Prelude.Text.{str_eq, contains}
use ard_ossie_provider.Prelude.Sorting.{sort_by}
use ard_ossie_provider.Prelude.Sets.{sorted_set}
use ard_ossie_provider.Prelude.Dict.{Dict, get, put, keys, has}
use ard_ossie_provider.Impact.{same_set}
use ard_ossie_provider.Release.{
  ReleaseBlocked, artifact_missing, hash_set_mismatch, artifact_hash_mismatch, key_error,
  QualityReport, generated_assets, required_quality_assets, optional_quality_assets,
  diagnostic_report_names, without, is_empty,
}

-- what stands at a path: a regular file, or anything else (a directory, a dangling link)
pub data Node (Bytes : Type 0) : Type 0 where
  file : Bytes → Node Bytes
  other : Node Bytes

-- `f"{directory}/{name}"`
abbrev pub entry_name : String → String → String
entry_name directory name = directory ++ ("/" ++ name)

abbrev pub in_directory : String → List String → List String
in_directory directory names = map (entry_name directory) names

abbrev pub required_entries : List String
required_entries =
    append (in_directory "generated" generated_assets)
      (in_directory "quality" required_quality_assets)

abbrev pub diagnostic_entries : List String
diagnostic_entries = in_directory "quality" diagnostic_report_names

-- the first missing entry, where one is missing
unfoldable pub require_entries : List String → List String → Result ReleaseBlocked (Unit {0})
require_entries present [] = ok tt
require_entries present (name ∷ names) =
    if contains present name then require_entries present names else err (artifact_missing name)

abbrev first_or_empty : List String → String
first_or_empty [] = ""
first_or_empty (x ∷ _) = x

-- the diagnostics are present together or not at all
unfoldable pub require_diagnostics : List String → Result ReleaseBlocked (Unit {0})
unfolding sorted_set
require_diagnostics present =
    let here = keep (contains diagnostic_entries) present in
    if is_empty here || all (contains here) diagnostic_entries
    then ok tt
    else err (artifact_missing (first_or_empty (sorted_set (without diagnostic_entries here))))

unfoldable pub require_release_snapshot_entries : List String → Result ReleaseBlocked (Unit {0})
unfolding require_entries require_diagnostics
require_release_snapshot_entries present = do
  _ ← require_entries present required_entries
  require_diagnostics present

module _ {Bytes : Type 0} where
  -- `_quality_asset_names`
  abbrev pub quality_asset_names : Dict (Node Bytes) → List String
  quality_asset_names root =
      append required_quality_assets
        (keep (λ name. has root (entry_name "quality" name)) optional_quality_assets)

  -- `_release_bundle_entries`
  abbrev pub release_bundle_entries : Dict (Node Bytes) → List String
  release_bundle_entries root =
      append (in_directory "generated" generated_assets)
        (in_directory "quality" (quality_asset_names root))

  abbrev pub consed : String → Option (Node Bytes) → Dict Bytes → Dict Bytes
  consed name (some (file bytes)) rest = (name, bytes) ∷ rest
  consed name _ rest = rest

  -- the regular files among the entries, with what they hold
  unfoldable pub read_present : Dict (Node Bytes) → List String → Dict Bytes
  unfolding get
  read_present root [] = []
  read_present root (name ∷ names) = consed name (get root name) (read_present root names)

  unfoldable pub snapshot_release_entries :
      Dict (Node Bytes) → Bool → Result ReleaseBlocked (Dict Bytes)
  unfolding read_present sort_by require_release_snapshot_entries
  snapshot_release_entries root require_complete =
      let snapshots =
        sort_by (λ (e : String × Bytes). e.0) (read_present root (release_bundle_entries root)) in
      (do
        _ ← (if require_complete then require_release_snapshot_entries (keys snapshots) else ok tt)
        ok snapshots)

  module _ (sha256 : Bytes → String) where
    -- `expected[name] != digest`
    abbrev pub check_digest : String → Option String → String → Result ReleaseBlocked (Unit {0})
    check_digest name none digest = err (key_error name)
    check_digest name (some h) digest =
        if str_eq h digest then ok tt else err (artifact_hash_mismatch name)

    -- one name of one directory; `exempt` names have no expected hash
    unfoldable pub hash_name :
        Dict Bytes → Dict String → (String → Bool) → String → String → Result ReleaseBlocked String
    unfolding get
    hash_name snapshots expected exempt directory name =
        elim (get snapshots (entry_name directory name)) [
          | none ↦ err (key_error name)
          | some bytes ↦
              let digest = sha256 bytes in
              (do
                _ ← (if exempt name then ok tt else check_digest name (get expected name) digest)
                ok digest)
        ]

    -- the inner loop over the names of one directory
    unfoldable pub hash_names :
        Dict Bytes
        → Dict String
        → (String → Bool)
        → String
        → List String
        → Dict String
        → Result ReleaseBlocked (Dict String)
    unfolding hash_name put
    hash_names snapshots expected exempt directory [] hashes = ok hashes
    hash_names snapshots expected exempt directory (name ∷ names) hashes = do
      digest ← hash_name snapshots expected exempt directory name
      hash_names snapshots expected exempt directory names
          (put hashes (entry_name directory name) digest)

    abbrev pub is_quality_report : String → Bool
    is_quality_report name = str_eq name "quality-report.json"

    abbrev pub quality_names : Dict Bytes → List String
    quality_names snapshots =
        keep (λ name. has snapshots (entry_name "quality" name))
          (append required_quality_assets optional_quality_assets)

    unfoldable pub hash_sets_match : Dict Bytes → QualityReport → Bool
    unfolding same_set
    hash_sets_match snapshots q =
        same_set (keys q.artifact_hashes) generated_assets
        && same_set (keys q.quality_artifact_hashes)
            (keep (λ name. not (is_quality_report name)) (quality_names snapshots))

    -- `_verify_release_snapshots`
    unfoldable pub verify_release_snapshots :
        Dict Bytes → QualityReport → Result ReleaseBlocked (Dict String)
    unfolding hash_names hash_sets_match
    verify_release_snapshots snapshots q =
        if hash_sets_match snapshots q
        then (do
          hashes ←
              (hash_names snapshots q.artifact_hashes (λ _. false) "generated" generated_assets [])
          hash_names snapshots q.quality_artifact_hashes is_quality_report "quality"
              (quality_names snapshots) hashes)
        else err hash_set_mismatch
