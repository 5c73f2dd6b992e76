-- ===== src/Shell/Uploads.antt =====
-- src/ard_ossie/adapters/github_cli.py: what `upsert_release` runs.
use ard_ossie_provider.Prelude.{
  ◌≡◌, ℕ, Bool, true, false, Option, none, some, List, ◌∷◌, String, Result, ok, err, if◌then◌else◌,
}
use ard_ossie_provider.Workflow.{MutationRecord, transient_error}
use ard_ossie_provider.Shell.{
  Machine, succeeded, workflow, Raised, Command, stage, unstage, patch_release, post_release,
  upload_asset,
}
use ard_ossie_provider.Shell.GitHub.{ReleaseState}
use ard_ossie_provider.Shell.Release.{
  upload, patch_if, update_release, create_release, upsert_found, upsert_staged, cleaned,
  upsert_cleaned, upsert_release,
}
use ard_ossie_provider.Shell.Reads.{is_read, Emits-get_release}
use ard_ossie_provider.Shell.Emits.{Emits, Extends, ran, emits_rules}

module _ {Bytes : Type 0} (m : Machine Bytes) {Q : Command Bytes → Type 0}
    (reads : (c : Command Bytes) → is_read c ≡ true → Q c) (tag title name : String)
    (payload : Bytes) (staged : Q (stage name payload)) (removed : Q unstage)
    (uploads : Q (upload_asset tag name payload)) (posts : Q (post_release tag title))
    (patches : (id : ℕ) → Q (patch_release id title)) where
  Emits-upload : (sha256 : String) (id : ℕ) → Emits Q (upload m tag name payload sha256 id)
  unfolding upload
  Emits-upload sha256 id = search (emits_rules, uploads)

  Emits-patch_if : (b : Bool) (id : ℕ) → Emits Q (patch_if m b id title)
  unfolding patch_if
  Emits-patch_if false id = search emits_rules
  Emits-patch_if true id = search (emits_rules, patches)

  Emits-found :
      (sha256 : String) (o : Option ReleaseState)
      → Emits Q (upsert_found m tag title name payload sha256 o)
  unfolding upsert_found create_release update_release
  Emits-found sha256 none = search (emits_rules, posts, Emits-upload)
  Emits-found sha256 (some r) = search (emits_rules, Emits-upload, Emits-patch_if) depth 12

  Emits-staged : (sha256 : String) → Emits Q (upsert_staged m tag title name payload sha256)
  unfolding upsert_staged
  Emits-staged sha256 = search (emits_rules, Emits-get_release, reads, Emits-found)

  Extends-cleaned :
      (log : List (Command Bytes)) (r : Result Raised MutationRecord) (log' : List (Command Bytes))
      → Extends Q log log'
      → Extends Q log (cleaned m (r, log')).1
  unfolding cleaned
  Extends-cleaned log (err e) log' h = ran unstage removed h
  Extends-cleaned log (ok mutation) log' h = split (succeeded (m.reply (unstage ∷ log')))
    where
      outcome : Bool → Result Raised MutationRecord × List (Command Bytes)
      outcome b =
          if b
          then (ok mutation, unstage ∷ log')
          else (err (workflow (transient_error "RELEASE_ASSET_CLEANUP_FAILED")), unstage ∷ log')

      split : (b : Bool) → Extends Q log (outcome b).1
      split true = ran unstage removed h
      split false = ran unstage removed h

  Emits-cleaned : (sha256 : String) → Emits Q (upsert_cleaned m tag title name payload sha256)
  unfolding upsert_cleaned
  Emits-cleaned sha256 = record {
    at = λ log.
        let (r, log') = upsert_staged m tag title name payload sha256 log in
        Extends-cleaned log r log' ((Emits-staged sha256).at log);
  }

  -- `upsert_release` stages and uploads the bytes that it is given under the name and the tag that
  -- it is given, makes or renames a release to the title that it is given, and else only looks up
  pub Emits-upsert_release :
      (sha256 : String) → Emits Q (upsert_release m tag title name payload sha256)
  unfolding upsert_release
  Emits-upsert_release sha256 = search (emits_rules, staged, Emits-cleaned) depth 16
