-- ===== src/Publication/Bundles.antt =====
-- src/ard_ossie/application/release_publication.py: the bytes that the check of the bundle gives.
use ard_ossie_provider.Prelude.{
  ◌≡◌, subst, Bool, true, false, ◌&&◌, Option, none, some, String, if◌then◌else◌, Result, ok, err,
  ◌>>=◌, ok_injective,
}
use ard_ossie_provider.Prelude.Dict.{Dict, keys}
use ard_ossie_provider.Models.{all_different}
use ard_ossie_provider.Impact.{same_set}
use ard_ossie_provider.Release.{ReleaseBlocked, ReleasePlan, bundle_content_mismatch}
use ard_ossie_provider.Release.Bundle.{verify_release_bundle, verify_archive, check_entries}
use ard_ossie_provider.Shell.{Machine}
use ard_ossie_provider.Publication.{or_bundle_code, or_conflict, verified_bytes}

module _ {Bytes : Type 0} where
  same_payload :
      (c : Bool) (r : Result ReleaseBlocked (Unit {0})) (payload b : Bytes)
      → (if c then (r >>= λ _. ok payload) else err bundle_content_mismatch) ≡ ok b
      → payload ≡ b
  same_payload true (ok _) payload b h = ok_injective {E = ReleaseBlocked} payload b h
  same_payload true (err e) payload b h = cc
  same_payload false r payload b h = cc

  archive-same :
      (sha256 : Bytes → String) (payload b : Bytes) (hashes : Dict String)
      (o : Option (Dict (Option Bytes)))
      → verify_archive sha256 payload hashes o ≡ ok b
      → payload ≡ b
  unfolding verify_archive
  archive-same sha256 payload b hashes none h = cc
  archive-same sha256 payload b hashes (some archive) h =
      same_payload (all_different (keys archive) && same_set (keys archive) (keys hashes))
        (check_entries sha256 archive hashes) payload b h

  -- the check of a bundle gives the bytes that it was given
  pub verify_release_bundle-same :
      (sha256 : Bytes → String) (open_zip : Bytes → Option (Dict (Option Bytes)))
      (payload b : Bytes) (hashes : Dict String)
      → verify_release_bundle sha256 open_zip payload hashes ≡ ok b
      → payload ≡ b
  unfolding verify_release_bundle
  verify_release_bundle-same sha256 open_zip payload b hashes h =
      archive-same sha256 payload b hashes (open_zip payload) h

  converted : (r : Result ReleaseBlocked Bytes) (b : Bytes) → or_bundle_code r ≡ ok b → r ≡ ok b
  converted (ok a) b h = cc
  converted (err e) b h = cc

  pub verified_bytes-verify :
      (m : Machine Bytes) (open_zip : Bytes → Option (Dict (Option Bytes))) (hashes : Dict String)
      (o : Option Bytes) (b : Bytes)
      → verified_bytes m open_zip hashes o ≡ ok b
      → verify_release_bundle m.sha256 open_zip b hashes ≡ ok b
  unfolding verified_bytes
  verified_bytes-verify m open_zip hashes none b h = cc
  verified_bytes-verify m open_zip hashes (some payload) b h =
      let e = converted (verify_release_bundle m.sha256 open_zip payload hashes) b h in
      subst (λ p. verify_release_bundle m.sha256 open_zip p hashes ≡ ok b)
        (verify_release_bundle-same m.sha256 open_zip payload b hashes e) e

pub or_conflict-ok :
    (r : Result String ReleasePlan) (plan : ReleasePlan)
    → or_conflict "RELEASE_PLAN_INVALID" r ≡ ok plan
    → r ≡ ok plan
or_conflict-ok (ok p) plan h = cc
or_conflict-ok (err e) plan h = cc
