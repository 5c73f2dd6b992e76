-- ===== src/Release/Bundled.antt =====
-- src/ard_ossie/release.py: what `verify_release_bundle` accepts, and that it accepts what
-- `build_release_bundle` writes.
use ard_ossie_provider.Prelude.{
  ◌≡◌, ◌↔◌, refl, sym, ap, Option, none, some, [], ◌∷◌, String, arith, All, ok, bind_ok, eq_iff,
  subst, Option-cases, inl, inr, Result-cases,
}
use ard_ossie_provider.Prelude.Text.{contains}
use ard_ossie_provider.Prelude.Sets.{IsNodup}
use ard_ossie_provider.Prelude.Dict.{Dict, get, keys}
use ard_ossie_provider.Models.References.{all_different_iff}
use ard_ossie_provider.Impact.Readiness.{same_set_iff}
use ard_ossie_provider.Release.Bundle.{
  check_entry, check_entries, verify_archive, verify_release_bundle,
}

-- the entry of the archive at the name can be read and has the hash
abbrev pub HasHash :
    {Bytes : Type 0} → (Bytes → String) → Dict (Option Bytes) → String × String → Type 0
HasHash sha256 archive e =
    (bytes : _) × ((get archive e.0 ≡ some (some bytes)) × (sha256 bytes ≡ e.1))

module _ {Bytes : Type 0} (sha256 : Bytes → String) where
  check_entry_iff :
      (name digest : String) (archive : Dict (Option Bytes))
      → (check_entry sha256 name digest (get archive name) ≡ ok tt)
        ↔ HasHash sha256 archive (name, digest)
  unfolding check_entry
  check_entry_iff name digest archive = elim (Option-cases (get archive name)) [
    | inl e ↦ (λ h. absurd (ground (arith, e, h)), λ h. absurd (ground (arith, e, h.1.0)))
    | inr (none, e) ↦ (λ h. absurd (ground (arith, e, h)), λ h. absurd (ground (arith, e, h.1.0)))
    | inr (some bytes, e) ↦ (
      λ h. (bytes, (e, ground (arith, e, h, eq_iff (sha256 bytes) digest))),
      λ h. ground (arith, e, h.1.0, h.1.1, eq_iff (sha256 bytes) digest, ap sha256),
    )
  ]

  check_entries_iff :
      (archive : Dict (Option Bytes)) (expected : Dict String)
      → (check_entries sha256 archive expected ≡ ok tt) ↔ All (HasHash sha256 archive) expected
  unfolding check_entries
  check_entries_iff archive [] = (λ _. tt, λ _. refl)
  check_entries_iff archive ((name, digest) ∷ expected) = (
    λ h.
        (let step =
            bind_ok (check_entry sha256 name digest (get archive name))
              (λ _. check_entries sha256 archive expected) tt h in
          (
            (check_entry_iff name digest archive).0 step.1.0,
            (check_entries_iff archive expected).0 step.1.1,
          )),
    λ h.
        rw ((check_entry_iff name digest archive).1 h.0)
          ((check_entries_iff archive expected).1 h.1),
  )

  -- what an archive is, that a bundle with the expected hashes holds
  pub record IsBundleOf (expected : Dict String) (archive : Dict (Option Bytes)) : Type 0 where
    pub once : IsNodup (keys archive)
    pub same_names : (k : String) → contains (keys archive) k ≡ contains (keys expected) k
    pub hashed : All (HasHash sha256 archive) expected

  verify_archive_iff :
      (payload : Bytes) (expected : Dict String) (archive : Dict (Option Bytes))
      → (verify_archive sha256 payload expected (some archive) ≡ ok payload)
        ↔ IsBundleOf expected archive
  unfolding verify_archive
  verify_archive_iff payload expected archive = (
    λ h. record {
      once = (all_different_iff (keys archive)).0 (ground (arith, h));
      same_names = (same_set_iff (keys archive) (keys expected)).0 (ground (arith, h));
      hashed =
          (check_entries_iff archive expected).0
            (ground (arith, h, Result-cases (check_entries sha256 archive expected)));
    },
    λ b.
        rw
          (
            (all_different_iff (keys archive)).1 b.once,
            (same_set_iff (keys archive) (keys expected)).1 b.same_names,
            (check_entries_iff archive expected).1 b.hashed,
          )
          refl,
  )

  -- A bundle is accepted exactly if it is an archive in which no name stands twice, whose names are
  -- those of the expected hashes, and in which every expected entry can be read and has its hash.
  pub verify_release_bundle_iff :
      (open_zip : Bytes → Option (Dict (Option Bytes))) (payload : Bytes) (expected : Dict String)
      → (verify_release_bundle sha256 open_zip payload expected ≡ ok payload)
        ↔ ((archive : _) × ((open_zip payload ≡ some archive) × IsBundleOf expected archive))
  unfolding verify_release_bundle
  verify_release_bundle_iff open_zip payload expected = elim (Option-cases (open_zip payload)) [
    | inl e ↦ (λ h. absurd (ground (arith, e, h)), λ h. absurd (ground (arith, e, h.1.0)))
    | inr (archive, e) ↦ (
      λ h. (
        archive,
        (
          e,
          (verify_archive_iff payload expected archive).0
              (subst (λ o. verify_archive sha256 payload expected o ≡ ok payload) e h),
        ),
      ),
      λ h.
          subst (λ o. verify_archive sha256 payload expected o ≡ ok payload) (sym h.1.0)
            ((verify_archive_iff payload expected h.0).1 h.1.1),
    )
  ]
