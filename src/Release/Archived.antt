-- ===== src/Release/Archived.antt =====
-- src/ard_ossie/release.py: the archive of the snapshots has the names and the hashes of the plan.
use ard_ossie_provider.Prelude.{
  ◌≡◌, refl, sym, ◌∙◌, ap, Bool, true, false, ◌&&◌, ◌||◌, Option, none, some, List, [], ◌∷◌, ◌++◌,
  String, arith, keep, All, ok, bind_ok, ok_injective, eq_iff, subst, inl, inr, if◌then◌else◌,
  Bool-cases,
}
use ard_ossie_provider.Prelude.Text.{contains-append, contains}
use ard_ossie_provider.Prelude.Sorting.{sort_by}
use ard_ossie_provider.Prelude.Sets.{IsNodup}
use ard_ossie_provider.Prelude.Dict.{Dict, get, keys, has, has-eq-contains}
use ard_ossie_provider.Prelude.Reindex.{HasNodupKeys, get-sort_by, sort_by-HasNodupKeys}
use ard_ossie_provider.Release.{
  QualityReport, generated_assets, required_quality_assets, optional_quality_assets,
}
use ard_ossie_provider.Release.Snapshots.{
  Node, in_directory, entry_name, read_present, snapshot_release_entries, release_bundle_entries,
  verify_release_snapshots, quality_names, hash_names, is_quality_report, required_entries,
  require_release_snapshot_entries, hash_sets_match,
}
use ard_ossie_provider.Release.Hashed.{
  holds_file, keys-read_present, read_present-HasNodupKeys, read_present-keep, IsHashOf,
  hash_names-All, keys-hash_names,
}
use ard_ossie_provider.Release.Bundled.{HasHash, IsBundleOf}

agree :
    (hashed quality generated here present : Bool)
    → hashed ≡ ((quality && here) || generated)
    → here ≡ ((generated || quality) && present)
    → (hashed ≡ true → here ≡ true)
    → hashed ≡ here
agree hashed quality generated here present a b c = ground arith

abbrev all_quality : List String
all_quality = required_quality_assets ++ optional_quality_assets

-- every name that an entry of a release may have
abbrev all_entries : List String
all_entries = in_directory "generated" generated_assets ++ in_directory "quality" all_quality

all_entries-IsNodup : IsNodup all_entries
all_entries-IsNodup = ground arith

module _ {Bytes : Type 0} where
  read_present-append :
      (root : Dict (Node Bytes)) (zs xs ys : List String)
      → read_present root xs ≡ read_present root ys
      → read_present root (zs ++ xs) ≡ read_present root (zs ++ ys)
  unfolding read_present
  read_present-append root [] xs ys h = h
  read_present-append root (z ∷ zs) xs ys h = ground (arith, read_present-append root zs xs ys h)

  read_present-all :
      (root : Dict (Node Bytes))
      → read_present root (release_bundle_entries root) ≡ read_present root all_entries
  read_present-all root =
      read_present-append root required_entries
        (in_directory "quality"
          (keep (λ n. has root (entry_name "quality" n)) optional_quality_assets))
        (in_directory "quality" optional_quality_assets)
        (read_present-keep root optional_quality_assets)

  -- what `_snapshot_release_entries` gives
  abbrev pub snapped : Dict (Node Bytes) → Dict Bytes
  snapped root =
      sort_by (λ (e : String × Bytes). e.0) (read_present root (release_bundle_entries root))

  read-HasNodupKeys :
      (root : Dict (Node Bytes)) → HasNodupKeys (read_present root (release_bundle_entries root))
  read-HasNodupKeys root =
      subst HasNodupKeys (sym (read_present-all root))
        (read_present-HasNodupKeys root all_entries all_entries-IsNodup)

  pub snapped-HasNodupKeys : (root : Dict (Node Bytes)) → HasNodupKeys (snapped root)
  snapped-HasNodupKeys root =
      sort_by-HasNodupKeys (λ (e : String × Bytes). e.0)
        (read_present root (release_bundle_entries root)) (read-HasNodupKeys root)

  has-snapped :
      (root : Dict (Node Bytes)) (k : String)
      → has (snapped root) k ≡ (contains all_entries k && holds_file (get root k))
  has-snapped root k =
      ap (λ o. elim o [ none ↦ false | some _ ↦ true ])
        (get-sort_by (λ (e : String × Bytes). e.0) (read_present root (release_bundle_entries root))
          k (read-HasNodupKeys root))
      ∙ (has-eq-contains (read_present root (release_bundle_entries root)) k
          ∙ (ap (λ d. contains (keys d) k) (read_present-all root)
              ∙ keys-read_present root all_entries k))

  -- the archive that the documentation of the ZIP format promises for the entries
  abbrev pub readable : Dict Bytes → Dict (Option Bytes)
  readable [] = []
  readable ((k, b) ∷ d) = (k, some b) ∷ readable d

  keys-readable : (d : Dict Bytes) → keys (readable d) ≡ keys d
  keys-readable [] = refl
  keys-readable ((k, b) ∷ d) = ap (λ ks. k ∷ ks) (keys-readable d)

  get-readable :
      (d : Dict Bytes) (k : String) (b : Bytes)
      → get d k ≡ some b
      → get (readable d) k ≡ some (some b)
  unfolding get
  get-readable [] k b h = cc
  get-readable ((j, c) ∷ d) k b h = ground (arith, get-readable d k b)

  HasNodupKeys-IsNodup : (d : Dict Bytes) → HasNodupKeys d → IsNodup (keys d)
  HasNodupKeys-IsNodup [] h = tt
  HasNodupKeys-IsNodup ((k, b) ∷ d) h =
      (ground (arith, has-eq-contains d k, h.0), HasNodupKeys-IsNodup d h.1)

  contains-kept :
      (d : Dict Bytes) (names : List String) (k : String)
      → contains (in_directory "quality" (keep (λ n. has d (entry_name "quality" n)) names)) k
        ≡ (contains (in_directory "quality" names) k && has d k)
  contains-kept d [] k = refl
  contains-kept d (n ∷ names) k =
      ground (arith, contains-kept d names k, eq_iff (entry_name "quality" n) k, ap (has d))

  IsHashOf-has :
      (sha256 : Bytes → String) (d : Dict Bytes) (hashes : Dict String) (k : String)
      → All (IsHashOf sha256 d) hashes
      → contains (keys hashes) k ≡ true
      → has d k ≡ true
  IsHashOf-has sha256 d [] k h c = ground arith
  IsHashOf-has sha256 d ((j, v) ∷ hashes) k h c =
      ground (arith, IsHashOf-has sha256 d hashes k h.1, h.0.1.0, eq_iff j k, ap (has d))

module _ {Bytes : Type 0} (sha256 : Bytes → String) (root : Dict (Node Bytes)) where
  verified-All :
      (q : QualityReport) (hashes : Dict String)
      → verify_release_snapshots sha256 (snapped root) q ≡ ok hashes
      → All (IsHashOf sha256 (snapped root)) hashes
        × ((k : String)
            → contains (keys hashes) k ≡ (
                contains (in_directory "quality" (quality_names sha256 (snapped root))) k
                || contains (in_directory "generated" generated_assets) k))
  unfolding verify_release_snapshots
  verified-All q hashes h = elim (Bool-cases (hash_sets_match sha256 (snapped root) q)) [
    | inr e ↦ absurd (ground (arith, e, h))
    | inl e ↦
        let first =
          bind_ok
            (hash_names sha256 (snapped root) q.artifact_hashes (λ _. false) "generated"
              generated_assets [])
            (λ hashes'.
              hash_names sha256 (snapped root) q.quality_artifact_hashes (is_quality_report sha256)
                "quality" (quality_names sha256 (snapped root)) hashes')
            hashes (ground (arith, e, h)) in
        (
          hash_names-All sha256 (snapped root) q.quality_artifact_hashes (is_quality_report sha256)
              "quality" (quality_names sha256 (snapped root)) first.0 hashes first.1.1
              (hash_names-All sha256 (snapped root) q.artifact_hashes (λ _. false) "generated"
                generated_assets [] first.0 first.1.0 tt),
          λ k. ground (
            arith,
            keys-hash_names sha256 (snapped root) q.quality_artifact_hashes
                (is_quality_report sha256) "quality" (quality_names sha256 (snapped root)) first.0
                hashes k first.1.1,
            keys-hash_names sha256 (snapped root) q.artifact_hashes (λ _. false) "generated"
                generated_assets [] first.0 k first.1.0,
          ),
        )
  ]

  same_names :
      (q : QualityReport) (hashes : Dict String) (k : String)
      → verify_release_snapshots sha256 (snapped root) q ≡ ok hashes
      → contains (keys hashes) k ≡ contains (keys (snapped root)) k
  same_names q hashes k h =
      agree (contains (keys hashes) k) (contains (in_directory "quality" all_quality) k)
        (contains (in_directory "generated" generated_assets) k) (has (snapped root) k)
        (holds_file (get root k))
        ((verified-All q hashes h).1 k
          ∙ ap (λ b. b || contains (in_directory "generated" generated_assets) k)
              (contains-kept (snapped root) all_quality k))
        (has-snapped root k
          ∙ ap (λ b. b && holds_file (get root k))
              (contains-append (in_directory "generated" generated_assets)
                (in_directory "quality" all_quality) k))
        (IsHashOf-has sha256 (snapped root) hashes k (verified-All q hashes h).0)
      ∙ has-eq-contains (snapped root) k

  abbrev pub archived : Dict Bytes
  archived = sort_by (λ (e : String × Bytes). e.0) (snapped root)

  HasHash-archived :
      (hashes : Dict String)
      → All (IsHashOf sha256 (snapped root)) hashes
      → All (HasHash sha256 (readable archived)) hashes
  HasHash-archived [] h = tt
  HasHash-archived ((name, digest) ∷ hashes) h = (
    (
      h.0.0,
      (
        get-readable archived name h.0.0 (
            get-sort_by (λ (e : String × Bytes). e.0) (snapped root) name
              (snapped-HasNodupKeys root)
            ∙ h.0.1.0),
        h.0.1.1,
      ),
    ),
    HasHash-archived hashes h.1,
  )

  pub archived-IsBundleOf :
      (q : QualityReport) (hashes : Dict String)
      → verify_release_snapshots sha256 (snapped root) q ≡ ok hashes
      → IsBundleOf sha256 hashes (readable archived)
  archived-IsBundleOf q hashes h = record {
    once = subst IsNodup (sym (keys-readable archived)) (
        HasNodupKeys-IsNodup archived (
          sort_by-HasNodupKeys (λ (e : String × Bytes). e.0) (snapped root)
            (snapped-HasNodupKeys root)));
    same_names = λ k.
        ap (λ ks. contains ks k) (keys-readable archived)
        ∙ (sym (has-eq-contains archived k)
            ∙ (ap (λ o. elim o [ none ↦ false | some _ ↦ true ])
                  (get-sort_by (λ (e : String × Bytes). e.0) (snapped root) k
                    (snapped-HasNodupKeys root))
                ∙ (has-eq-contains (snapped root) k ∙ sym (same_names q hashes k h))));
    hashed = HasHash-archived hashes (verified-All q hashes h).0;
  }

module _ {Bytes : Type 0} (root : Dict (Node Bytes)) where
  pub snapshot_ok :
      (complete : Bool) (snapshots : Dict Bytes)
      → snapshot_release_entries root complete ≡ ok snapshots
      → snapped root ≡ snapshots
  unfolding snapshot_release_entries
  snapshot_ok complete snapshots h =
      ok_injective (snapped root) snapshots
        (bind_ok
          (if complete then require_release_snapshot_entries (keys (snapped root)) else ok tt)
          (λ _. ok (snapped root)) snapshots h).1.1
