-- ===== src/Release/Hashed.antt =====
-- src/ard_ossie/release.py: which entries `_verify_release_snapshots` hashes, and which are snapped.
use ard_ossie_provider.Prelude.{
  ◌≡◌, refl, sym, ap, Bool, true, false, ◌&&◌, ◌||◌, Option, some, List, [], ◌∷◌, String, arith,
  keep, All, ok, bind_ok, ok_injective, Bool-cases, Option-cases, inl, inr, eq_iff, subst,
}
use ard_ossie_provider.Prelude.Text.{str_eq, contains}
use ard_ossie_provider.Prelude.Sets.{IsNodup}
use ard_ossie_provider.Prelude.Dict.{Dict, get, put, keys, has, has-eq-contains, contains-keys-put}
use ard_ossie_provider.Prelude.Reindex.{HasNodupKeys}
use ard_ossie_provider.Release.Snapshots.{
  Node, file, in_directory, entry_name, read_present, hash_name, hash_names,
}

module _ {Bytes : Type 0} where
  abbrev pub holds_file : Option (Node Bytes) → Bool
  holds_file (some (file _)) = true
  holds_file _ = false

  pub keys-read_present :
      (root : Dict (Node Bytes)) (names : List String) (k : String)
      → contains (keys (read_present root names)) k ≡ (contains names k && holds_file (get root k))
  unfolding read_present
  keys-read_present root [] k = refl
  keys-read_present root (name ∷ names) k =
      ground (arith, keys-read_present root names k, eq_iff name k, ap (get root))

  pub read_present-HasNodupKeys :
      (root : Dict (Node Bytes)) (names : List String)
      → IsNodup names
      → HasNodupKeys (read_present root names)
  unfolding read_present
  read_present-HasNodupKeys root [] h = tt
  read_present-HasNodupKeys root (name ∷ names) h = ground (
    arith,
    read_present-HasNodupKeys root names h.1,
    keys-read_present root names name,
    has-eq-contains (read_present root names) name,
  )

  -- the names that are kept are those that are there, and the others are not read anyway
  pub read_present-keep :
      (root : Dict (Node Bytes)) (names : List String)
      → read_present root
          (in_directory "quality" (keep (λ n. has root (entry_name "quality" n)) names))
        ≡ read_present root (in_directory "quality" names)
  unfolding read_present
  read_present-keep root [] = refl
  read_present-keep root (name ∷ names) = ground (arith, read_present-keep root names)

-- one entry of the hashes is the hash of the snapshot at its name
abbrev pub IsHashOf : {Bytes : Type 0} → (Bytes → String) → Dict Bytes → String × String → Type 0
IsHashOf sha256 snapshots e =
    (bytes : _) × ((get snapshots e.0 ≡ some bytes) × (sha256 bytes ≡ e.1))

All-put :
    (P : String × String → Type 0) (d : Dict String) (k v : String)
    → All P d
    → P (k, v)
    → All P (put d k v)
unfolding put
All-put P [] k v h p = (p, tt)
All-put P ((j, w) ∷ d) k v h p = elim (Bool-cases (str_eq j k)) [
  | inl e ↦ rw e (subst (λ x. P (x, v)) (sym ((eq_iff j k).0 e)) p, h.1)
  | inr e ↦ rw e (h.0, All-put P d k v h.1 p)
]

module _ {Bytes : Type 0} (sha256 : Bytes → String) (snapshots : Dict Bytes) where
  hash_name-IsHashOf :
      (expected : Dict String) (exempt : String → Bool) (directory name digest : String)
      → hash_name sha256 snapshots expected exempt directory name ≡ ok digest
      → IsHashOf sha256 snapshots (entry_name directory name, digest)
  unfolding hash_name
  hash_name-IsHashOf expected exempt directory name digest h =
      elim (Option-cases (get snapshots (entry_name directory name))) [
        | inl e ↦ absurd (ground (arith, h, e))
        | inr (bytes, e) ↦ (bytes, (e, ground (arith, h, e)))
      ]

  pub hash_names-All :
      (expected : Dict String) (exempt : String → Bool) (directory : String) (names : List String)
      (hashes result : Dict String)
      → hash_names sha256 snapshots expected exempt directory names hashes ≡ ok result
      → All (IsHashOf sha256 snapshots) hashes
      → All (IsHashOf sha256 snapshots) result
  unfolding hash_names
  hash_names-All expected exempt directory [] hashes result h a =
      subst (All (IsHashOf sha256 snapshots)) (ok_injective hashes result h) a
  hash_names-All expected exempt directory (name ∷ names) hashes result h a =
      let step =
        bind_ok (hash_name sha256 snapshots expected exempt directory name)
          (λ digest.
            hash_names sha256 snapshots expected exempt directory names
              (put hashes (entry_name directory name) digest))
          result h in
      hash_names-All expected exempt directory names _ result step.1.1 (
        All-put (IsHashOf sha256 snapshots) hashes (entry_name directory name) step.0 a
          (hash_name-IsHashOf expected exempt directory name step.0 step.1.0))

  pub keys-hash_names :
      (expected : Dict String) (exempt : String → Bool) (directory : String) (names : List String)
      (hashes result : Dict String) (k : String)
      → hash_names sha256 snapshots expected exempt directory names hashes ≡ ok result
      → contains (keys result) k
        ≡ (contains (in_directory directory names) k || contains (keys hashes) k)
  unfolding hash_names
  keys-hash_names expected exempt directory [] hashes result k h =
      ap (λ d. contains (keys d) k) (sym (ok_injective hashes result h))
  keys-hash_names expected exempt directory (name ∷ names) hashes result k h =
      let step =
        bind_ok (hash_name sha256 snapshots expected exempt directory name)
          (λ digest.
            hash_names sha256 snapshots expected exempt directory names
              (put hashes (entry_name directory name) digest))
          result h in
      ground (
        arith,
        keys-hash_names expected exempt directory names
            (put hashes (entry_name directory name) step.0) result k step.1.1,
        contains-keys-put hashes (entry_name directory name) k step.0,
      )
