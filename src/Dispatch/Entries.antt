-- ===== src/Dispatch/Entries.antt =====
-- src/ard_ossie/application/release_dispatch.py: which hashes of files a result may hold.
use Prim.Native.Char.{code}
use Prim.Native.String.{◌++◌}
use Prim.Native.String.append
use ard_ossie_provider.Prelude.{
  ◌≡◌, ◌≢◌, refl, sym, ℕ, true, false, Option, none, some, [], ◌∷◌, String, ◌==◌, ok, in_chain,
  ok_injective, Bool-cases, arith, eq_iff, inl, inr,
}
use ard_ossie_provider.Prelude.Slices.{starts}
use ard_ossie_provider.Prelude.Separated.{has_char}
use ard_ossie_provider.Prelude.Sorting.{sort_by}
use ard_ossie_provider.Prelude.Dict.{Dict}
use ard_ossie_provider.Models.Patterns.{is_sha256}
use ard_ossie_provider.Json.{
  Json, text, number, null, boolean, array, object, Fields, no_fields, field,
}
use ard_ossie_provider.Shell.{Raised}
use ard_ossie_provider.Dispatch.Checks.{
  has_parent_from, is_safe_entry, validated_entries, validated_artifact_hashes,
}

-- two points are a part of the path: its last one, or one that a separator ends
pub data HasParent : String → Type 0 where
  only : (name : String) → name ≡ ".." → HasParent name
  first :
      (name s : String) → name ≡ String.◌∷◌ "." (String.◌∷◌ "." (String.◌∷◌ "/" s)) → HasParent name
  later : (name s t : String) → name ≡ s ++ String.◌∷◌ "/" t → HasParent t → HasParent name

-- a file below its root, and a digest
pub record IsSafeFile (name digest : String) : Type 0 where
  pub named : name ≢ ""
  pub no_backslash : has_char "\\" name ≡ false
  pub no_null : has_char "\0" name ≡ false
  pub relative : starts name "/" ≡ false
  pub no_parent : ¬ HasParent name
  pub digested : is_sha256 digest ≡ true

-- the fields are these entries, each a safe file with its digest
abbrev pub AreEntries : Fields → Dict String → Type 0
AreEntries no_fields entries = entries ≡ []
AreEntries (field name (text digest) fs) entries =
    (rest : Dict String) × (entries ≡ (name, digest) ∷ rest)
    × IsSafeFile name digest
    × AreEntries fs rest
AreEntries (field name _ fs) entries = ⊥

-- the hashes are the entries of an object that is not empty, sorted by their names
abbrev pub AreHashes : Option Json → Dict String → Type 0
AreHashes (some (object fs)) hashes =
    (entries : Dict String) × (fs ≢ no_fields)
    × AreEntries fs entries
    × (hashes ≡ sort_by (λ (e : String × String). e.0) entries)
AreHashes _ hashes = ⊥

-- a part that begins after a separator is tested whatever stands before it
parent_later :
    (dots : Option ℕ) (s t : String)
    → has_parent_from (some 0) t ≡ true
    → has_parent_from dots (s ++ String.◌∷◌ "/" t) ≡ true
unfolding has_parent_from
parent_later none String.[] t h = rw (append.nil (String.◌∷◌ "/" t)) h
parent_later (some n) String.[] t h = rw (append.nil (String.◌∷◌ "/" t)) (ground (arith, h))
parent_later dots (String.◌∷◌ c s) t h = elim (Bool-cases (code c == b'/')) [
  | inl e ↦ rw (append.cons c s (String.◌∷◌ "/" t), e) (ground (arith, parent_later (some 0) s t h))
  | inr e ↦ rw (append.cons c s (String.◌∷◌ "/" t), e) (parent_later _ s t h)
]

has_parent-HasParent : (name : String) → HasParent name → has_parent_from (some 0) name ≡ true
unfolding has_parent_from
has_parent-HasParent name (only n e) = rw e refl
has_parent-HasParent name (first n s e) = rw e refl
has_parent-HasParent name (later n s t e p) =
    rw e (parent_later (some 0) s t (has_parent-HasParent t p))

is_safe_entry-IsSafeFile :
    (name digest : String) → is_safe_entry name (text digest) ≡ true → IsSafeFile name digest
unfolding is_safe_entry
is_safe_entry-IsSafeFile name digest h = record {
  named = λ e. ground (arith, h, (eq_iff name "").1 e);
  no_backslash = ground (arith, h);
  no_null = ground (arith, h);
  relative = ground (arith, h);
  no_parent = λ p. ground (arith, h, has_parent-HasParent name p);
  digested = ground (arith, h);
}

validated_entries-AreEntries :
    (fs : Fields) (entries : Dict String)
    → validated_entries fs ≡ ok entries
    → AreEntries fs entries
unfolding validated_entries
validated_entries-AreEntries no_fields entries h = sym (ok_injective {E = Raised} [] entries h)
validated_entries-AreEntries (field name (text digest) fs) entries h =
    elim (Bool-cases (is_safe_entry name (text digest))) [
      | inr e ↦ absurd (ground (arith, e, h))
      | inl e ↦ in_chain (validated_entries fs) _ entries (ground (arith, e, h)) λ rest f k. (
        rest,
        sym (ok_injective {E = Raised} ((name, digest) ∷ rest) entries k),
        is_safe_entry-IsSafeFile name digest e,
        validated_entries-AreEntries fs rest f,
      )
    ]
validated_entries-AreEntries (field name null fs) entries h = cc
validated_entries-AreEntries (field name (boolean b) fs) entries h = cc
validated_entries-AreEntries (field name (number n) fs) entries h = cc
validated_entries-AreEntries (field name (array xs) fs) entries h = cc
validated_entries-AreEntries (field name (object gs) fs) entries h = cc

pub validated-AreHashes :
    (o : Option Json) (hashes : Dict String)
    → validated_artifact_hashes o ≡ ok hashes
    → AreHashes o hashes
unfolding validated_artifact_hashes
validated-AreHashes none hashes h = cc
validated-AreHashes (some (object no_fields)) hashes h = cc
validated-AreHashes (some (object (field name j fs))) hashes h =
    in_chain (validated_entries (field name j fs)) _ hashes h λ entries e k. (
      entries,
      λ n. cc,
      validated_entries-AreEntries (field name j fs) entries e,
      sym (ok_injective {E = Raised} _ hashes k),
    )
validated-AreHashes (some null) hashes h = cc
validated-AreHashes (some (boolean b)) hashes h = cc
validated-AreHashes (some (number n)) hashes h = cc
validated-AreHashes (some (text t)) hashes h = cc
validated-AreHashes (some (array xs)) hashes h = cc
