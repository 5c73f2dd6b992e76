-- ===== src/Prelude/Reindex.antt =====
-- Dictionaries that are built from a sequence of entries: a sorted directory, a comprehension.
use Prim.Native.String.{String}
use mathlib.Core.Path.{◌≡◌, refl, ap, ◌∙◌}
use mathlib.Core.Bool.{Bool, true, false}
use mathlib.Core.List.{List, [], ◌∷◌}
use mathlib.Core.Option.{Option, none, some}
use native.Mathlib.Omega.{arith}
use text.Mathlib.TextEquality.{eq_iff}
use ard_ossie_provider.Prelude.Tests.{if◌then◌else◌}
use ard_ossie_provider.Prelude.Text.{str_eq}
use ard_ossie_provider.Prelude.Lists.{all}
use ard_ossie_provider.Prelude.Sorting.{insert_by, sort_by, all-sort_by}
use ard_ossie_provider.Prelude.Dict.{Dict, get, put, values, get-put, get-nil}

module _ {ℓ} {V : Type ℓ} where
  -- `for k, v in entries: d[k] = v`
  unfoldable pub put_all : Dict V → Dict V → Dict V
  unfolding put
  put_all d [] = d
  put_all d ((k, v) ∷ entries) = put_all (put d k v) entries

  -- `for v in vs: d[id(v)] = v`
  unfoldable pub index_from : (V → String) → Dict V → List V → Dict V
  unfolding put
  index_from id d [] = d
  index_from id d (v ∷ vs) = index_from id (put d (id v) v) vs

  abbrev pub is_none : Option V → Bool
  is_none none = true
  is_none (some _) = false

  -- no key stands twice
  abbrev pub HasNodupKeys : Dict V → Type 0
  HasNodupKeys [] = Unit
  HasNodupKeys (e ∷ d) = (is_none (get d e.0) ≡ true) × HasNodupKeys d

  pub put-HasNodupKeys :
      (d : Dict V) (k : String) (v : V) → HasNodupKeys d → HasNodupKeys (put d k v)
  unfolding put get
  put-HasNodupKeys [] k v h = (refl, tt)
  put-HasNodupKeys ((i, w) ∷ d) k v h =
      ground (arith, put-HasNodupKeys d k v h.1, get-put d k i v, eq_iff i k, eq_iff k i)

  get-insert_by :
      (name : String × V → String) (x : String × V) (d : Dict V) (k : String)
      → is_none (get d x.0) ≡ true
      → get (insert_by name x d) k ≡ (if str_eq x.0 k then some x.1 else get d k)
  unfolding insert_by get
  get-insert_by name x [] k h = refl
  get-insert_by name x (y ∷ d) k h =
      ground (arith, get-insert_by name x d k, eq_iff x.0 k, eq_iff y.0 k, eq_iff y.0 x.0)

  insert_by-HasNodupKeys :
      (name : String × V → String) (x : String × V) (d : Dict V)
      → is_none (get d x.0) ≡ true
      → HasNodupKeys d
      → HasNodupKeys (insert_by name x d)
  unfolding insert_by get
  insert_by-HasNodupKeys name x [] h n = (refl, tt)
  insert_by-HasNodupKeys name x (y ∷ d) h n = ground (
    arith,
    insert_by-HasNodupKeys name x d,
    get-insert_by name x d y.0,
    eq_iff x.0 y.0,
    eq_iff y.0 x.0,
  )

  -- the order of the files does not matter where each has its own name
  pub get-sort_by :
      (name : String × V → String) (d : Dict V) (k : String)
      → HasNodupKeys d
      → get (sort_by name d) k ≡ get d k
  unfolding sort_by get
  get-sort_by name [] k n = refl
  get-sort_by name (x ∷ d) k n = ground (
    arith,
    get-insert_by name x (sort_by name d) k,
    get-sort_by name d k n.1,
    get-sort_by name d x.0 n.1,
  )

  pub sort_by-HasNodupKeys :
      (name : String × V → String) (d : Dict V) → HasNodupKeys d → HasNodupKeys (sort_by name d)
  unfolding sort_by
  sort_by-HasNodupKeys name [] n = tt
  sort_by-HasNodupKeys name (x ∷ d) n =
      insert_by-HasNodupKeys name x (sort_by name d) (rw (get-sort_by name d x.0 n.1) n.0)
        (sort_by-HasNodupKeys name d n.1)

  -- what was put last, else what was there
  abbrev or_else : Option V → Option V → Option V
  or_else none o = o
  or_else (some v) o = some v

  get-put_all :
      (d entries : Dict V) (k : String)
      → HasNodupKeys entries
      → get (put_all d entries) k ≡ or_else (get entries k) (get d k)
  unfolding put_all get
  get-put_all d [] k n = refl
  get-put_all d ((i, v) ∷ entries) k n =
      ground (arith, get-put_all (put d i v) entries k n.1, get-put d i k v, eq_iff i k)

  -- every record stands under its own identifier
  abbrev pub is_own : (V → String) → String × V → Bool
  is_own id e = str_eq (id e.1) e.0

  index_from-put_all :
      (id : V → String) (d entries : Dict V)
      → all (is_own id) entries ≡ true
      → index_from id d (values entries) ≡ put_all d entries
  unfolding index_from put_all
  index_from-put_all id d [] h = refl
  index_from-put_all id d ((i, v) ∷ entries) h =
      let same : id v ≡ i = ground (arith, eq_iff (id v) i) in
      ap (λ k. index_from id (put d k v) (values entries)) same
      ∙ index_from-put_all id (put d i v) entries (ground arith)

  or_else-none : (o : Option V) → or_else o none ≡ o
  or_else-none none = refl
  or_else-none (some v) = refl

  pub get_restored :
      (name : String × V → String) (files : Dict V) (k : String)
      → HasNodupKeys files
      → get (put_all [] (sort_by name files)) k ≡ get files k
  get_restored name files k n =
      get-put_all [] (sort_by name files) k (sort_by-HasNodupKeys name files n)
      ∙ ap (or_else (get (sort_by name files) k)) (get-nil k)
      ∙ or_else-none (get (sort_by name files) k)
      ∙ get-sort_by name files k n

  pub get_reindexed :
      (id : V → String) (name : String × V → String) (files : Dict V) (k : String)
      → HasNodupKeys files
      → all (is_own id) files ≡ true
      → get (index_from id [] (values (sort_by name files))) k ≡ get files k
  get_reindexed id name files k n own =
      ap (λ d. get d k)
        (index_from-put_all id [] (sort_by name files) (all-sort_by name (is_own id) files ∙ own))
      ∙ get_restored name files k n

  pub put-is_own :
      (id : V → String) (d : Dict V) (v : V)
      → all (is_own id) d ≡ true
      → all (is_own id) (put d (id v) v) ≡ true
  unfolding put
  put-is_own id [] v h = ground (arith, eq_iff (id v) (id v))
  put-is_own id ((i, w) ∷ d) v h =
      ground (arith, put-is_own id d v, eq_iff i (id v), eq_iff (id v) i)
