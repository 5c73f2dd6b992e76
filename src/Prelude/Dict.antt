-- ===== src/Prelude/Dict.antt =====
-- Python's `dict` with text keys, in insertion order: an assignment to a key that is there keeps
-- its place.
use Prim.Native.String.{String}
use mathlib.Core.Path.{◌≡◌, refl, ap}
use mathlib.Core.Bool.{Bool, true, false, ◌||◌}
use mathlib.Core.List.{List, [], ◌∷◌}
use mathlib.Core.Option.{Option, none, some}
use native.Mathlib.Omega.{arith}
use text.Mathlib.TextEquality.{eq_iff}
use ard_ossie_provider.Prelude.Tests.{if◌then◌else◌}
use ard_ossie_provider.Prelude.Lists.{any}
use ard_ossie_provider.Prelude.Text.{str_eq, contains}

abbrev pub Dict {ℓ} : Type ℓ → Type ℓ
Dict V = List (String × V)

module _ {ℓ} {V : Type ℓ} where
  -- `d.get(k)`
  unfoldable pub get : Dict V → String → Option V
  get [] k = none
  get ((j, v) ∷ d) k = if str_eq j k then some v else get d k

  -- `d[k] = v`
  unfoldable pub put : Dict V → String → V → Dict V
  put [] k v = (k, v) ∷ []
  put ((j, w) ∷ d) k v = if str_eq j k then (j, v) ∷ d else (j, w) ∷ put d k v

  -- `d.values()`
  abbrev pub values : Dict V → List V
  values [] = []
  values ((j, v) ∷ d) = v ∷ values d

  -- `d.keys()`
  abbrev pub keys : Dict V → List String
  keys [] = []
  keys ((j, v) ∷ d) = j ∷ keys d

  -- `k in d`
  abbrev pub has : Dict V → String → Bool
  has d k = elim (get d k) [ none ↦ false | some _ ↦ true ]

  pub get-put :
      (d : Dict V) (k j : String) (v : V)
      → get (put d k v) j ≡ (if str_eq k j then some v else get d j)
  unfolding get put
  get-put [] k j v = refl
  get-put ((i, w) ∷ d) k j v = ground (arith, get-put d k j v, eq_iff i k, eq_iff i j, eq_iff k j)

  pub get-nil : (k : String) → get [] k ≡ none
  unfolding get
  get-nil k = refl

  pub contains-keys-put :
      (d : Dict V) (k j : String) (v : V)
      → contains (keys (put d k v)) j ≡ (str_eq k j || contains (keys d) j)
  unfolding put
  contains-keys-put [] k j v = refl
  contains-keys-put ((i, w) ∷ d) k j v =
      ground (arith, contains-keys-put d k j v, eq_iff i k, eq_iff i j, eq_iff k j)

  pub has-eq-contains : (d : Dict V) (k : String) → has d k ≡ contains (keys d) k
  unfolding get
  has-eq-contains [] k = refl
  has-eq-contains ((i, w) ∷ d) k = ground (arith, has-eq-contains d k)

  pub any-values-get :
      (test : V → Bool) (d : Dict V) (k : String) (v : V)
      → any test (values d) ≡ false
      → get d k ≡ some v
      → test v ≡ false
  unfolding get
  any-values-get test [] k v h e = cc
  any-values-get test ((i, w) ∷ d) k v h e = ground (arith, any-values-get test d k v, ap test)
