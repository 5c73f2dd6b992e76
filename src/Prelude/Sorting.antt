-- ===== src/Prelude/Sorting.antt =====
-- `sorted(xs, key=...)` by a text key: a stable sort.
use Prim.Native.String.{String}
use mathlib.Core.Path.{◌≡◌, refl, ap, ◌∙◌}
use mathlib.Core.Bool.{Bool, true, ◌&&◌, ◌||◌}
use mathlib.Core.List.{List, [], ◌∷◌}
use native.Mathlib.Omega.{arith}
use ard_ossie_provider.Prelude.Tests.{if◌then◌else◌}
use ard_ossie_provider.Prelude.Lists.{any, all}
use ard_ossie_provider.Prelude.Text.{str_leb, str_leb_total, str_leb_trans}

module _ {ℓ} {A : Type ℓ} (key : A → String) where
  unfoldable pub insert_by : A → List A → List A
  insert_by x [] = x ∷ []
  insert_by x (y ∷ ys) = if str_leb (key x) (key y) then x ∷ y ∷ ys else y ∷ insert_by x ys

  -- stable: an element stays in front of the later ones with its key
  unfoldable pub sort_by : List A → List A
  unfolding insert_by
  sort_by [] = []
  sort_by (x ∷ xs) = insert_by x (sort_by xs)

  pub any-insert_by :
      (test : A → Bool) (x : A) (ys : List A) → any test (insert_by x ys) ≡ any test (x ∷ ys)
  unfolding insert_by
  any-insert_by test x [] = refl
  any-insert_by test x (y ∷ ys) = ground (arith, any-insert_by test x ys)

  -- sorting neither adds an element nor loses one
  pub any-sort_by : (test : A → Bool) (xs : List A) → any test (sort_by xs) ≡ any test xs
  unfolding sort_by
  any-sort_by test [] = refl
  any-sort_by test (x ∷ xs) =
      any-insert_by test x (sort_by xs) ∙ ap (λ b. test x || b) (any-sort_by test xs)

  all-insert_by :
      (test : A → Bool) (x : A) (ys : List A) → all test (insert_by x ys) ≡ all test (x ∷ ys)
  unfolding insert_by
  all-insert_by test x [] = refl
  all-insert_by test x (y ∷ ys) = ground (arith, all-insert_by test x ys)

  pub all-sort_by : (test : A → Bool) (xs : List A) → all test (sort_by xs) ≡ all test xs
  unfolding sort_by
  all-sort_by test [] = refl
  all-sort_by test (x ∷ xs) =
      all-insert_by test x (sort_by xs) ∙ ap (λ b. test x && b) (all-sort_by test xs)

  -- no key is above a later one
  abbrev pub IsAscending : List A → Type 0
  IsAscending [] = Unit
  IsAscending (x ∷ xs) = (all (λ y. str_leb (key x) (key y)) xs ≡ true) × IsAscending xs

  all-le_trans :
      (x y : A) (ys : List A)
      → str_leb (key x) (key y) ≡ true
      → all (λ z. str_leb (key y) (key z)) ys ≡ true
      → all (λ z. str_leb (key x) (key z)) ys ≡ true
  all-le_trans x y [] h k = refl
  all-le_trans x y (z ∷ ys) h k =
      ground (arith, all-le_trans x y ys h, str_leb_trans (key x) (key y) (key z))

  insert_by-IsAscending : (x : A) (ys : List A) → IsAscending ys → IsAscending (insert_by x ys)
  unfolding insert_by
  insert_by-IsAscending x [] h = (refl, tt)
  insert_by-IsAscending x (y ∷ ys) h = ground (
    arith,
    insert_by-IsAscending x ys h.1,
    all-insert_by (λ z. str_leb (key y) (key z)) x ys,
    all-le_trans x y ys,
    str_leb_total (key x) (key y),
  )

  pub sort_by-IsAscending : (xs : List A) → IsAscending (sort_by xs)
  unfolding sort_by
  sort_by-IsAscending [] = tt
  sort_by-IsAscending (x ∷ xs) = insert_by-IsAscending x (sort_by xs) (sort_by-IsAscending xs)
