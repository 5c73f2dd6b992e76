-- ===== src/Prelude/Sets.antt =====
-- `sorted(set(xs))` on texts: strictly ascending, with the elements of `xs` and no others.
use Prim.Native.String.{String}
use mathlib.Core.Path.{◌≡◌, refl, ap, ap₂, sym, ◌∙◌}
use mathlib.Core.Bool.{Bool, true, false, not}
use mathlib.Core.List.{List, [], ◌∷◌}
use native.Mathlib.Omega.{arith}
use text.Mathlib.TextEquality.{eq_iff}
use text.Mathlib.TextPositions.{eq_refl}
use ard_ossie_provider.Prelude.Tests.{if◌then◌else◌}
use Prim.Native.Nat.{◌≤◌}
use mathlib.Core.Logic.{◌↔◌}
use ard_ossie_provider.Prelude.Lists.{any, all, length}
use ard_ossie_provider.Prelude.Text.{
  str_eq, str_leb, contains, str_leb_refl, str_leb_total, str_leb_antisymm,
}
use ard_ossie_provider.Prelude.Sorting.{
  insert_by, sort_by, any-insert_by, any-sort_by, IsAscending, sort_by-IsAscending,
}

any_of_contains :
    (test : String → Bool) (a : String) (xs : List String)
    → contains xs a ≡ true
    → test a ≡ true
    → any test xs ≡ true
any_of_contains test a [] h k = ground arith
any_of_contains test a (x ∷ xs) h k = ground (arith, any_of_contains test a xs, eq_iff x a, ap test)

-- the elements of `set(xs)`, each once; a later `sorted` forgets the order in which they stand
unfoldable pub dedupe : List String → List String
dedupe [] = []
dedupe (x ∷ xs) = let rest = dedupe xs in if contains rest x then rest else x ∷ rest

-- `sorted(set(xs))`
unfoldable pub sorted_set : List String → List String
unfolding dedupe sort_by
sorted_set xs = sort_by (λ x. x) (dedupe xs)

any-dedupe : (test : String → Bool) (xs : List String) → any test (dedupe xs) ≡ any test xs
unfolding dedupe
any-dedupe test [] = refl
any-dedupe test (x ∷ xs) = ground (arith, any-dedupe test xs, any_of_contains test x (dedupe xs))

-- no element stands twice
abbrev pub IsNodup : List String → Type 0
IsNodup [] = Unit
IsNodup (x ∷ xs) = (contains xs x ≡ false) × IsNodup xs

dedupe-IsNodup : (xs : List String) → IsNodup (dedupe xs)
unfolding dedupe
dedupe-IsNodup [] = tt
dedupe-IsNodup (x ∷ xs) = ground (arith, dedupe-IsNodup xs)

insert_by-IsNodup :
    (x : String) (ys : List String)
    → contains ys x ≡ false
    → IsNodup ys
    → IsNodup (insert_by (λ s. s) x ys)
unfolding insert_by
insert_by-IsNodup x [] h k = (refl, tt)
insert_by-IsNodup x (y ∷ ys) h k = ground (
  arith,
  insert_by-IsNodup x ys,
  any-insert_by (λ s. s) (λ s. str_eq s y) x ys,
  eq_iff x y,
  eq_iff y x,
)

sort_by-IsNodup : (xs : List String) → IsNodup xs → IsNodup (sort_by (λ s. s) xs)
unfolding sort_by
sort_by-IsNodup [] h = tt
sort_by-IsNodup (x ∷ xs) h =
    insert_by-IsNodup x (sort_by (λ s. s) xs) (any-sort_by (λ s. s) (λ s. str_eq s x) xs ∙ h.0)
      (sort_by-IsNodup xs h.1)

-- each element is below all later ones
abbrev pub IsStrict : List String → Type 0
IsStrict [] = Unit
IsStrict (x ∷ xs) = (all (λ y. not (str_leb y x)) xs ≡ true) × IsStrict xs

all-lt :
    (x : String) (ys : List String)
    → all (λ y. str_leb x y) ys ≡ true
    → contains ys x ≡ false
    → all (λ y. not (str_leb y x)) ys ≡ true
all-lt x [] h k = refl
all-lt x (y ∷ ys) h k = ground (arith, all-lt x ys, str_leb_antisymm x y, eq_iff y x)

IsStrict-of_nodup : (xs : List String) → IsAscending (λ s. s) xs → IsNodup xs → IsStrict xs
IsStrict-of_nodup [] h k = tt
IsStrict-of_nodup (x ∷ xs) h k = (all-lt x xs h.0 k.0, IsStrict-of_nodup xs h.1 k.1)

-- `sorted(set(xs))` is strictly ascending
pub sorted_set-IsStrict : (xs : List String) → IsStrict (sorted_set xs)
unfolding sorted_set
sorted_set-IsStrict xs =
    IsStrict-of_nodup (sort_by (λ s. s) (dedupe xs)) (sort_by-IsAscending (λ s. s) (dedupe xs))
      (sort_by-IsNodup (dedupe xs) (dedupe-IsNodup xs))

pub any-sorted_set :
    (test : String → Bool) (xs : List String) → any test (sorted_set xs) ≡ any test xs
unfolding sorted_set
any-sorted_set test xs = any-sort_by (λ s. s) test (dedupe xs) ∙ any-dedupe test xs

pub contains-sorted_set :
    (xs : List String) (a : String) → contains (sorted_set xs) a ≡ contains xs a
contains-sorted_set xs a = any-sorted_set (λ s. str_eq s a) xs

not-contains_below :
    (x : String) (ys : List String) → all (λ y. not (str_leb y x)) ys ≡ true → contains ys x ≡ false
not-contains_below x [] h = refl
not-contains_below x (y ∷ ys) h =
    ground (arith, not-contains_below x ys, eq_iff y x, str_leb_refl x)

lt_of_contains :
    (x a : String) (ys : List String)
    → all (λ y. not (str_leb y x)) ys ≡ true
    → contains ys a ≡ true
    → str_leb a x ≡ false
lt_of_contains x a [] h k = ground arith
lt_of_contains x a (y ∷ ys) h k = ground (arith, lt_of_contains x a ys, eq_iff y a)

-- two strictly ascending sequences with the same elements are equal
pub IsStrict-ext :
    (xs ys : List String)
    → IsStrict xs
    → IsStrict ys
    → ((a : String) → contains xs a ≡ contains ys a)
    → xs ≡ ys
IsStrict-ext [] [] h k e = refl
IsStrict-ext [] (y ∷ ys) h k e = ground (arith, e y, eq_refl y)
IsStrict-ext (x ∷ xs) [] h k e = ground (arith, e x, eq_refl x)
IsStrict-ext (x ∷ xs) (y ∷ ys) h k e = ap₂ ◌∷◌ same (IsStrict-ext xs ys h.1 k.1 tails)
  where
    same : x ≡ y
    same = ground (
      arith,
      e x,
      e y,
      eq_refl x,
      eq_refl y,
      eq_iff x y,
      eq_iff y x,
      lt_of_contains x y xs h.0,
      lt_of_contains y x ys k.0,
      str_leb_total x y,
    )

    tails : (a : String) → contains xs a ≡ contains ys a
    tails a = ground (
      arith,
      e a,
      same,
      eq_iff x a,
      eq_iff y a,
      not-contains_below x xs h.0,
      not-contains_below y ys k.0,
    )

-- the order and the repetitions of the input are forgotten
pub sorted_set_ext :
    (xs ys : List String)
    → ((a : String) → contains xs a ≡ contains ys a)
    → sorted_set xs ≡ sorted_set ys
sorted_set_ext xs ys e =
    IsStrict-ext (sorted_set xs) (sorted_set ys) (sorted_set-IsStrict xs) (sorted_set-IsStrict ys)
      (λ a. contains-sorted_set xs a ∙ e a ∙ sym (contains-sorted_set ys a))

length-dedupe-le : (xs : List String) → length (dedupe xs) ≤ length xs
unfolding dedupe
length-dedupe-le [] = omega arith
length-dedupe-le (x ∷ xs) = ground (arith, length-dedupe-le xs)

-- a sequence is as long as its set exactly if no element stands in it twice
pub length-dedupe_iff : (xs : List String) → (length (dedupe xs) ≡ length xs) ↔ IsNodup xs
unfolding dedupe
length-dedupe_iff [] = (λ _. tt, λ _. refl)
length-dedupe_iff (x ∷ xs) =
    ground (arith, length-dedupe_iff xs, length-dedupe-le xs, any-dedupe (λ y. str_eq y x) xs)
