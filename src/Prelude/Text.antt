-- ===== src/Prelude/Text.antt =====
-- Python's order on texts, by code points, and membership of a text in a sequence.
use Prim.Native.Char.{code}
use Prim.Native.String.{String}
use mathlib.Core.Path.{◌≡◌, refl, ap}
use mathlib.Core.Bool.{Bool, true, false, ◌||◌}
use mathlib.Core.List.{List, [], ◌∷◌, ◌++◌}
use mathlib.Core.Option.{Option, none, some}
use native.Mathlib.Omega.{arith}
use text.Mathlib.Text.{◌==◌ as text_eq}
use text.Mathlib.TextEquality.{Char-path, eq_iff}
use text.Mathlib.TextPositions.{eq_refl}
use ard_ossie_provider.Prelude.Tests.{ltb, ◌==◌, if◌then◌else◌}
use ard_ossie_provider.Prelude.Lists.{any, all}

-- `s == t`
abbrev pub str_eq : String → String → Bool
str_eq s t = text_eq s t

-- `s <= t`
unfoldable pub str_leb : String → String → Bool
str_leb String.[] t = true
str_leb (String.◌∷◌ c s) String.[] = false
str_leb (String.◌∷◌ c s) (String.◌∷◌ d t) =
    if code c == code d then str_leb s t else ltb (code c) (code d)

pub str_leb_refl : (s : String) → str_leb s s ≡ true
unfolding str_leb
str_leb_refl String.[] = refl
str_leb_refl (String.◌∷◌ c s) = ground (arith, str_leb_refl s)

pub str_leb_total : (s t : String) → str_leb s t ≡ false → str_leb t s ≡ true
unfolding str_leb
str_leb_total String.[] t h = ground arith
str_leb_total (String.◌∷◌ c s) String.[] h = refl
str_leb_total (String.◌∷◌ c s) (String.◌∷◌ d t) h = ground (arith, str_leb_total s t)

pub str_leb_trans : (s t u : String) → str_leb s t ≡ true → str_leb t u ≡ true → str_leb s u ≡ true
unfolding str_leb
str_leb_trans String.[] t u h k = refl
str_leb_trans (String.◌∷◌ c s) String.[] u h k = ground arith
str_leb_trans (String.◌∷◌ c s) (String.◌∷◌ d t) String.[] h k = k
str_leb_trans (String.◌∷◌ c s) (String.◌∷◌ d t) (String.◌∷◌ e u) h k =
    ground (arith, str_leb_trans s t u)

pub str_leb_antisymm : (s t : String) → str_leb s t ≡ true → str_leb t s ≡ true → s ≡ t
unfolding str_leb
str_leb_antisymm String.[] String.[] h k = refl
str_leb_antisymm String.[] (String.◌∷◌ d t) h k = ground arith
str_leb_antisymm (String.◌∷◌ c s) String.[] h k = ground arith
str_leb_antisymm (String.◌∷◌ c s) (String.◌∷◌ d t) h k =
    ground (arith, str_leb_antisymm s t, Char-path c d)

-- `t in xs`
abbrev pub contains : List String → String → Bool
contains xs t = any (λ x. str_eq x t) xs

pub contains-append :
    (xs ys : List String) (k : String) → contains (xs ++ ys) k ≡ (contains xs k || contains ys k)
contains-append [] ys k = refl
contains-append (x ∷ xs) ys k = ground (arith, contains-append xs ys k)

-- a text where it is neither `None` nor empty: the test `if o`
abbrev pub given : Option String → Option String
given none = none
given (some s) = if str_eq s "" then none else some s

-- `o == p` where either may be `None`
abbrev pub opt_str_eq : Option String → Option String → Bool
opt_str_eq none none = true
opt_str_eq none (some _) = false
opt_str_eq (some _) none = false
opt_str_eq (some s) (some t) = str_eq s t

pub opt_str_eq→eq : (o p : Option String) → opt_str_eq o p ≡ true → o ≡ p
opt_str_eq→eq none none h = refl
opt_str_eq→eq none (some _) h = ground arith
opt_str_eq→eq (some _) none h = ground arith
opt_str_eq→eq (some s) (some t) h = ap some ((eq_iff s t).0 h)

pub all_of_contains :
    (test : String → Bool) (xs : List String) (a : String)
    → all test xs ≡ true
    → contains xs a ≡ true
    → test a ≡ true
all_of_contains test [] a h k = ground arith
all_of_contains test (x ∷ xs) a h k = ground (arith, all_of_contains test xs a, eq_iff x a, ap test)

pub all_from_contains :
    (test : String → Bool) (xs : List String)
    → ((a : String) → contains xs a ≡ true → test a ≡ true)
    → all test xs ≡ true
all_from_contains test [] h = refl
all_from_contains test (x ∷ xs) h =
    ground (arith, h x, eq_refl x, all_from_contains test xs (λ a k. h a (ground (arith, k))))

pub opt_str_eq_of_eq : (o p : Option String) → o ≡ p → opt_str_eq o p ≡ true
opt_str_eq_of_eq none none h = refl
opt_str_eq_of_eq none (some _) h = cc
opt_str_eq_of_eq (some _) none h = cc
opt_str_eq_of_eq (some s) (some t) h = ground (arith, eq_iff s t)
