-- ===== src/Prelude/Separated.antt =====
-- A text with no separator ends where the first separator stands.
use Prim.Native.Char.{Char, code}
use Prim.Native.String.{String, ◌++◌}
use Prim.Native.String.append
use text.Mathlib.TextLemmas.{cons-eq-cons}
use mathlib.Core.Path.{◌≡◌, refl, sym, ◌∙◌, ap, ap₂}
use mathlib.Core.Bool.{Bool, false, ◌||◌}
use native.Mathlib.Omega.{arith}
use ard_ossie_provider.Prelude.Tests.{◌==◌}

-- `c in s`
unfoldable pub has_char : Char → String → Bool
has_char d String.[] = false
has_char d (String.◌∷◌ c s) = code c == code d || has_char d s

pub char_cons : (d : Char) (x : String) → String.◌∷◌ d "" ++ x ≡ String.◌∷◌ d x
char_cons d x = append.cons d "" x ∙ ap (String.◌∷◌ d) (append.nil x)

pub cut :
    (d : Char) (a b x y : String)
    → has_char d a ≡ false
    → has_char d b ≡ false
    → a ++ String.◌∷◌ d x ≡ b ++ String.◌∷◌ d y
    → (a ≡ b) × (x ≡ y)
unfolding has_char
cut d String.[] String.[] x y ha hb e =
    let heads =
      cons-eq-cons.0 (sym (append.nil (String.◌∷◌ d x)) ∙ e ∙ append.nil (String.◌∷◌ d y)) in
    (refl, heads.1)
cut d String.[] (String.◌∷◌ c b) x y ha hb e =
    let heads =
      cons-eq-cons.0 (sym (append.nil (String.◌∷◌ d x)) ∙ e ∙ append.cons c b (String.◌∷◌ d y)) in
    absurd (ground (arith, ap code heads.0))
cut d (String.◌∷◌ c a) String.[] x y ha hb e =
    let heads =
      cons-eq-cons.0 (sym (append.cons c a (String.◌∷◌ d x)) ∙ e ∙ append.nil (String.◌∷◌ d y)) in
    absurd (ground (arith, ap code heads.0))
cut d (String.◌∷◌ c a) (String.◌∷◌ c' b) x y ha hb e =
    let heads =
      cons-eq-cons.0
        (sym (append.cons c a (String.◌∷◌ d x)) ∙ e ∙ append.cons c' b (String.◌∷◌ d y)) in
    let tails = cut d a b x y (ground arith) (ground arith) heads.1 in
    (ap₂ String.◌∷◌ heads.0 tails.0, tails.1)

-- the same with the separator written as a text of its own
pub cut_text :
    (d : Char) (a b x y : String)
    → has_char d a ≡ false
    → has_char d b ≡ false
    → a ++ (String.◌∷◌ d "" ++ x) ≡ b ++ (String.◌∷◌ d "" ++ y)
    → (a ≡ b) × (x ≡ y)
cut_text d a b x y ha hb e =
    cut d a b x y ha hb
      (ap (λ t. a ++ t) (sym (char_cons d x)) ∙ e ∙ ap (λ t. b ++ t) (char_cons d y))
