-- ===== src/Release/Tags.antt =====
-- src/ard_ossie/release.py: the tags of a release.
use Prim.Native.Char.{code}
use Prim.Native.String as S
use Prim.Native.String.{◌++◌}
use Prim.Native.String.append
use text.Mathlib.TextLemmas.{cons-eq-cons}
use ard_ossie_provider.Prelude.{
  ℕ, zero, suc, ◌≡◌, ◌≤◌, refl, sym, ap, ◌∙◌, true, false, String, arith, ◌+◌, ◌*◌, ◌-◌, ◌/◌, ◌%◌,
  ltb, Bool-cases, inl, inr,
}
use ard_ossie_provider.Prelude.Separated.{has_char, cut, cut_text, char_cons}
use ard_ossie_provider.Release.{tag, decimal, decimal_from, digit}

-- the number that a text of digits denotes after the number read so far
abbrev read_from : ℕ → String → ℕ
read_from n S.[] = n
read_from n (S.◌∷◌ c s) = read_from (n * 10 + (code c - 48)) s

digit_code : (n : ℕ) → ltb n 10 ≡ true → code (digit n) - 48 ≡ n
unfolding digit
digit_code zero h = refl
digit_code (suc zero) h = refl
digit_code (suc (suc zero)) h = refl
digit_code (suc (suc (suc zero))) h = refl
digit_code (suc (suc (suc (suc zero)))) h = refl
digit_code (suc (suc (suc (suc (suc zero))))) h = refl
digit_code (suc (suc (suc (suc (suc (suc zero)))))) h = refl
digit_code (suc (suc (suc (suc (suc (suc (suc zero))))))) h = refl
digit_code (suc (suc (suc (suc (suc (suc (suc (suc zero)))))))) h = refl
digit_code (suc (suc (suc (suc (suc (suc (suc (suc (suc zero))))))))) h = refl
digit_code (suc (suc (suc (suc (suc (suc (suc (suc (suc (suc n)))))))))) h = ground arith

read-decimal_from :
    (fuel n : ℕ) (rest : String)
    → n ≤ fuel
    → read_from 0 (decimal_from fuel n rest) ≡ read_from n rest
unfolding decimal_from
read-decimal_from zero n rest h =
    ap (λ x. read_from x rest) (ground (arith, h, digit_code n (ground (arith, h))))
read-decimal_from (suc fuel) n rest h = elim (Bool-cases (ltb n 10)) [
  | inl e ↦ rw e (ap (λ x. read_from x rest) (ground (arith, digit_code n e)))
  | inr e ↦ rw e (
      read-decimal_from fuel (n / 10) (S.◌∷◌ (digit (n % 10)) rest) (ground (arith, h, e))
      ∙ ap (λ x. read_from x rest) (ground (arith, digit_code (n % 10) (ground arith))))
]

decimal_injective : (m n : ℕ) → decimal m ≡ decimal n → m ≡ n
unfolding decimal
decimal_injective m n h =
    sym (read-decimal_from m m "" (omega arith))
    ∙ (ap (read_from 0) h ∙ read-decimal_from n n "" (omega arith))

slash_v : (x : String) → "/v" ++ x ≡ S.◌∷◌ "/" (S.◌∷◌ "v" x)
slash_v x = append.cons "/" "v" x ∙ ap (S.◌∷◌ "/") (char_cons "v" x)

-- Tags of releases do not collide: where kinds and identifiers hold no slash, equal tags are of the
-- same kind, identifier and version.
pub tag_injective :
    (kind kind' id id' : String) (version version' : ℕ)
    → has_char "/" kind ≡ false
    → has_char "/" kind' ≡ false
    → has_char "/" id ≡ false
    → has_char "/" id' ≡ false
    → tag kind id version ≡ tag kind' id' version'
    → (kind ≡ kind') × ((id ≡ id') × (version ≡ version'))
unfolding tag
tag_injective kind kind' id id' version version' hk hk' hi hi' e =
    let kinds =
      cut_text "/" kind kind' (id ++ ("/v" ++ decimal version)) (id' ++ ("/v" ++ decimal version'))
        hk hk' e in
    let ids = cut "/" id id' (S.◌∷◌ "v" (decimal version)) (S.◌∷◌ "v" (decimal version')) hi hi' (
      ap (λ t. id ++ t) (sym (slash_v (decimal version)))
      ∙ (kinds.1 ∙ ap (λ t. id' ++ t) (slash_v (decimal version')))) in
    (kinds.0, (ids.0, decimal_injective version version' (cons-eq-cons.0 ids.1).1))
