-- ===== src/Prelude/Rearrange.antt =====
-- Sorting by keys that all differ forgets the order of the input.
use Prim.Native.String.{String}
use mathlib.Core.Path.{◌≡◌, refl, ap, ap₂, sym, ◌∙◌}
use mathlib.Core.Bool.{false, ◌||◌}
use mathlib.Core.List.{List, [], ◌∷◌, map}
use mathlib.Core.List.{Permᴰ}
use mathlib.Core.List.Permᴰ.{nil, cons, swap, trans}
use native.Mathlib.Omega.{arith}
use text.Mathlib.TextEquality.{eq_iff}
use ard_ossie_provider.Prelude.Text.{
  str_eq, contains, str_leb_total, str_leb_trans, str_leb_antisymm,
}
use ard_ossie_provider.Prelude.Sorting.{insert_by, sort_by}
use ard_ossie_provider.Prelude.Sets.{IsNodup}

module _ {ℓ} {A : Type ℓ} (key : A → String) where
  insert_by-swap :
      (x y : A) (zs : List A)
      → str_eq (key x) (key y) ≡ false
      → insert_by key x (insert_by key y zs) ≡ insert_by key y (insert_by key x zs)
  unfolding insert_by
  insert_by-swap x y [] h = ground (
    arith,
    h,
    str_leb_total (key x) (key y),
    str_leb_antisymm (key x) (key y),
    eq_iff (key x) (key y),
  )
  insert_by-swap x y (z ∷ zs) h = ground (
    arith,
    h,
    insert_by-swap x y zs h,
    str_leb_total (key x) (key y),
    str_leb_antisymm (key x) (key y),
    str_leb_total (key x) (key z),
    str_leb_total (key y) (key z),
    str_leb_trans (key x) (key y) (key z),
    str_leb_trans (key y) (key x) (key z),
    eq_iff (key x) (key y),
  )

  contains-Permᴰ :
      {xs ys : List A}
      → Permᴰ xs ys
      → (k : String) → contains (map key xs) k ≡ contains (map key ys) k
  contains-Permᴰ nil k = refl
  contains-Permᴰ (cons e d) k = ap₂ (λ a b. str_eq (key a) k || b) e (contains-Permᴰ d k)
  contains-Permᴰ (swap e f) k =
      ground (arith, ap (λ x. str_eq (key x) k) e, ap (λ x. str_eq (key x) k) f)
  contains-Permᴰ (trans d e) k = contains-Permᴰ d k ∙ contains-Permᴰ e k

  IsNodup-Permᴰ : {xs ys : List A} → Permᴰ xs ys → IsNodup (map key xs) → IsNodup (map key ys)
  IsNodup-Permᴰ nil h = h
  IsNodup-Permᴰ (cons {b = b} {l₁ = l₁} e d) h = (
    sym (contains-Permᴰ d (key b)) ∙ (ap (λ x. contains (map key l₁) (key x)) (sym e) ∙ h.0),
    IsNodup-Permᴰ d h.1,
  )
  IsNodup-Permᴰ (swap {a = a} {b = b} {a' = a'} {b' = b'} e f) h =
      ground (arith, h, ap key e, ap key f, eq_iff (key b') (key a'), eq_iff (key b) (key a))
  IsNodup-Permᴰ (trans d e) h = IsNodup-Permᴰ e (IsNodup-Permᴰ d h)

  -- the same entries in another order are sorted into the same sequence, where no key stands twice
  pub sort_by-Permᴰ :
      {xs ys : List A} → Permᴰ xs ys → IsNodup (map key xs) → sort_by key xs ≡ sort_by key ys
  unfolding sort_by
  sort_by-Permᴰ nil h = refl
  sort_by-Permᴰ (cons e d) h = ap₂ (insert_by key) e (sort_by-Permᴰ d h.1)
  sort_by-Permᴰ (swap {a = a} {b = b} {l = l} e f) h =
      insert_by-swap a b (sort_by key l)
        (ground (arith, h, eq_iff (key b) (key a), eq_iff (key a) (key b)))
      ∙ ap₂ (λ x y. insert_by key x (insert_by key y (sort_by key l))) f e
  sort_by-Permᴰ (trans d e) h = sort_by-Permᴰ d h ∙ sort_by-Permᴰ e (IsNodup-Permᴰ d h)
