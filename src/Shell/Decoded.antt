-- ===== src/Shell/Decoded.antt =====
-- src/ard_ossie/adapters/github_cli.py: the loop of `_decode_paginated` ends, and what it reads.
use Prim.Native.String.{String}
use ard_ossie_provider.Prelude.{
  ℕ, zero, suc, ◌≤◌, ◌<◌, ◌∙◌, ◌≡◌, ◌≢◌, ◌↔◌, refl, sym, ap, Bool, true, false, Option, some,
  if◌then◌else◌, Result, ok, err, and_then, arith, ok_injective, subst, in_then,
}
use ard_ossie_provider.Prelude.Slices.{text_length, lstrip}
use ard_ossie_provider.Json.{
  Json, null, boolean, number, text, array, object, Items, no_items, item,
}
use ard_ossie_provider.Workflow.{transient_error}
use ard_ossie_provider.Shell.{CommandResult, Raised, workflow, other, succeeded}
use ard_ossie_provider.Shell.Pages.{
  NextPage, ended, broken, page, page_of, next_page, pages_from, decode_paginated, joined, Consumes,
  invalid_json,
}

pub lstrip-le : (s : String) → text_length (lstrip s) ≤ text_length s
unfolding lstrip text_length
lstrip-le String.[] = omega arith
lstrip-le (String.◌∷◌ c s) = ground (arith, lstrip-le s)

rest_of : NextPage → String
rest_of (page j rest) = rest
rest_of _ = ""

rest-page : {j k : Json} {rest rest' : String} → page j rest ≡ page k rest' → rest ≡ rest'
unfolding rest_of
rest-page h = ap rest_of h

err_injective : {A : Type 0} {d e : Raised} → ◌≡◌ {A = Result Raised A} (err d) (err e) → d ≡ e
err_injective h = cc

item-ends :
    (j : Json) (r : Result Raised Items)
    → r ≢ err (other "RuntimeError")
    → and_then r (λ js. ok (item j js)) ≢ err (other "RuntimeError")
item-ends j (ok js) h k = cc
item-ends j (err e) h k = h (ap (λ x. err x) (err_injective k))

below :
    (fuel : ℕ) (s rest : String)
    → text_length s < suc fuel
    → text_length rest < text_length s
    → text_length rest < fuel
below fuel s rest l short = omega arith

-- an object or an array
abbrev pub IsContainer : Json → Type 0
IsContainer (array xs) = Unit
IsContainer (object fs) = Unit
IsContainer _ = ⊥

-- the text is these values, objects and arrays, with spaces around them
pub data Splits (raw_decode : String → Option (Json × String)) : String → Items → Type 0 where
  split_end : {s : String} → lstrip s ≡ "" → Splits raw_decode s no_items
  split_page :
      {s : String} (j : Json) (rest : String) (js : Items)
      → lstrip s ≢ ""
      → raw_decode (lstrip s) ≡ some (j, rest)
      → IsContainer j
      → Splits raw_decode rest js
      → Splits raw_decode s (item j js)

-- the answer for the documents: the only one, or the array of two or more
abbrev pub IsAnswer : Items → Json → Type 0
IsAnswer no_items j = ⊥
IsAnswer (item k no_items) j = k ≡ j
IsAnswer (item k (item l js)) j = array (item k (item l js)) ≡ j

joined_iff : (js : Items) (j : Json) → (joined js ≡ ok j) ↔ IsAnswer js j
unfolding joined
joined_iff no_items j = (λ h. cc, λ h. absurd h)
joined_iff (item k no_items) j = (λ h. ok_injective {E = Raised} k j h, λ h. ap ok h)
joined_iff (item k (item l js)) j =
    (λ h. ok_injective {E = Raised} (array (item k (item l js))) j h, λ h. ap ok h)

-- what the document at an offset is
abbrev Holds : Option (Json × String) → NextPage → Type 0
Holds o (page j rest) = (o ≡ some (j, rest)) × IsContainer j
Holds o ended = ⊥
Holds o broken = Unit

page_of-Holds : (o : Option (Json × String)) → Holds o (page_of o)
unfolding page_of
page_of-Holds (some (array xs, rest)) = (refl, tt)
page_of-Holds (some (object fs, rest)) = (refl, tt)
page_of-Holds _ = tt

page_of-container :
    (j : Json) (rest : String) → IsContainer j → page_of (some (j, rest)) ≡ page j rest
unfolding page_of
page_of-container (array xs) rest c = refl
page_of-container (object fs) rest c = refl
page_of-container null rest c = absurd c
page_of-container (boolean b) rest c = absurd c
page_of-container (number n) rest c = absurd c
page_of-container (text t) rest c = absurd c

module _ (raw_decode : String → Option (Json × String)) (consumes : Consumes raw_decode) where
  page_of-shorter :
      (s : String) (o : Option (Json × String)) (j : Json) (rest : String)
      → raw_decode s ≡ o
      → page_of o ≡ page j rest
      → text_length rest < text_length s
  unfolding page_of
  page_of-shorter s (some (array xs, r)) j rest e h =
      rw (sym (rest-page h)) (consumes s (array xs) r e)
  page_of-shorter s (some (object xs, r)) j rest e h =
      rw (sym (rest-page h)) (consumes s (object xs) r e)
  page_of-shorter s _ j rest e h = ground (arith, h)

  next_page-shorter :
      (s : String) (j : Json) (rest : String)
      → next_page raw_decode s ≡ page j rest
      → text_length rest < text_length s
  unfolding next_page
  next_page-shorter String.[] j rest h = ground (arith, h)
  next_page-shorter (String.◌∷◌ c s) j rest h =
      page_of-shorter (String.◌∷◌ c s) (raw_decode (String.◌∷◌ c s)) j rest refl h

  next_page-ended : (s : String) → next_page raw_decode s ≡ ended → s ≡ ""
  unfolding next_page
  next_page-ended String.[] h = refl
  next_page-ended (String.◌∷◌ c s) h =
      absurd (
        subst (Holds (raw_decode (String.◌∷◌ c s))) h (page_of-Holds (raw_decode (String.◌∷◌ c s))))

  next_page-Holds :
      (s : String) (j : Json) (rest : String)
      → next_page raw_decode s ≡ page j rest
      → (s ≢ "") × Holds (raw_decode s) (page j rest)
  unfolding next_page
  next_page-Holds String.[] j rest h = cc
  next_page-Holds (String.◌∷◌ c s) j rest h = (
    λ e. cc,
    subst (Holds (raw_decode (String.◌∷◌ c s))) h (page_of-Holds (raw_decode (String.◌∷◌ c s))),
  )

  Holds-next_page :
      (s : String) (j : Json) (rest : String)
      → s ≢ ""
      → raw_decode s ≡ some (j, rest)
      → IsContainer j
      → next_page raw_decode s ≡ page j rest
  unfolding next_page
  Holds-next_page String.[] j rest n e c = absurd (n refl)
  Holds-next_page (String.◌∷◌ x s) j rest n e c = ap page_of e ∙ page_of-container j rest c

  round_short :
      (s : String) (j : Json) (rest : String)
      → next_page raw_decode (lstrip s) ≡ page j rest
      → text_length rest < text_length s
  round_short s j rest h =
      let a = next_page-shorter (lstrip s) j rest h in let b = lstrip-le s in omega arith

  -- one round, with what the rounds after it do
  round :
      (P : Result Raised Items → Type 0) (fuel : ℕ) (s : String)
      → (next_page raw_decode (lstrip s) ≡ ended → P (ok no_items))
      → (next_page raw_decode (lstrip s) ≡ broken → P (err invalid_json))
      → ((j : Json) (rest : String)
          → next_page raw_decode (lstrip s) ≡ page j rest
          → text_length rest < text_length s
          → P (and_then (pages_from raw_decode fuel rest) λ js. ok (item j js)))
      → P (pages_from raw_decode (suc fuel) s)
  unfolding pages_from
  round P fuel s ends breaks goes = split (next_page raw_decode (lstrip s)) refl
    where
      split :
          (p : NextPage)
          → next_page raw_decode (lstrip s) ≡ p
          → P (elim p [
            | ended ↦ ok no_items
            | broken ↦ err invalid_json
            | page j rest ↦ and_then (pages_from raw_decode fuel rest) λ js. ok (item j js)
          ])
      split ended h = ends h
      split broken h = breaks h
      split (page j rest) h = goes j rest h (round_short s j rest h)

  pages_from-Splits :
      (fuel : ℕ) (s : String) (js : Items)
      → pages_from raw_decode fuel s ≡ ok js
      → Splits raw_decode s js
  unfolding pages_from
  pages_from-Splits zero s js h = ground (arith, h)
  pages_from-Splits (suc fuel) s js h =
      round (λ r. r ≡ ok js → Splits raw_decode s js) fuel s
        (λ e k.
          subst (Splits raw_decode s) (ok_injective {E = Raised} no_items js k)
            (split_end (next_page-ended (lstrip s) e)))
        (λ e k. cc)
        (λ j rest e short k. in_then (pages_from raw_decode fuel rest) _ js k λ ks f g.
          subst (Splits raw_decode s) (ok_injective {E = Raised} (item j ks) js g) (
            split_page j rest ks (next_page-Holds (lstrip s) j rest e).0
              (next_page-Holds (lstrip s) j rest e).1.0 (next_page-Holds (lstrip s) j rest e).1.1
              (pages_from-Splits fuel rest ks f)))
        h

  pages_from-ends :
      (fuel : ℕ) (s : String)
      → text_length s < fuel
      → pages_from raw_decode fuel s ≢ err (other "RuntimeError")
  unfolding pages_from
  pages_from-ends zero s l = omega arith
  pages_from-ends (suc fuel) s l =
      round (λ r. r ≢ err (other "RuntimeError")) fuel s (λ e k. cc) (λ e k. cc)
        λ j rest e short.
          item-ends j (pages_from raw_decode fuel rest)
            (pages_from-ends fuel rest (below fuel s rest l short))

  Splits-pages_from :
      (fuel : ℕ) (s : String) (js : Items)
      → text_length s < fuel
      → Splits raw_decode s js
      → pages_from raw_decode fuel s ≡ ok js
  unfolding pages_from
  Splits-pages_from zero s js l h = ground (arith, l)
  Splits-pages_from (suc fuel) s _ l (split_end e) =
      rw (pages_from, ap (next_page raw_decode) e) refl
  Splits-pages_from (suc fuel) s _ l (split_page j rest js n d c h) =
      let e = Holds-next_page (lstrip s) j rest n d c in
      rw (pages_from, e)
        (rw (Splits-pages_from fuel rest js (below fuel s rest l (round_short s j rest e)) h) refl)

  enough : (s : String) → text_length s < suc (text_length s)
  enough s = omega arith

  -- what an answer of several documents is decoded to
  pub record IsDecoded (result : CommandResult) (r : Result Raised Json) : Type 0 where
    pub ends : r ≢ err (other "RuntimeError")
    pub reads :
        (j : Json)
        → (r ≡ ok j) ↔ (
            (succeeded result ≡ true)
            × ((js : Items) × Splits raw_decode result.stdout js × IsAnswer js j))

  joined-ends :
      (r : Result Raised Items)
      → r ≢ err (other "RuntimeError")
      → and_then r joined ≢ err (other "RuntimeError")
  unfolding joined
  joined-ends (err e) h k = h (ap (λ x. err x) (err_injective k))
  joined-ends (ok no_items) h k = cc
  joined-ends (ok (item j no_items)) h k = cc
  joined-ends (ok (item j (item k js))) h e = cc

  -- Where a decoded value takes at least a character, the loop over the documents of an answer ends
  -- before its fuel does, and decode_paginated returns a value exactly where the program succeeded,
  -- the output is a sequence of objects and arrays with spaces around them, at least one, and the
  -- value is the only document or the array of all of them.
  pub decode_paginated-IsDecoded :
      (result : CommandResult) (failure : String)
      → IsDecoded result (decode_paginated raw_decode result failure)
  unfolding decode_paginated
  decode_paginated-IsDecoded result failure = split (succeeded result) refl
    where
      fuel : ℕ
      fuel = suc (text_length result.stdout)

      pages : Result Raised Items
      pages = pages_from raw_decode fuel result.stdout

      split :
          (b : Bool)
          → succeeded result ≡ b
          → IsDecoded result
              (if b then and_then pages joined else err (workflow (transient_error failure)))
      split true h = record {
        ends = joined-ends pages (pages_from-ends fuel result.stdout (enough result.stdout));
        reads = λ j. (
          λ k. (
            h,
            in_then pages joined j k
                λ js f g. (js, pages_from-Splits fuel result.stdout js f, (joined_iff js j).0 g),
          ),
          λ k.
              rw (Splits-pages_from fuel result.stdout k.1.0 (enough result.stdout) k.1.1)
                ((joined_iff k.1.0 j).1 k.1.2),
        );
      }
      split false h = record { ends = λ k. cc; reads = λ j. (λ k. cc, λ k. ground (arith, k.0, h)) }
