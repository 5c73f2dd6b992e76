-- ===== src/Shell/Tests.antt =====
-- Runs of src/ard_ossie/adapters/github_cli.py, and its theorems at concrete inputs.
use Prim.Native.Char.{code}
use Prim.Native.String.{String}
use ard_ossie_provider.Prelude.{
  ◌≡◌, refl, ap, sym, ◌<◌, suc, Option, none, some, ◌==◌, ◌&&◌, Bool, true, false, ok, arith,
}
use ard_ossie_provider.Prelude.Slices.{text_length}
use ard_ossie_provider.Json.{Json, array, object, no_items, item, no_fields}
use ard_ossie_provider.Shell.{CommandResult}
use ard_ossie_provider.Shell.Pages.{decode_paginated, Consumes}
use ard_ossie_provider.Shell.Decoded.{IsDecoded, decode_paginated-IsDecoded}

-- a decoder of `[]` and `{}`
empty_value : Bool → Bool → String → Option (Json × String)
empty_value true b s = some (array no_items, s)
empty_value false true s = some (object no_fields, s)
empty_value false false s = none

unfoldable raw_decode : String → Option (Json × String)
unfolding empty_value
raw_decode (String.◌∷◌ c (String.◌∷◌ d s)) =
    empty_value (code c == b'[' && code d == b']') (code c == b'{' && code d == b'}') s
raw_decode _ = none

rest_of : Option (Json × String) → String → String
rest_of none s = s
rest_of (some (j, rest)) s = rest

raw_decode-Consumes : Consumes raw_decode
unfolding raw_decode text_length rest_of empty_value
raw_decode-Consumes String.[] j rest h = ground (arith, h)
raw_decode-Consumes (String.◌∷◌ c String.[]) j rest h = ground (arith, h)
raw_decode-Consumes (String.◌∷◌ c (String.◌∷◌ d s)) j rest h =
    split (code c == b'[' && code d == b']') (code c == b'{' && code d == b'}') h
  where
    shorter :
        {k : Json}
        → ◌≡◌ {A = Option (Json × String)} (some (k, s)) (some (j, rest))
        → text_length rest < suc (suc (text_length s))
    shorter e = rw (sym (ap (λ o. rest_of o s) e)) (omega arith)

    split :
        (a b : Bool)
        → empty_value a b s ≡ some (j, rest)
        → text_length rest < suc (suc (text_length s))
    split true b e = shorter e
    split false true e = shorter e
    split false false e = ground (arith, e)

abbrev two_pages : CommandResult
two_pages = record { returncode = 0; stdout = "[] \n{}\n"; stderr = "" }

two_decoded :
    decode_paginated raw_decode two_pages "GITHUB_API_FAILED"
    ≡ ok (array (item (array no_items) (item (object no_fields) no_items)))
unfolding decode_paginated raw_decode
two_decoded = refl

decode_paginated-IsDecoded_example :
    IsDecoded raw_decode raw_decode-Consumes two_pages
      (decode_paginated raw_decode two_pages "GITHUB_API_FAILED")
decode_paginated-IsDecoded_example =
    decode_paginated-IsDecoded raw_decode raw_decode-Consumes two_pages "GITHUB_API_FAILED"
