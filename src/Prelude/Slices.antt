-- ===== src/Prelude/Slices.antt =====
-- Python's slices, prefixes and white space of texts.
use Prim.Native.Nat.{ℕ, zero, suc, ◌-◌}
use Prim.Native.Char.{Char, code}
use Prim.Native.String.{String}
use mathlib.Core.Bool.{Bool, true, false, ◌&&◌, ◌||◌}
use ard_ossie_provider.Prelude.Tests.{leb, ◌==◌, if◌then◌else◌}
use ard_ossie_provider.Prelude.Text.{str_eq}

-- `str.isspace` of one character
unfoldable pub is_space : Char → Bool
is_space c =
    let n = code c in
    leb 9 n && leb n 13
    || leb 28 n && leb n 32
    || n == 133
    || n == 160
    || n == 5760
    || leb 8192 n && leb n 8202
    || n == 8232
    || n == 8233
    || n == 8239
    || n == 8287
    || n == 12288

unfoldable pub text_length : String → ℕ
text_length String.[] = 0
text_length (String.◌∷◌ c s) = suc (text_length s)

-- `s[n:]`
unfoldable pub drop_text : ℕ → String → String
drop_text n String.[] = String.[]
drop_text zero (String.◌∷◌ c s) = String.◌∷◌ c s
drop_text (suc n) (String.◌∷◌ c s) = drop_text n s

-- `s[:n]`
unfoldable pub take_text : ℕ → String → String
take_text n String.[] = String.[]
take_text zero (String.◌∷◌ c s) = String.[]
take_text (suc n) (String.◌∷◌ c s) = String.◌∷◌ c (take_text n s)

-- `s.startswith(p)`
unfoldable pub starts : String → String → Bool
starts s String.[] = true
starts String.[] (String.◌∷◌ d p) = false
starts (String.◌∷◌ c s) (String.◌∷◌ d p) = code c == code d && starts s p

-- `s.endswith(p)`
unfoldable pub ends : String → String → Bool
unfolding text_length drop_text
ends s p =
    leb (text_length p) (text_length s) && str_eq (drop_text (text_length s - text_length p) s) p

unfoldable pub lstrip : String → String
unfolding is_space
lstrip String.[] = String.[]
lstrip (String.◌∷◌ c s) = let rest = lstrip s in if is_space c then rest else String.◌∷◌ c s

-- a character before a text that is stripped at its end
unfoldable pub before_stripped : Char → String → String
unfolding is_space
before_stripped c String.[] = if is_space c then String.[] else String.◌∷◌ c String.[]
before_stripped c (String.◌∷◌ d s) = String.◌∷◌ c (String.◌∷◌ d s)

unfoldable pub rstrip : String → String
unfolding before_stripped
rstrip String.[] = String.[]
rstrip (String.◌∷◌ c s) = before_stripped c (rstrip s)

-- `s.strip()`
unfoldable pub strip : String → String
unfolding lstrip rstrip
strip s = rstrip (lstrip s)

-- `p in s`
unfoldable pub occurs : String → String → Bool
unfolding starts
occurs p String.[] = starts String.[] p
occurs p (String.◌∷◌ c s) = starts (String.◌∷◌ c s) p || occurs p s

-- `s.partition(":")[0]`
unfoldable pub before_colon : String → String
before_colon String.[] = String.[]
before_colon (String.◌∷◌ c s) =
    let rest = before_colon s in if code c == b':' then String.[] else String.◌∷◌ c rest
