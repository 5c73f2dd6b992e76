-- ===== src/Workflow/Sensitive.antt =====
-- src/ard_ossie/application/contracts.py: `_SENSITIVE_KEY`, the pattern of the keys whose values are
-- secret, and its search in a key.
use Prim.Native.Char.{Char, code}
use Prim.Native.String.{String}
use ard_ossie_provider.Prelude.{
  ℕ, ◌+◌, Bool, true, false, ◌&&◌, ◌||◌, List, [], ◌∷◌, leb, ◌==◌, if◌then◌else◌, any,
}

-- a letter without its case; `re.IGNORECASE` also takes the long s for an s, the Kelvin sign
-- for a k, and the capital i with a dot and the small one without for an i
unfoldable pub fold_case : Char → ℕ
fold_case c =
    let n = code c in
    if leb b'A' n && leb n b'Z'
    then n + 32
    else (if n == 383
        then b's'
        else (if n == 8490 then b'k' else (if n == 304 || n == 305 then b'i' else n)))

-- `[_-]`
unfoldable pub is_mark : Char → Bool
is_mark c = code c == b'_' || code c == b'-'

-- `(?:$|[_-])`; `$` also stands before a line break that ends the text
unfoldable pub ends_word : String → Bool
unfolding is_mark
ends_word String.[] = true
ends_word (String.◌∷◌ c String.[]) = is_mark c || code c == 10
ends_word (String.◌∷◌ c (String.◌∷◌ d s)) = is_mark c

-- a word of the pattern at the start of a text, and the end of the word after it
unfoldable pub word_at : String → String → Bool
unfolding fold_case ends_word
word_at String.[] s = ends_word s
word_at (String.◌∷◌ p ps) String.[] = false
word_at (String.◌∷◌ p ps) (String.◌∷◌ c s) = code p == fold_case c && word_at ps s

-- `api[_-]?key`, `authorization`, `credential`, `password`, `secret` and `token`
abbrev pub sensitive_words : List String
sensitive_words =
    "api_key" ∷ "api-key" ∷ "apikey" ∷ "authorization" ∷ "credential" ∷ "password" ∷ "secret"
    ∷ "token" ∷ []

unfoldable pub any_word_at : String → Bool
unfolding word_at
any_word_at s = any (λ w. word_at w s) sensitive_words

-- the places after a mark
unfoldable pub after_mark : String → Bool
unfolding any_word_at is_mark
after_mark String.[] = false
after_mark (String.◌∷◌ c s) = is_mark c && any_word_at s || after_mark s

-- `_SENSITIVE_KEY.search(key)`
unfoldable pub is_sensitive : String → Bool
unfolding any_word_at after_mark
is_sensitive s = any_word_at s || after_mark s
