-- ===== src/Shell/Pages.antt =====
-- src/ard_ossie/adapters/github_cli.py: `_decode_paginated`, an answer of several JSON documents.
-- `JSONDecoder.raw_decode` is an argument: of a text it gives the value and the text after it.
use Prim.Native.String.{String}
use ard_ossie_provider.Prelude.{
  ℕ, zero, suc, ◌<◌, ◌≡◌, Option, some, if◌then◌else◌, Result, ok, err, and_then,
}
use ard_ossie_provider.Prelude.Slices.{text_length, lstrip}
use ard_ossie_provider.Json.{Json, array, object, Items, no_items, item}
use ard_ossie_provider.Workflow.{conflict_error, transient_error}
use ard_ossie_provider.Shell.{CommandResult, Raised, workflow, other, succeeded}

abbrev pub invalid_json : Raised
invalid_json = workflow (conflict_error "INVALID_GITHUB_JSON")

-- what stands at an offset after the spaces
pub data NextPage : Type 0 where
  ended broken : NextPage
  page : Json → String → NextPage

-- a document is an object or an array
unfoldable pub page_of : Option (Json × String) → NextPage
page_of (some (array xs, rest)) = page (array xs) rest
page_of (some (object fs, rest)) = page (object fs) rest
page_of _ = broken

-- the answer for the documents that were read
unfoldable pub joined : Items → Result Raised Json
joined no_items = err invalid_json
joined (item j no_items) = ok j
joined (item j (item k js)) = ok (array (item j (item k js)))

module _ (raw_decode : String → Option (Json × String)) where
  unfoldable pub next_page : String → NextPage
  unfolding page_of
  next_page String.[] = ended
  next_page (String.◌∷◌ c s) = page_of (raw_decode (String.◌∷◌ c s))

  -- the loop over the documents, with as many rounds as the fuel says
  unfoldable pub pages_from : ℕ → String → Result Raised Items
  unfolding next_page lstrip
  pages_from zero s = err (other "RuntimeError")
  pages_from (suc fuel) s = elim (next_page (lstrip s)) [
    | ended ↦ ok no_items
    | broken ↦ err invalid_json
    | page j rest ↦ and_then (pages_from fuel rest) λ js. ok (item j js)
  ]

  -- `_decode_paginated`; each document takes a character
  unfoldable pub decode_paginated : CommandResult → String → Result Raised Json
  unfolding pages_from joined text_length
  decode_paginated result failure =
      if succeeded result
      then and_then (pages_from (suc (text_length result.stdout)) result.stdout) joined
      else err (workflow (transient_error failure))

  -- a value takes a character at least
  abbrev pub Consumes : Type 0
  Consumes =
      (s : String) (j : Json) (rest : String)
      → raw_decode s ≡ some (j, rest)
      → text_length rest < text_length s
