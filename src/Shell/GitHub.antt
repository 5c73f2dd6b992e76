-- ===== src/Shell/GitHub.antt =====
-- src/ard_ossie/adapters/github_cli.py: what the methods of `GitHubCli` read from the answers.
use Prim.Native.Char.{code}
use Prim.Native.String.{String}
use ard_ossie_provider.Prelude.{
  ℕ, Bool, true, false, not, ◌&&◌, ◌||◌, Option, none, some, List, [], ◌∷◌, ◌++◌, ◌==◌,
  if◌then◌else◌, Result, ok, err, ◌>>=◌,
}
use ard_ossie_provider.Prelude.Text.{str_eq}
use ard_ossie_provider.Prelude.Slices.{starts, drop_text, occurs}
use ard_ossie_provider.Models.Patterns.{is_sha256}
use ard_ossie_provider.Json.{
  Json, null, boolean, number, text, array, object, Items, no_items, item, Fields, no_fields, field,
}
use ard_ossie_provider.Workflow.{conflict_error, transient_error}
use ard_ossie_provider.Shell.{Machine, CommandResult, Raised, workflow, other, succeeded}

-- `payload.get(key)`
unfoldable pub lookup : Fields → String → Option Json
lookup no_fields key = none
lookup (field k j fs) key = if str_eq k key then some j else lookup fs key

-- `_mapping`
abbrev pub mapping : Option Json → Fields
mapping (some (object fs)) = fs
mapping _ = no_fields

mutual
  -- `_items` of an array: the objects in it, those in nested arrays in their place
  pub objects_in : Items → List Fields
  objects_in no_items = []
  objects_in (item j xs) = objects_of j ++ objects_in xs

  pub objects_of : Json → List Fields
  objects_of (array ys) = objects_in ys
  objects_of (object fs) = fs ∷ []
  objects_of _ = []

-- `_items`
unfoldable pub items : Option Json → List Fields
unfolding objects_in
items (some (array xs)) = objects_in xs
items _ = []

abbrev bad_response : Raised
bad_response = workflow (conflict_error "INVALID_GITHUB_RESPONSE")

-- what `_string` makes of a value
unfoldable pub text_or : Option Json → Result Raised String
text_or (some (text s)) = if str_eq s "" then err bad_response else ok s
text_or _ = err bad_response

-- `_string`
abbrev pub required_text : Fields → String → Result Raised String
required_text fs key = text_or (lookup fs key)

-- a literal of the number zero
unfoldable pub zero_literal : String → Bool
zero_literal String.[] = true
zero_literal (String.◌∷◌ c s) =
    code c == b'e'
    || code c == b'E'
    || (code c == b'0' || code c == b'.' || code c == b'-') && zero_literal s

-- `bool(payload.get(key))`
unfoldable pub truthy : Option Json → Bool
unfolding zero_literal
truthy none = false
truthy (some null) = false
truthy (some (boolean b)) = b
truthy (some (number s)) = not (zero_literal s)
truthy (some (text s)) = not (str_eq s "")
truthy (some (array no_items)) = false
truthy (some (object no_fields)) = false
truthy (some _) = true

-- `int(payload[key])`
unfoldable pub required_int : (Json → Option ℕ) → Option Json → Result Raised ℕ
required_int int_of none = err (other "KeyError")
required_int int_of (some j) = elim (int_of j) [ none ↦ err (other "ValueError") | some n ↦ ok n ]

-- `ReleaseAssetState`
pub record ReleaseAssetState : Type 0 where
  pub name : String
  pub digest : Option String
  pub url : String

-- `ReleaseState`
pub record ReleaseState : Type 0 where
  pub id : ℕ
  pub tag : String
  pub title : String
  pub draft : Bool
  pub prerelease : Bool
  pub assets : List ReleaseAssetState

-- `PullRequestState`
pub record PullRequestState : Type 0 where
  pub number : ℕ
  pub head_branch : String
  pub head_sha : String
  pub base_branch : String
  pub draft : Bool
  pub merged_at : Option String
  pub merge_sha : Option String
  pub url : String

-- `_decode`, of a result whose command ended well
unfoldable pub decode_stdout : Option Json → Result Raised Json
decode_stdout (some (array xs)) = ok (array xs)
decode_stdout (some (object fs)) = ok (object fs)
decode_stdout _ = err (workflow (conflict_error "INVALID_GITHUB_JSON"))

module _ {Bytes : Type 0} (m : Machine Bytes) where
  -- `_decode`
  unfoldable pub decode : CommandResult → String → Result Raised Json
  unfolding decode_stdout
  decode result failure =
      if succeeded result
      then decode_stdout (m.loads result.stdout)
      else err (workflow (transient_error failure))

  -- `_is_not_found`
  unfoldable pub is_not_found : CommandResult → Bool
  unfolding occurs
  is_not_found result =
      not (succeeded result)
      && (occurs "404" result.stderr || occurs "not found" (m.casefold result.stderr))

  -- `_release_digest`
  unfoldable pub release_digest : Option Json → Option String
  unfolding starts drop_text is_sha256
  release_digest (some (text s)) =
      let digest = m.casefold (if starts s "sha256:" then drop_text 7 s else s) in
      if is_sha256 digest then some digest else none
  release_digest _ = none

  unfoldable pub read_asset : Fields → Result Raised ReleaseAssetState
  unfolding text_or lookup release_digest
  read_asset fs = do
    name ← required_text fs "name"
    url ← required_text fs "browser_download_url"
    ok (record { name = name; digest = release_digest (lookup fs "digest"); url = url })

  unfoldable pub read_assets : List Fields → Result Raised (List ReleaseAssetState)
  unfolding read_asset
  read_assets [] = ok []
  read_assets (fs ∷ rest) = do first ← read_asset fs; others ← read_assets rest; ok (first ∷ others)

  -- `_release`; an array has no `get`
  unfoldable pub read_release : Json → Result Raised ReleaseState
  unfolding read_assets items lookup required_int text_or truthy
  read_release (object fs) = do
    assets ← read_assets (items (lookup fs "assets"))
    id ← required_int m.int_of (lookup fs "id")
    tag ← required_text fs "tag_name"
    title ← required_text fs "name"
    ok (record {
      id = id;
      tag = tag;
      title = title;
      draft = truthy (lookup fs "draft");
      prerelease = truthy (lookup fs "prerelease");
      assets = assets;
    })
  read_release _ = err (other "AttributeError")
