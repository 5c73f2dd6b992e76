-- ===== src/Shell/Text.antt =====
-- src/ard_ossie/adapters/git_cli.py and adapters/github_cli.py: the texts that are refused before
-- a program is run.
use Prim.Native.Char.{Char, code}
use Prim.Native.String.{String}
use ard_ossie_provider.Prelude.{
  ℕ, Bool, true, false, not, ◌&&◌, ◌||◌, List, [], ◌∷◌, leb, ◌==◌, if◌then◌else◌, any, Result, ok,
  err,
}
use ard_ossie_provider.Prelude.Slices.{strip, ends, occurs}
use ard_ossie_provider.Models.Patterns.{matches, hexes}
use ard_ossie_provider.Workflow.{conflict_error}
use ard_ossie_provider.Shell.{Raised, workflow}

-- `[A-Za-z0-9]`
unfoldable pub is_alnum : Char → Bool
is_alnum c =
    let n = code c in
    leb b'A' n && leb n b'Z' || leb b'a' n && leb n b'z' || leb b'0' n && leb n b'9'

-- every character is a letter, a digit or one of the marks
unfoldable pub all_of : List ℕ → String → Bool
unfolding is_alnum
all_of marks String.[] = true
all_of marks (String.◌∷◌ c s) = (is_alnum c || any (λ n. code c == n) marks) && all_of marks s

unfoldable pub starts_alnum : List ℕ → String → Bool
unfolding all_of is_alnum
starts_alnum marks String.[] = false
starts_alnum marks (String.◌∷◌ c s) = is_alnum c && all_of marks s

-- `_SHA`
unfoldable pub is_sha : String → Bool
unfolding matches hexes
is_sha s = matches (hexes 40) s

-- `_validate_ref`
unfoldable pub bad_ref : String → Bool
unfolding starts_alnum occurs ends
bad_ref s =
    not (starts_alnum (b'.' ∷ b'_' ∷ b'/' ∷ b'-' ∷ []) s)
    || occurs ".." s
    || occurs "//" s
    || occurs "@{" s
    || ends s "/"
    || ends s "."
    || ends s ".lock"

-- `_validate_name` of the GitHub adapter
unfoldable pub bad_name : String → Bool
unfolding starts_alnum occurs
bad_name s =
    not (starts_alnum (b'_' ∷ b'.' ∷ b':' ∷ b'/' ∷ b'@' ∷ b'*' ∷ b'+' ∷ b'-' ∷ []) s)
    || occurs ".." s
    || occurs "//" s

-- `_validated_sha` of the git adapter, which strips, and of the GitHub adapter, which does not
unfoldable pub git_sha : (String → String) → String → Result Raised String
unfolding strip is_sha
git_sha casefold value =
    let normalized = casefold (strip value) in
    if is_sha normalized then ok normalized else err (workflow (conflict_error "INVALID_GIT_SHA"))

unfoldable pub github_sha : (String → String) → String → Result Raised String
unfolding is_sha
github_sha casefold value =
    let normalized = casefold value in
    if is_sha normalized
    then ok normalized
    else err (workflow (conflict_error "INVALID_GITHUB_SHA"))
