-- ===== src/Shell/Issues.antt =====
-- src/ard_ossie/adapters/github_cli.py: the labels of an issue and the comments of a pull request.
use Prim.Native.Char.{code}
use Prim.Native.String.{String, ◌++◌}
use ard_ossie_provider.Prelude.{
  ℕ, Bool, true, false, not, ◌&&◌, ◌||◌, Option, none, some, List, [], ◌∷◌, ◌++◌ as ◌+++◌, map,
  keep, leb, ◌==◌, if◌then◌else◌, any, Result, ok, and_then,
}
use ard_ossie_provider.Prelude.Text.{opt_str_eq, contains}
use ard_ossie_provider.Prelude.Slices.{starts}
use ard_ossie_provider.Prelude.Sets.{sorted_set}
use ard_ossie_provider.Impact.{same_set}
use ard_ossie_provider.Json.{Json, text, Fields}
use ard_ossie_provider.Workflow.{MutationRecord, conflict_error}
use ard_ossie_provider.Release.{decimal}
use ard_ossie_provider.Shell.{
  Shell, Machine, Raised, workflow, other, get_issue, put_labels, get_comments, patch_comment,
  post_comment, ◌>>=◌, give, raise, lift, stop_if, sh,
}
use ard_ossie_provider.Shell.GitHub.{lookup, items, required_text, text_or, required_int, decode}
use ard_ossie_provider.Shell.Pulls.{fields_of}
use ard_ossie_provider.Shell.Pages.{decode_paginated}
use ard_ossie_provider.Shell.Release.{created_id}

-- `{_string(item, "name") for item in ...}`, in the order of the answer
unfoldable pub label_names : List Fields → Result Raised (List String)
unfolding lookup text_or
label_names [] = ok []
label_names (fs ∷ rest) =
    and_then (required_text fs "name")
      λ name. and_then (label_names rest) λ names. ok (name ∷ names)

-- `(current - remove) | add`
unfoldable pub desired_labels : List String → List String → List String → List String
desired_labels current add remove = keep (λ name. not (contains remove name)) current +++ add

-- `sorted(xs - ys)`
unfoldable pub sorted_difference : List String → List String → List String
unfolding sorted_set
sorted_difference xs ys = sorted_set (keep (λ name. not (contains ys name)) xs)

unfoldable pub label_mutation : ℕ → String → String → MutationRecord
unfolding decimal
label_mutation n action name = record {
  resource = "label";
  target = "issue:" ++ (decimal n ++ (":" ++ name));
  action = action;
  result_id = none;
}

-- the removals before the additions
unfoldable pub label_mutations : ℕ → List String → List String → List MutationRecord
unfolding sorted_difference label_mutation
label_mutations n current desired =
    map (label_mutation n "remove") (sorted_difference current desired)
    +++ map (label_mutation n "add") (sorted_difference desired current)

-- `[a-z0-9]`, `[a-z0-9:_-]*` and `_MARKER`
abbrev is_mark_start : ℕ → Bool
is_mark_start n = leb b'a' n && leb n b'z' || leb b'0' n && leb n b'9'

unfoldable pub marker_rest : String → Bool
marker_rest String.[] = true
marker_rest (String.◌∷◌ c s) =
    (is_mark_start (code c) || any (λ n. code c == n) (b':' ∷ b'_' ∷ b'-' ∷ [])) && marker_rest s

unfoldable pub is_marker : String → Bool
unfolding marker_rest
is_marker String.[] = false
is_marker (String.◌∷◌ c s) = is_mark_start (code c) && marker_rest s

-- `f"<!-- {marker} -->"`
abbrev pub opening : String → String
opening marker = "<!-- " ++ (marker ++ " -->")

-- `rendered`
unfoldable pub rendered_comment : String → String → String
rendered_comment marker body = opening marker ++ ("\n" ++ body)

-- `item.get("body")` where it is a text; what else `str` prints starts no comment
abbrev pub body_of : Option Json → Option String
body_of (some (text s)) = some s
body_of _ = none

abbrev starts_with : String → Option String → Bool
starts_with marker none = false
starts_with marker (some s) = starts s (opening marker)

-- `matches`
unfoldable pub managed : List Fields → String → List Fields
unfolding lookup starts
managed comments marker = keep (λ fs. starts_with marker (body_of (lookup fs "body"))) comments

unfoldable pub comment_mutation : ℕ → String → String → ℕ → MutationRecord
unfolding decimal
comment_mutation n marker action id = record {
  resource = "comment";
  target = "pr:" ++ (decimal n ++ (":" ++ marker));
  action = action;
  result_id = some (decimal id);
}

module _ {Bytes : Type 0} (m : Machine Bytes) (raw_decode : String → Option (Json × String)) where
  -- the labels change, or are as they shall be
  unfoldable pub change_labels : ℕ → List String → List String → Shell Bytes (List MutationRecord)
  unfolding same_set decode label_mutations sorted_set
  change_labels n current desired = if same_set desired current then give [] else (do
    result ← sh m (put_labels n (sorted_set desired))
    _ ← lift (decode m result "GITHUB_API_FAILED")
    give (label_mutations n current desired))

  -- `set_issue_labels`
  unfoldable pub set_issue_labels :
      ℕ → List String → List String → Shell Bytes (List MutationRecord)
  unfolding decode items lookup label_names change_labels desired_labels
  set_issue_labels n add remove = do
    _ ← stop_if (n == 0) (other "ValueError")
    result ← sh m (get_issue n)
    answer ← lift (decode m result "GITHUB_API_FAILED")
    fs ← fields_of m answer
    current ← lift (label_names (items (lookup fs "labels")))
    change_labels n current (desired_labels current add remove)

  -- the managed comment has an identifier
  unfoldable pub patch_unless : ℕ → String → String → ℕ → Option String → Shell Bytes MutationRecord
  unfolding comment_mutation decode
  patch_unless n marker rendered id body =
      if opt_str_eq body (some rendered) then give (comment_mutation n marker "noop" id) else (do
        result ← sh m (patch_comment id rendered)
        _ ← lift (decode m result "GITHUB_API_FAILED")
        give (comment_mutation n marker "update" id))

  -- the one managed comment is there
  unfoldable pub update_comment : ℕ → String → String → Fields → Shell Bytes MutationRecord
  unfolding required_int lookup patch_unless
  update_comment n marker rendered fs = do
    id ← lift (required_int m.int_of (lookup fs "id"))
    patch_unless n marker rendered id (body_of (lookup fs "body"))

  -- on the managed comments
  unfoldable pub write_comment : ℕ → String → String → List Fields → Shell Bytes MutationRecord
  unfolding decode created_id comment_mutation update_comment
  write_comment n marker rendered [] = do
    result ← sh m (post_comment n rendered)
    answer ← lift (decode m result "GITHUB_API_FAILED")
    id ← lift (created_id m answer)
    give (comment_mutation n marker "create" id)
  write_comment n marker rendered (fs ∷ []) = update_comment n marker rendered fs
  write_comment n marker rendered (fs ∷ gs ∷ rest) =
      raise (workflow (conflict_error "MULTIPLE_MANAGED_COMMENTS"))

  -- `upsert_pr_comment`
  unfoldable pub upsert_pr_comment : ℕ → String → String → Shell Bytes MutationRecord
  unfolding is_marker decode_paginated items managed rendered_comment write_comment
  upsert_pr_comment n marker body = do
    _ ← stop_if (n == 0) (other "ValueError")
    _ ← stop_if (not (is_marker marker)) (other "ValueError")
    result ← sh m (get_comments n)
    answer ← lift (decode_paginated raw_decode result "GITHUB_API_FAILED")
    write_comment n marker (rendered_comment marker body) (managed (items (some answer)) marker)
