-- ===== src/Shell/Reads.antt =====
-- src/ard_ossie/adapters: what the methods of the adapters run.
use ard_ossie_provider.Prelude.{
  ◌≡◌, refl, ℕ, Bool, true, false, Option, none, some, List, [], ◌∷◌, String, ok,
}
use ard_ossie_provider.Json.{Json, object, Fields}
use ard_ossie_provider.Shell.{
  Machine, CommandResult, Command, rev_parse_head, rev_parse_tag, set_user_name, set_user_email,
  make_tag, push_refs, merge_base, get_release_by_tag, get_pull, get_commit_status, get_issue,
  get_comments,
}
use ard_ossie_provider.Shell.Git.{
  run_required, current_sha, read_target, tag_target, create_absent_tag, create_unless,
  create_annotated_tag, validate_refs, push_some, push_tags, is_ancestor,
}
use ard_ossie_provider.Shell.Text.{git_sha}
use ard_ossie_provider.Shell.Pulls.{fields_of, get_pr, get_status, read_pull}
use ard_ossie_provider.Shell.Release.{get_release}
use ard_ossie_provider.Shell.Emits.{Emits, emits_rules, Emits-bind-lift, Emits-bind, Emits-stop_if}

-- the commands that change nothing
abbrev pub is_read : {Bytes : Type 0} → Command Bytes → Bool
is_read rev_parse_head = true
is_read (rev_parse_tag _) = true
is_read (merge_base _ _) = true
is_read (get_release_by_tag _) = true
is_read (get_pull _) = true
is_read (get_commit_status _) = true
is_read (get_issue _) = true
is_read (get_comments _) = true
is_read _ = false

module _ {Bytes : Type 0} (m : Machine Bytes) {Q : Command Bytes → Type 0} where
  pub Emits-run_required :
      (c : Command Bytes) (code : String) → Q c → Emits Q (run_required m c code)
  unfolding run_required
  Emits-run_required c code q = search emits_rules

  module _ (reads : (c : Command Bytes) → is_read c ≡ true → Q c) where
    pub Emits-current_sha : Emits Q (current_sha m)
    unfolding current_sha
    Emits-current_sha = search (emits_rules, Emits-run_required, reads rev_parse_head refl)

    pub Emits-read_target : (r : CommandResult) → Emits Q (read_target m r)
    unfolding read_target
    Emits-read_target r = search emits_rules

    pub Emits-tag_target : (tag : String) → Emits Q (tag_target m tag)
    unfolding tag_target
    Emits-tag_target tag = search (emits_rules, Emits-read_target, reads (rev_parse_tag tag) refl)

    pub Emits-is_ancestor : (a d : String) → Emits Q (is_ancestor m a d)
    unfolding is_ancestor
    Emits-is_ancestor a d = search (emits_rules)

    pub Emits-get_release : (tag : String) → Emits Q (get_release m tag)
    unfolding get_release
    Emits-get_release tag = search (emits_rules, reads (get_release_by_tag tag) refl)

    pub Emits-fields_of : (j : Json) → Emits Q (fields_of m j)
    Emits-fields_of (object fs) = search emits_rules
    Emits-fields_of _ = search emits_rules

    pub Emits-read_pull : (fs : Fields) → Emits Q (read_pull m fs)
    unfolding read_pull
    Emits-read_pull fs = search emits_rules depth 16

    pub Emits-get_pr : (n : ℕ) → Emits Q (get_pr m n)
    unfolding get_pr
    Emits-get_pr n = search (emits_rules, Emits-fields_of, Emits-read_pull, reads (get_pull n) refl)

    pub Emits-get_status : (sha context : String) → Emits Q (get_status m sha context)
    unfolding get_status
    Emits-get_status sha context = search (emits_rules, Emits-fields_of)

    -- the methods that make and push tags
    module _ (names : Q set_user_name × Q set_user_email) where
      Emits-create_unless :
          (tag sha : String) (o : Option String)
          → Q (make_tag tag sha)
          → Emits Q (create_unless m tag sha o)
      unfolding create_unless create_absent_tag
      Emits-create_unless tag sha none q =
          search (emits_rules, Emits-run_required, Emits-tag_target, names.0, names.1)
      Emits-create_unless tag sha (some s) q = search emits_rules

      pub Emits-create_annotated_tag :
          (tag target : String)
          → ((sha : String) → git_sha m.casefold target ≡ ok sha → Q (make_tag tag sha))
          → Emits Q (create_annotated_tag m tag target)
      unfolding create_annotated_tag
      Emits-create_annotated_tag tag target q =
          search (emits_rules, Emits-bind-lift, Emits-tag_target, made)
        where
          made :
              (sha : String) (o : Option String)
              → git_sha m.casefold target ≡ ok sha
              → Emits Q (create_unless m tag sha o)
          made sha o e = Emits-create_unless tag sha o (q sha e)

  Emits-validate_refs : (refs : List String) → Emits Q (validate_refs m refs)
  unfolding validate_refs
  Emits-validate_refs [] = search emits_rules
  Emits-validate_refs (ref ∷ refs) =
      Emits-bind _ _ (Emits-stop_if _ _) (λ _. Emits-validate_refs refs)

  pub Emits-push_tags : (tags : List String) → Q (push_refs tags) → Emits Q (push_tags m tags)
  unfolding push_tags push_some
  Emits-push_tags [] q = search emits_rules
  Emits-push_tags (tag ∷ tags) q = search (emits_rules, Emits-validate_refs)
