-- ===== src/Shell/Notes.antt =====
-- src/ard_ossie/adapters/github_cli.py: what the methods run that write labels and comments.
use ard_ossie_provider.Prelude.{◌≡◌, refl, ℕ, true, Option, List, [], ◌∷◌, String}
use ard_ossie_provider.Prelude.Sets.{sorted_set}
use ard_ossie_provider.Json.{Json, Fields}
use ard_ossie_provider.Shell.{
  Machine, Command, get_issue, put_labels, get_comments, patch_comment, post_comment,
}
use ard_ossie_provider.Shell.Emits.{Emits, emits_rules}
use ard_ossie_provider.Shell.Reads.{is_read, Emits-fields_of}
use ard_ossie_provider.Shell.Issues.{
  desired_labels, change_labels, set_issue_labels, patch_unless, update_comment, write_comment,
  upsert_pr_comment, rendered_comment,
}

module _ {Bytes : Type 0} (m : Machine Bytes) (raw_decode : String → Option (Json × String))
    {Q : Command Bytes → Type 0} (reads : (c : Command Bytes) → is_read c ≡ true → Q c) where
  Emits-change_labels :
      (n : ℕ) (current desired : List String)
      → Q (put_labels n (sorted_set desired))
      → Emits Q (change_labels m raw_decode n current desired)
  unfolding change_labels
  Emits-change_labels n current desired q = search emits_rules depth 10

  pub Emits-set_issue_labels :
      (n : ℕ) (add remove : List String)
      → ((current : List String)
          → Q (put_labels n (sorted_set (desired_labels current add remove))))
      → Emits Q (set_issue_labels m raw_decode n add remove)
  unfolding set_issue_labels
  Emits-set_issue_labels n add remove q =
      search (emits_rules, Emits-fields_of, Emits-change_labels, q, reads (get_issue n) refl) depth
        14

  module _ (rendered : String) (patches : (id : ℕ) → Q (patch_comment id rendered)) where
    Emits-patch_unless :
        (n : ℕ) (marker : String) (id : ℕ) (body : Option String)
        → Emits Q (patch_unless m raw_decode n marker rendered id body)
    unfolding patch_unless
    Emits-patch_unless n marker id body = search (emits_rules, patches) depth 10

    Emits-write_comment :
        (n : ℕ) (marker : String) (comments : List Fields)
        → Q (post_comment n rendered)
        → Emits Q (write_comment m raw_decode n marker rendered comments)
    unfolding write_comment update_comment
    Emits-write_comment n marker [] q = search emits_rules depth 10
    Emits-write_comment n marker (fs ∷ []) q = search (emits_rules, Emits-patch_unless)
    Emits-write_comment n marker (fs ∷ gs ∷ rest) q = search emits_rules

  pub Emits-upsert_pr_comment :
      (n : ℕ) (marker body : String)
      → Q (post_comment n (rendered_comment marker body))
      → ((id : ℕ) → Q (patch_comment id (rendered_comment marker body)))
      → Emits Q (upsert_pr_comment m raw_decode n marker body)
  unfolding upsert_pr_comment
  Emits-upsert_pr_comment n marker body q patches =
      search (emits_rules, Emits-write_comment, q, patches, reads (get_comments n) refl) depth 12
