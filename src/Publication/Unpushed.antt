-- ===== src/Publication/Unpushed.antt =====
-- src/ard_ossie/application/release_publication.py: a tag that the clone knows is never pushed,
-- whether or not the remote side has it.
use ard_ossie_provider.Prelude.{
  ◌≡◌, refl, ok_injective, ap₂, subst, Bool, true, false, ◌||◌, Option, none, some, List, [], ◌∷◌,
  ◌++◌, String, ok, arith, ◌==◌,
}
use ard_ossie_provider.Prelude.Text.{str_eq, contains}
use text.Mathlib.TextPositions.{eq_refl}
use Prim.Native.String.{◌++◌ as ◌+++◌}
use ard_ossie_provider.Publication.Guarded.{Emits-guarded}
use ard_ossie_provider.Prelude.Dict.{Dict, get, put, get-put}
use ard_ossie_provider.Release.{ReleasePlan, decimal}
use ard_ossie_provider.Shell.{
  ProcessFailure, timed_out, not_started, answered, Machine, succeeded, CommandResult, Raised,
  Command, rev_parse_tag, push_refs, sh,
}
use ard_ossie_provider.Shell.Git.{tag_target, read_target, push_tags}
use ard_ossie_provider.Shell.Reads.{is_read, Emits-create_annotated_tag}
use ard_ossie_provider.Shell.Uploads.{Emits-upsert_release}
use ard_ossie_provider.Shell.Emits.{
  Emits, Extends, Returns, Emits-bind, Emits-bind-of, Emits-give, Returns-bind, Returns-bind-lift,
  Returns-bind-of, Returns-give, Returns-if, Returns-raise, Returns-weaken,
}
use ard_ossie_provider.Publication.{Request, Ports, Prepared, tags_of}
use ard_ossie_provider.Publication.Run.{
  targets_of, check_remote, prepare, create_one, create_tags, publish_remote, publish, run,
}
use ard_ossie_provider.Publication.Bundles.{or_conflict-ok}
use ard_ossie_provider.Publication.Quiet.{Emits-prepare}

-- `existing_targets[tag] is not None`
abbrev is_known : Option (Option String) → Bool
is_known (some (some _)) = true
is_known _ = false

abbrev is_push : {Bytes : Type 0} → Command Bytes → Bool
is_push (push_refs _) = true
is_push _ = false

abbrev pub IsNoPush : {Bytes : Type 0} → Command Bytes → Type 0
IsNoPush c = is_push c ≡ false

module _ {Bytes : Type 0} (m : Machine Bytes) where
  reads-IsNoPush : (c : Command Bytes) → is_read c ≡ true → IsNoPush c
  reads-IsNoPush c h = ground arith

  -- git resolves the tag, whatever was run before
  abbrev pub IsInClone : String → Type 0
  IsInClone tag = (log : List (Command Bytes)) → (m.reply (rev_parse_tag tag ∷ log)).returncode ≡ 0

  Returns-sh :
      (P : CommandResult → Type 0) (c : Command Bytes)
      → ((log : List (Command Bytes)) → P (m.reply (c ∷ log)))
      → Returns P (sh m c)
  unfolding sh answered
  Returns-sh P c h = record {
    value = λ log a e. split (m.failure (c ∷ log)) (m.reply (c ∷ log)) a (h log) e;
  }
    where
      split : (o : Option ProcessFailure) (r a : CommandResult) → P r → answered o r ≡ ok a → P a
      split none r a p e = subst P (ok_injective {E = Raised} r a e) p
      split (some timed_out) r a p e = cc
      split (some not_started) r a p e = cc

  read_target-known :
      (r : CommandResult)
      → r.returncode ≡ 0
      → Returns (λ o. is_known (some o) ≡ true) (read_target m r)
  unfolding read_target
  read_target-known r h =
      Returns-if (r.returncode == 1) _ _ (λ e. absurd (ground (arith, e, h)))
        λ _.
          Returns-if (succeeded r) _ _
            (λ _. Returns-bind-lift _ _ (λ sha _. Returns-give (some sha) refl))
            λ e. Returns-raise _

  tag_target-known :
      (tag : String) → IsInClone tag → Returns (λ o. is_known (some o) ≡ true) (tag_target m tag)
  unfolding tag_target
  tag_target-known tag h = Returns-bind _ _ λ _.
      Returns-bind-of (λ (r : CommandResult). r.returncode ≡ 0) _ _ (Returns-sh _ _ h)
        λ r hr. read_target-known r hr

  -- each of these tags is among the targets, with a commit
  abbrev AllKnown : (String → Bool) → Dict (Option String) → Type 0
  AllKnown these targets = (tag : String) → these tag ≡ true → is_known (get targets tag) ≡ true

  put-AllKnown :
      (these : String → Bool) (targets : Dict (Option String)) (tag : String) (o : Option String)
      → AllKnown these targets
      → is_known (some o) ≡ true
      → AllKnown (λ t. str_eq tag t || these t) (put targets tag o)
  put-AllKnown these targets tag o h k t e = ground (arith, get-put targets tag t o, h t)

  targets_of-AllKnown :
      (these : String → Bool) (tags : List String) (targets : Dict (Option String))
      → ((tag : String) → contains tags tag ≡ true → IsInClone tag)
      → AllKnown these targets
      → Returns (AllKnown (λ t. contains tags t || these t)) (targets_of m tags targets)
  unfolding targets_of
  targets_of-AllKnown these [] targets h k = Returns-give targets k
  targets_of-AllKnown these (tag ∷ tags) targets h k =
      Returns-bind-of (λ o. is_known (some o) ≡ true) _ _
        (tag_target-known tag (h tag (ground (arith, eq_refl tag))))
        λ o ho.
          Returns-weaken (AllKnown (λ t. contains tags t || (str_eq tag t || these t)))
            (AllKnown (λ t. contains (tag ∷ tags) t || these t))
            (targets_of m tags (put targets tag o)) (λ d hd t e. hd t (ground (arith, e)))
            (targets_of-AllKnown (λ t. str_eq tag t || these t) tags (put targets tag o)
              (λ t e. h t (ground (arith, e))) (put-AllKnown these targets tag o k ho))

  create_one-none :
      (current tag : String) (o : Option (Option String))
      → is_known o ≡ true
      → Returns (λ ts. ts ≡ []) (create_one m current tag o)
  unfolding create_one
  create_one-none current tag none h = cc
  create_one-none current tag (some none) h = cc
  create_one-none current tag (some (some target)) h = Returns-give [] refl

  Emits-create_one :
      (current tag : String) (o : Option (Option String))
      → Emits IsNoPush (create_one m current tag o)
  unfolding create_one
  Emits-create_one current tag (some (some target)) = Emits-give []
  Emits-create_one current tag (some none) =
      Emits-bind _ _
        (Emits-create_annotated_tag m reads-IsNoPush (refl, refl) tag current (λ sha e. refl))
        λ _. Emits-give (tag ∷ [])
  Emits-create_one current tag none =
      Emits-bind _ _
        (Emits-create_annotated_tag m reads-IsNoPush (refl, refl) tag current (λ sha e. refl))
        λ _. Emits-give (tag ∷ [])

  Emits-create_tags :
      (current : String) (targets : Dict (Option String)) (tags : List String)
      → Emits IsNoPush (create_tags m current targets tags)
  unfolding create_tags
  Emits-create_tags current targets [] = Emits-give []
  Emits-create_tags current targets (tag ∷ tags) =
      Emits-bind _ _ (Emits-create_one current tag (get targets tag)) λ new.
        Emits-bind _ _ (Emits-create_tags current targets tags) λ rest. Emits-give (new ++ rest)

  create_tags-none :
      (current : String) (targets : Dict (Option String)) (tags : List String)
      → AllKnown (contains tags) targets
      → Returns (λ ts. ts ≡ []) (create_tags m current targets tags)
  unfolding create_tags
  create_tags-none current targets [] h = Returns-give [] refl
  create_tags-none current targets (tag ∷ tags) h =
      Returns-bind-of (λ ts. ts ≡ []) _ _
        (create_one-none current tag (get targets tag) (h tag (ground (arith, eq_refl tag))))
        λ new hn.
          Returns-bind-of (λ ts. ts ≡ []) _ _
            (create_tags-none current targets tags (λ t e. h t (ground (arith, e))))
            λ rest hr. Returns-give (new ++ rest) (ap₂ ◌++◌ hn hr)

  Emits-push_none : Emits IsNoPush (push_tags m [])
  unfolding push_tags
  Emits-push_none = Emits-give tt

  Emits-publish_remote :
      (p : Prepared Bytes) (new_tags : List String)
      → new_tags ≡ []
      → Emits IsNoPush (publish_remote m p new_tags)
  unfolding publish_remote
  Emits-publish_remote p [] h = Emits-bind _ _ Emits-push_none λ _.
      Emits-upsert_release m reads-IsNoPush p.plan.product_tag
        (p.plan.product_key +++ (" v" +++ decimal p.plan.product_version)) p.asset_name p.payload
        refl refl refl refl (λ id. refl) p.artifact_sha256
  Emits-publish_remote p (t ∷ ts) h = cc

  -- what the checks give where git knows every tag of the plan
  abbrev HasKnownTags : Prepared Bytes → Type 0
  HasKnownTags p = AllKnown (contains (tags_of p.plan)) p.targets

  check_remote-HasKnownTags :
      (ports : Ports Bytes) (request : Request) (plan : ReleasePlan) (artifact : String)
      (payload : Bytes)
      → ((tag : String) → contains (tags_of plan) tag ≡ true → IsInClone tag)
      → Returns HasKnownTags (check_remote m ports request plan artifact payload)
  unfolding check_remote
  check_remote-HasKnownTags ports request plan artifact payload h = Returns-bind _ _ λ _.
      Returns-bind-of (AllKnown (λ t. contains (tags_of plan) t || false)) _ _
        (targets_of-AllKnown (λ _. false) (tags_of plan) [] h (λ t e. cc))
        λ targets k. Returns-bind _ _ λ _. Returns-bind _ _ λ _.
          Returns-bind _ _
            λ _. Returns-bind _ _ λ _. Returns-give _ (λ t e. k t (ground (arith, e)))

  prepare-HasKnownTags :
      (ports : Ports Bytes) (request : Request)
      → ((plan : ReleasePlan) (tag : String)
          → ports.plan_resolver request ≡ ok plan
          → contains (tags_of plan) tag ≡ true
          → IsInClone tag)
      → Returns HasKnownTags (prepare m ports request)
  unfolding prepare
  prepare-HasKnownTags ports request h = Returns-bind _ _ λ _. Returns-bind _ _ λ _.
      Returns-bind _ _ λ _. Returns-bind-lift _ _ λ plan e. Returns-bind _ _ λ _.
        Returns-bind _ _ λ artifact. Returns-bind _ _ λ payload.
          check_remote-HasKnownTags ports request plan artifact payload
            (λ tag. h plan tag (or_conflict-ok _ plan e))

  Emits-publish :
      (request : Request) (p : Prepared Bytes)
      → HasKnownTags p
      → Emits IsNoPush (publish m request p)
  unfolding publish
  Emits-publish request p h =
      Emits-bind-of (λ ts. ts ≡ []) _ _
        (create_tags-none request.current p.targets (tags_of p.plan) h)
        (Emits-create_tags request.current p.targets (tags_of p.plan))
        λ new_tags e.
          Emits-bind _ _ (Emits-guarded m _ _ _ _ (Emits-publish_remote p new_tags e))
            λ mutation. Emits-give _

  -- Where git resolves every tag of the plan in the clone, whatever was run before, a publication
  -- pushes no tag.
  pub known_tags_unpushed :
      (ports : Ports Bytes) (request : Request) (log : List (Command Bytes))
      → ((plan : ReleasePlan) (tag : String)
          → ports.plan_resolver request ≡ ok plan
          → contains (tags_of plan) tag ≡ true
          → IsInClone tag)
      → Extends IsNoPush log (run m ports request log).1
  unfolding run
  known_tags_unpushed ports request log h =
      (Emits-bind-of HasKnownTags _ _ (prepare-HasKnownTags ports request h)
          (Emits-prepare m reads-IsNoPush ports request) (Emits-publish request)).at
        log
