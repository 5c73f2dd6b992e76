-- ===== src/Publication/Safe.antt =====
-- src/ard_ossie/application/release_publication.py: whatever the programs answer, a publication
-- runs no command that its plan does not name.
use ard_ossie_provider.Prelude.{
  ◌≡◌, refl, Bool, true, Option, none, some, List, [], ◌∷◌, ◌++◌, String, ok, arith, all, all,
}
use Prim.Native.String.{◌++◌ as ◌+++◌}
use ard_ossie_provider.Prelude.Text.{contains, all_from_contains}
use ard_ossie_provider.Prelude.Dict.{Dict, get}
use ard_ossie_provider.Release.{ReleasePlan, decimal}
use ard_ossie_provider.Release.Bundle.{verify_release_bundle}
use ard_ossie_provider.Shell.{
  Machine, Command, push_refs, patch_release, post_release, upload_asset, stage, unstage,
  set_user_name, set_user_email, make_tag,
}
use ard_ossie_provider.Shell.Text.{git_sha}
use ard_ossie_provider.Shell.Reads.{is_read, Emits-create_annotated_tag, Emits-push_tags}
use ard_ossie_provider.Shell.Uploads.{Emits-upsert_release}
use ard_ossie_provider.Shell.Emits.{
  Emits, Extends, Returns, Emits-bind, Emits-bind-of, Emits-give, Returns-bind, Returns-bind-lift,
  Returns-bind-of, Returns-give, Returns-now,
}
use ard_ossie_provider.Publication.{Request, Ports, Prepared, tags_of, bundle_name, verified_bytes}
use ard_ossie_provider.Publication.Run.{
  build_bundle, check_remote, prepare, create_one, create_tags, publish_remote, publish, run,
}
use ard_ossie_provider.Publication.Guarded.{Emits-guarded}
use ard_ossie_provider.Publication.Bundles.{verified_bytes-verify, or_conflict-ok}
use ard_ossie_provider.Publication.Quiet.{Emits-prepare}

module _ {Bytes : Type 0} (m : Machine Bytes) (ports : Ports Bytes) (request : Request) where
  -- the plan that the resolver gives for the request
  abbrev IsPlan : ReleasePlan → Type 0
  IsPlan plan = ports.plan_resolver request ≡ ok plan

  -- bytes that are a bundle with exactly the files and hashes of the plan
  abbrev IsBundle : ReleasePlan → Bytes → Type 0
  IsBundle plan bytes =
      verify_release_bundle m.sha256 ports.open_zip bytes plan.artifact_hashes ≡ ok bytes

  -- the commands that the plan allows: tags of the plan at the requested commit and their pushing,
  -- the release of the product's tag under its title, the staging and the upload of a bundle of the
  -- plan, and the name and address of the tagger; besides these only what changes nothing
  abbrev pub IsPermitted : Command Bytes → Type 0
  IsPermitted (make_tag tag target) =
      (plan : ReleasePlan) × IsPlan plan
      × (contains (tags_of plan) tag ≡ true)
      × (git_sha m.casefold request.current ≡ ok target)
  IsPermitted (push_refs tags) =
      (plan : ReleasePlan) × IsPlan plan × (all (contains (tags_of plan)) tags ≡ true)
  IsPermitted (post_release tag title) =
      (plan : ReleasePlan) × IsPlan plan
      × (tag ≡ plan.product_tag)
      × (title ≡ plan.product_key +++ (" v" +++ decimal plan.product_version))
  IsPermitted (patch_release id title) =
      (plan : ReleasePlan) × IsPlan plan
      × (title ≡ plan.product_key +++ (" v" +++ decimal plan.product_version))
  IsPermitted (upload_asset tag name bytes) =
      (plan : ReleasePlan) × IsPlan plan
      × (tag ≡ plan.product_tag)
      × (name ≡ bundle_name plan)
      × IsBundle plan bytes
  IsPermitted (stage name bytes) =
      (plan : ReleasePlan) × IsPlan plan × (name ≡ bundle_name plan) × IsBundle plan bytes
  IsPermitted unstage = (plan : ReleasePlan) × IsPlan plan
  IsPermitted set_user_name = (plan : ReleasePlan) × IsPlan plan
  IsPermitted set_user_email = (plan : ReleasePlan) × IsPlan plan
  IsPermitted c = is_read c ≡ true

  reads-IsPermitted : (c : Command Bytes) → is_read c ≡ true → IsPermitted c
  reads-IsPermitted (make_tag _ _) h = ground (arith, h)
  reads-IsPermitted (push_refs _) h = ground (arith, h)
  reads-IsPermitted (post_release _ _) h = ground (arith, h)
  reads-IsPermitted (patch_release _ _) h = ground (arith, h)
  reads-IsPermitted (upload_asset _ _ _) h = ground (arith, h)
  reads-IsPermitted (stage _ _) h = ground (arith, h)
  reads-IsPermitted unstage h = ground (arith, h)
  reads-IsPermitted set_user_name h = ground (arith, h)
  reads-IsPermitted set_user_email h = ground (arith, h)
  reads-IsPermitted _ h = h

  -- what the checks give
  record IsPrepared (p : Prepared Bytes) : Type 0 where
    planned : IsPlan p.plan
    named : p.asset_name ≡ bundle_name p.plan
    verified : IsBundle p.plan p.payload

  build_bundle-IsBundle : (plan : ReleasePlan) → Returns (IsBundle plan) (build_bundle m ports plan)
  unfolding build_bundle
  build_bundle-IsBundle plan = Returns-bind _ _ λ _. Returns-bind _ _ λ _. Returns-bind _ _ λ _.
      Returns-now
        (λ log. verified_bytes m ports.open_zip plan.artifact_hashes (ports.bundle_file log))
        λ log b h.
          verified_bytes-verify m ports.open_zip plan.artifact_hashes (ports.bundle_file log) b h

  check_remote-IsPrepared :
      (plan : ReleasePlan) (artifact : String) (payload : Bytes)
      → IsPlan plan
      → IsBundle plan payload
      → Returns IsPrepared (check_remote m ports request plan artifact payload)
  unfolding check_remote
  check_remote-IsPrepared plan artifact payload hp hb = Returns-bind _ _ λ _.
      Returns-bind _ _ λ targets. Returns-bind _ _ λ _. Returns-bind _ _ λ _. Returns-bind _ _ λ _.
        Returns-bind _ _ λ _. Returns-give _ (record { planned = hp; named = refl; verified = hb })

  prepare-IsPrepared : Returns IsPrepared (prepare m ports request)
  unfolding prepare
  prepare-IsPrepared = Returns-bind _ _ λ _. Returns-bind _ _ λ _. Returns-bind _ _ λ _.
      Returns-bind-lift _ _ λ plan e. Returns-bind _ _ λ _. Returns-bind _ _ λ artifact.
        Returns-bind-of (IsBundle plan) _ _ (build_bundle-IsBundle plan)
          λ payload hb. check_remote-IsPrepared plan artifact payload (or_conflict-ok _ plan e) hb

  all-append :
      (test : String → Bool) (xs ys : List String)
      → all test xs ≡ true
      → all test ys ≡ true
      → all test (xs ++ ys) ≡ true
  all-append test [] ys h k = k
  all-append test (x ∷ xs) ys h k = ground (arith, all-append test xs ys)

  module _ (p : Prepared Bytes) (v : IsPrepared p) where
    abbrev IsOfPlan : List String → Type 0
    IsOfPlan tags = all (contains (tags_of p.plan)) tags ≡ true

    make-IsPermitted :
        (tag sha : String)
        → contains (tags_of p.plan) tag ≡ true
        → git_sha m.casefold request.current ≡ ok sha
        → IsPermitted (make_tag tag sha)
    make-IsPermitted tag sha h e = (p.plan, v.planned, h, e)

    Emits-create_one :
        (tag : String) (o : Option (Option String))
        → contains (tags_of p.plan) tag ≡ true
        → Emits IsPermitted (create_one m request.current tag o)
    unfolding create_one
    Emits-create_one tag (some (some target)) h = Emits-give []
    Emits-create_one tag (some none) h =
        Emits-bind _ _
          (Emits-create_annotated_tag m reads-IsPermitted ((p.plan, v.planned), (p.plan, v.planned))
            tag request.current (λ sha e. make-IsPermitted tag sha h e))
          λ _. Emits-give (tag ∷ [])
    Emits-create_one tag none h =
        Emits-bind _ _
          (Emits-create_annotated_tag m reads-IsPermitted ((p.plan, v.planned), (p.plan, v.planned))
            tag request.current (λ sha e. make-IsPermitted tag sha h e))
          λ _. Emits-give (tag ∷ [])

    one-IsOfPlan : (tag : String) → contains (tags_of p.plan) tag ≡ true → IsOfPlan (tag ∷ [])
    one-IsOfPlan tag h = ground arith

    create_one-IsOfPlan :
        (tag : String) (o : Option (Option String))
        → contains (tags_of p.plan) tag ≡ true
        → Returns IsOfPlan (create_one m request.current tag o)
    unfolding create_one
    create_one-IsOfPlan tag (some (some target)) h = Returns-give [] refl
    create_one-IsOfPlan tag (some none) h =
        Returns-bind _ _ λ _. Returns-give (tag ∷ []) (one-IsOfPlan tag h)
    create_one-IsOfPlan tag none h =
        Returns-bind _ _ λ _. Returns-give (tag ∷ []) (one-IsOfPlan tag h)

    first-IsOfPlan :
        (tag : String) (tags : List String)
        → IsOfPlan (tag ∷ tags)
        → (contains (tags_of p.plan) tag ≡ true) × IsOfPlan tags
    first-IsOfPlan tag tags h = ground arith

    Emits-create_tags :
        (targets : Dict (Option String)) (tags : List String)
        → IsOfPlan tags
        → Emits IsPermitted (create_tags m request.current targets tags)
    unfolding create_tags
    Emits-create_tags targets [] h = Emits-give []
    Emits-create_tags targets (tag ∷ tags) h =
        Emits-bind _ _ (Emits-create_one tag (get targets tag) (first-IsOfPlan tag tags h).0) λ new.
          Emits-bind _ _ (Emits-create_tags targets tags (first-IsOfPlan tag tags h).1)
            λ rest. Emits-give (new ++ rest)

    create_tags-IsOfPlan :
        (targets : Dict (Option String)) (tags : List String)
        → IsOfPlan tags
        → Returns IsOfPlan (create_tags m request.current targets tags)
    unfolding create_tags
    create_tags-IsOfPlan targets [] h = Returns-give [] refl
    create_tags-IsOfPlan targets (tag ∷ tags) h =
        Returns-bind-of IsOfPlan _ _
          (create_one-IsOfPlan tag (get targets tag) (first-IsOfPlan tag tags h).0)
          λ new hn.
            Returns-bind-of IsOfPlan _ _
              (create_tags-IsOfPlan targets tags (first-IsOfPlan tag tags h).1)
              λ rest hr. Returns-give (new ++ rest) (all-append _ new rest hn hr)

    Emits-publish_remote :
        (new_tags : List String)
        → IsOfPlan new_tags
        → Emits IsPermitted (publish_remote m p new_tags)
    unfolding publish_remote
    Emits-publish_remote new_tags h =
        Emits-bind _ _ (Emits-push_tags m new_tags (p.plan, v.planned, h)) λ _.
          Emits-upsert_release m reads-IsPermitted p.plan.product_tag
            (p.plan.product_key +++ (" v" +++ decimal p.plan.product_version)) p.asset_name
            p.payload (p.plan, v.planned, v.named, v.verified) (p.plan, v.planned)
            (p.plan, v.planned, refl, v.named, v.verified) (p.plan, v.planned, refl, refl)
            (λ id. (p.plan, v.planned, refl)) p.artifact_sha256

    Emits-publish : Emits IsPermitted (publish m request p)
    unfolding publish
    Emits-publish =
        let whole : IsOfPlan (tags_of p.plan) =
          all_from_contains (contains (tags_of p.plan)) (tags_of p.plan) (λ a k. k) in
        Emits-bind-of IsOfPlan _ _ (create_tags-IsOfPlan p.targets (tags_of p.plan) whole)
          (Emits-create_tags p.targets (tags_of p.plan) whole)
          λ new_tags h.
            Emits-bind _ _ (Emits-guarded m _ _ _ _ (Emits-publish_remote new_tags h))
              λ mutation. Emits-give _

  -- From whatever commands, and whatever the programs answer, `run` runs only commands that the
  -- plan of the request permits, and looks things up; where the resolver gives no plan it changes
  -- nothing.
  pub run-IsPermitted :
      (log : List (Command Bytes)) → Extends IsPermitted log (run m ports request log).1
  unfolding run
  run-IsPermitted log =
      (Emits-bind-of IsPrepared _ _ prepare-IsPrepared
          (Emits-prepare m reads-IsPermitted ports request) (λ p v. Emits-publish p v)).at
        log
