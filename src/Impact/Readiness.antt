-- ===== src/Impact/Readiness.antt =====
-- src/ard_ossie/impact.py: `ChangeSetRecord` over any sequence of readiness reports.
use ard_ossie_provider.Prelude.{
  ℕ, ◌≡◌, refl, sym, ap, fun_ext, ap₂, ◌∙◌, ◌↔◌, Bool, true, ◌&&◌, ◌||◌, List, [], ◌∷◌, String, ltb,
  all, any, arith, Result, ok, err, eq_iff,
}
use ard_ossie_provider.Prelude.Text.{str_eq, contains, all_of_contains, all_from_contains}
use ard_ossie_provider.Prelude.Dict.{keys, contains-keys-put}
use ard_ossie_provider.Models.Patterns.{is_version, is_commit_sha}
use ard_ossie_provider.Impact.{ready, ChangeSetRecord, status, ReadyError, mark_ready, same_set}

-- a report that a product is ready: the arguments of `mark_ready`
pub record Mark : Type 0 where
  pub product_id : String
  pub version : ℕ
  pub pr_number : ℕ
  pub head_sha : String

-- what an assignment leaves: an error is raised before anything is written
abbrev pub after : ChangeSetRecord → Result ReadyError ChangeSetRecord → ChangeSetRecord
after c (ok c') = c'
after c (err e) = c

unfoldable pub mark_all : ChangeSetRecord → List Mark → ChangeSetRecord
unfolding mark_ready
mark_all c [] = c
mark_all c (m ∷ ms) =
    mark_all (after c (mark_ready c m.product_id m.version m.pr_number m.head_sha)) ms

-- a report that names a required product and is well formed
abbrev pub is_accepted : List String → Mark → Bool
is_accepted required m =
    contains required m.product_id
    && (is_version m.version && ltb 0 m.pr_number && is_commit_sha m.head_sha)

abbrev step : ChangeSetRecord → Mark → ChangeSetRecord
step c m = after c (mark_ready c m.product_id m.version m.pr_number m.head_sha)

required-step :
    (c : ChangeSetRecord) (m : Mark) → (step c m).required_product_ids ≡ c.required_product_ids
unfolding mark_ready
required-step c m = ground arith

keys-step :
    (c : ChangeSetRecord) (m : Mark) (p : String)
    → contains (keys (step c m).ready_products) p ≡ (
        is_accepted c.required_product_ids m && str_eq m.product_id p
        || contains (keys c.ready_products) p)
unfolding mark_ready
keys-step c m p = ground (
  arith,
  contains-keys-put c.ready_products m.product_id p
      (record { version = m.version; pr_number = m.pr_number; head_sha = m.head_sha }),
)

required-mark_all :
    (c : ChangeSetRecord) (ms : List Mark)
    → (mark_all c ms).required_product_ids ≡ c.required_product_ids
unfolding mark_all
required-mark_all c [] = refl
required-mark_all c (m ∷ ms) = required-mark_all (step c m) ms ∙ required-step c m

-- `p` has an accepted report
abbrev pub is_marked : List String → List Mark → String → Bool
is_marked required ms p = any (λ (m : Mark). is_accepted required m && str_eq m.product_id p) ms

keys-mark_all :
    (c : ChangeSetRecord) (ms : List Mark) (p : String)
    → contains (keys (mark_all c ms).ready_products) p
      ≡ (is_marked c.required_product_ids ms p || contains (keys c.ready_products) p)
unfolding mark_all
keys-mark_all c [] p = refl
keys-mark_all c (m ∷ ms) p = ground (
  arith,
  keys-mark_all (step c m) ms p,
  keys-step c m p,
  ap (λ r. is_marked r ms p) (required-step c m),
)

-- every product that is ready is required
abbrev pub IsSound : ChangeSetRecord → Type 0
IsSound c = all (contains c.required_product_ids) (keys c.ready_products) ≡ true

marked-required :
    (required : List String) (ms : List Mark) (p : String)
    → is_marked required ms p ≡ true
    → contains required p ≡ true
marked-required required [] p h = ground arith
marked-required required (m ∷ ms) p h =
    ground (arith, marked-required required ms p, eq_iff m.product_id p, ap (contains required))

-- No sequence of reports, refused ones included, makes a product ready that is not required.
mark_all-IsSound : (c : ChangeSetRecord) (ms : List Mark) → IsSound c → IsSound (mark_all c ms)
mark_all-IsSound c ms h = rw (required-mark_all c ms) (
    all_from_contains (contains c.required_product_ids) (keys (mark_all c ms).ready_products) λ p k.
      ground (
        arith,
        keys-mark_all c ms p,
        marked-required c.required_product_ids ms p,
        all_of_contains (contains c.required_product_ids) (keys c.ready_products) p h,
      ))

status_sound_iff :
    (c : ChangeSetRecord)
    → IsSound c
    → (status c ≡ ready) ↔ (all (contains (keys c.ready_products)) c.required_product_ids ≡ true)
unfolding status
status_sound_iff c h = ground arith

keys_fresh :
    (c : ChangeSetRecord) (ms : List Mark)
    → c.ready_products ≡ []
    → contains (keys (mark_all c ms).ready_products) ≡ is_marked c.required_product_ids ms
keys_fresh c ms h =
    fun_ext λ p. ground (arith, keys-mark_all c ms p, ap (λ d. contains (keys d) p) h)

-- A changeset that starts with no product ready is ready after a sequence of reports exactly if
-- every required product has an accepted report in it, in whatever order they came.
pub status-mark_all_iff :
    (c : ChangeSetRecord) (ms : List Mark)
    → c.ready_products ≡ []
    → (status (mark_all c ms) ≡ ready)
      ↔ (all (is_marked c.required_product_ids ms) c.required_product_ids ≡ true)
status-mark_all_iff c ms h =
    let same : all (contains (keys (mark_all c ms).ready_products))
          (mark_all c ms).required_product_ids
        ≡ all (is_marked c.required_product_ids ms) c.required_product_ids =
      ap₂ all (keys_fresh c ms h) (required-mark_all c ms) in
    rw same at (status_sound_iff (mark_all c ms) (mark_all-IsSound c ms (rw h refl)))

-- `set(xs) == set(ys)` exactly if the sequences have the same elements
pub same_set_iff :
    (xs ys : List String) → (same_set xs ys ≡ true) ↔ ((a : String) → contains xs a ≡ contains ys a)
unfolding same_set
same_set_iff xs ys = (
  λ h a. ground (arith, all_of_contains (contains ys) xs a, all_of_contains (contains xs) ys a, h),
  λ h. ground (
    arith,
    all_from_contains (contains ys) xs (λ a k. sym (h a) ∙ k),
    all_from_contains (contains xs) ys (λ a k. h a ∙ k),
  ),
)
