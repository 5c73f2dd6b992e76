-- ===== src/Versioning/Exact.antt =====
-- src/ard_ossie/versioning.py: which transitions are allowed, and under which code the others are
-- blocked.
use ard_ossie_provider.Prelude.{
  ℕ, ◌+◌, ◌≤◌, ◌<◌, ◌≡◌, refl, ◌≢◌, ◌↔◌, ◌⊎◌, inl, inr, Bool, true, false, Option, none, some,
  arith, Bool-cases, ◌==◌, leb, ◌&&◌, ok, err,
}
use ard_ossie_provider.Prelude.Int.{ℤ, pos, negsuc}
use ard_ossie_provider.Versioning.{
  allow, VersionCode, version_stale, version_gap, new_v1, version_limit_reached, no_change,
  version_no_change, advance, version_collision, VersionDecision, VersionError,
  current_out_of_range, base_out_of_range, proposed_out_of_range, decide_version, plan_version,
  validate_input_version, opt_eq,
}

-- The transitions that the source means to allow, with no reference to the code's tests.
abbrev pub Allows : Option ℕ → Bool → Option ℕ → Option ℕ → Type 0
Allows none changed base proposed = (base ≡ none) × ((proposed ≡ none) ⊎ (proposed ≡ some 1))
Allows (some c) false base proposed = (base ≡ some c) × ((proposed ≡ none) ⊎ (proposed ≡ some c))
Allows (some c) true base proposed =
    (base ≡ some c) × (c ≢ 999) × ((proposed ≡ none) ⊎ (proposed ≡ some (c + 1)))

-- a version, or none
abbrev pub InRange : Option ℕ → Type 0
InRange none = Unit
InRange (some n) = (1 ≤ n) × (n ≤ 999)

-- an argument that is absent or a version
abbrev pub IsAccepted : Option ℤ → Type 0
IsAccepted none = Unit
IsAccepted (some (pos n)) = (1 ≤ n) × (n ≤ 999)
IsAccepted (some (negsuc n)) = ⊥

abbrev pub lift : Option ℕ → Option ℤ
lift none = none
lift (some n) = some (pos n)

pub plan_version_accepts :
    (current : Option ℕ) (changed : Bool) (base proposed : Option ℕ)
    → InRange current
    → InRange base
    → InRange proposed
    → plan_version (lift current) changed (lift base) (lift proposed)
      ≡ ok (decide_version current changed base proposed)
unfolding plan_version
plan_version_accepts none changed none none h k l = ground arith
plan_version_accepts none changed none (some p) h k l = ground arith
plan_version_accepts none changed (some b) none h k l = ground arith
plan_version_accepts none changed (some b) (some p) h k l = ground arith
plan_version_accepts (some c) changed none none h k l = ground arith
plan_version_accepts (some c) changed none (some p) h k l = ground arith
plan_version_accepts (some c) changed (some b) none h k l = ground arith
plan_version_accepts (some c) changed (some b) (some p) h k l = ground arith

pub decide_version_allow→Allows :
    (current : Option ℕ) (changed : Bool) (base proposed : Option ℕ)
    → (decide_version current changed base proposed).outcome ≡ allow
    → Allows current changed base proposed
unfolding decide_version
decide_version_allow→Allows none changed none none h = ground arith
decide_version_allow→Allows none changed none (some p) h = ground arith
decide_version_allow→Allows none changed (some b) p h = ground arith
decide_version_allow→Allows (some c) false none p h = ground arith
decide_version_allow→Allows (some c) false (some b) none h = ground arith
decide_version_allow→Allows (some c) false (some b) (some p) h = ground arith
decide_version_allow→Allows (some c) true none p h = ground arith
decide_version_allow→Allows (some c) true (some b) none h = ground arith
decide_version_allow→Allows (some c) true (some b) (some p) h = ground arith

pub Allows→decide_version_allow :
    (current : Option ℕ) (changed : Bool) (base proposed : Option ℕ)
    → Allows current changed base proposed
    → (decide_version current changed base proposed).outcome ≡ allow
unfolding decide_version
Allows→decide_version_allow none changed none none h = ground arith
Allows→decide_version_allow none changed none (some p) h = ground arith
Allows→decide_version_allow none changed (some b) p h = ground arith
Allows→decide_version_allow (some c) false none p h = ground arith
Allows→decide_version_allow (some c) false (some b) none h = ground arith
Allows→decide_version_allow (some c) false (some b) (some p) h = ground arith
Allows→decide_version_allow (some c) true none p h = ground arith
Allows→decide_version_allow (some c) true (some b) none h = ground arith
Allows→decide_version_allow (some c) true (some b) (some p) h = ground arith

-- The condition of each code, for each kind of current version.
abbrev pub Explains : VersionCode → Option ℕ → Bool → Option ℕ → Option ℕ → Type 0
Explains version_stale current changed base proposed = base ≢ current
Explains new_v1 current changed base proposed =
    (current ≡ none) × Allows current changed base proposed
Explains no_change current changed base proposed =
    (current ≢ none) × (changed ≡ false) × Allows current changed base proposed
Explains advance current changed base proposed =
    (current ≢ none) × (changed ≡ true) × Allows current changed base proposed
Explains version_limit_reached current changed base proposed =
    (current ≡ some 999) × (changed ≡ true) × (base ≡ current)
Explains version_no_change current changed base proposed =
    (current ≢ none)
    × (changed ≡ false)
    × (base ≡ current)
    × (proposed ≢ none)
    × (proposed ≢ current)
Explains version_gap none changed base proposed =
    (base ≡ none) × (proposed ≢ none) × (proposed ≢ some 1)
Explains version_gap (some n) changed base none = ⊥
Explains version_gap (some n) changed base (some q) =
    (changed ≡ true) × (base ≡ some n) × (n ≢ 999) × (n + 1 < q)
Explains version_collision (some n) changed base (some q) =
    (changed ≡ true) × (base ≡ some n) × (n ≢ 999) × (q ≤ n)
Explains version_collision _ changed base _ = ⊥

explained_new :
    (changed : Bool) (base proposed : Option ℕ)
    → Explains (decide_version none changed base proposed).code none changed base proposed
unfolding decide_version
explained_new changed none none = ground arith
explained_new changed none (some p) = elim (Bool-cases (p == 1)) [
  | inl e ↦ rw e (ground arith)
  | inr e ↦ rw e (ground arith)
]
explained_new changed (some b) p = ground arith

explained_stale :
    (c : ℕ) (changed : Bool) (base proposed : Option ℕ)
    → opt_eq base c ≡ false
    → Explains (decide_version (some c) changed base proposed).code (some c) changed base proposed
unfolding decide_version
explained_stale c changed none p h = ground arith
explained_stale c changed (some b) p h = ground arith

explained_current :
    (c : ℕ) (changed : Bool) (base proposed : Option ℕ)
    → opt_eq base c ≡ true
    → Explains (decide_version (some c) changed base proposed).code (some c) changed base proposed
unfolding decide_version
explained_current c changed none p h = ground arith
explained_current c false (some b) none h = ground arith
explained_current c false (some b) (some p) h = elim (Bool-cases (p == c)) [
  | inl e ↦ rw (h, e) (ground arith)
  | inr e ↦ rw (h, e) (ground arith)
]
explained_current c true (some b) none h = elim (Bool-cases (c == 999)) [
  | inl e ↦ rw (h, e) (ground arith)
  | inr e ↦ rw (h, e) (ground arith)
]
explained_current c true (some b) (some p) h = elim (Bool-cases (c == 999)) [
  | inl e ↦ rw (h, e) (ground arith)
  | inr e ↦ elim (Bool-cases (p == c + 1)) [
    | inl f ↦ rw (h, e, f) (ground arith)
    | inr f ↦ elim (Bool-cases (leb p c)) [
      | inl g ↦ rw (h, e, f, g) (ground arith)
      | inr g ↦ rw (h, e, f, g) (ground arith)
    ]
  ]
]

-- Every decision carries a code whose condition holds of the transition.
pub code_explained :
    (current : Option ℕ) (changed : Bool) (base proposed : Option ℕ)
    → Explains (decide_version current changed base proposed).code current changed base proposed
code_explained none changed base proposed = explained_new changed base proposed
code_explained (some c) changed base proposed = elim (Bool-cases (opt_eq base c)) [
  | inl e ↦ explained_current c changed base proposed e
  | inr e ↦ explained_stale c changed base proposed e
]

expected-InRange :
    (current : Option ℕ) (changed : Bool) (base proposed : Option ℕ)
    → InRange current
    → InRange (decide_version current changed base proposed).expected_version
unfolding decide_version
expected-InRange none changed none p h = ground arith
expected-InRange none changed (some b) p h = ground arith
expected-InRange (some c) false base p h = ground arith
expected-InRange (some c) true base none h = ground arith
expected-InRange (some c) true base (some p) h = ground arith

-- Of versions or absent arguments `plan_version` makes a decision. It allows the transition
-- exactly where the specification does; the code it carries meets its condition; and the expected
-- version is a version or absent.
pub plan_version_exact :
    (current : Option ℕ) (changed : Bool) (base proposed : Option ℕ)
    → InRange current
    → InRange base
    → InRange proposed
    → (d : VersionDecision) × (plan_version (lift current) changed (lift base) (lift proposed)
        ≡ ok d)
      × ((d.outcome ≡ allow) ↔ Allows current changed base proposed)
      × Explains d.code current changed base proposed
      × InRange d.expected_version
plan_version_exact current changed base proposed h k l = (
  decide_version current changed base proposed,
  plan_version_accepts current changed base proposed h k l,
  (
    decide_version_allow→Allows current changed base proposed,
    Allows→decide_version_allow current changed base proposed,
  ),
  code_explained current changed base proposed,
  expected-InRange current changed base proposed h,
)

-- the first argument, in the order of the checks, that is no version
abbrev FirstBad : Option ℤ → Option ℤ → Option ℤ → VersionError → Type 0
FirstBad current base proposed current_out_of_range = ¬ IsAccepted current
FirstBad current base proposed base_out_of_range = IsAccepted current × (¬ IsAccepted base)
FirstBad current base proposed proposed_out_of_range =
    IsAccepted current × IsAccepted base × (¬ IsAccepted proposed)

validate_cases :
    (name : VersionError) (value : Option ℤ)
    → (IsAccepted value × ((v : Option ℕ) × (validate_input_version name value ≡ ok v)))
      ⊎ ((¬ IsAccepted value) × (validate_input_version name value ≡ err name))
unfolding validate_input_version
validate_cases name none = inl (tt, (none, refl))
validate_cases name (some (negsuc n)) = inr (λ h. h, refl)
validate_cases name (some (pos n)) = elim (Bool-cases (leb 1 n && leb n 999)) [
  | inl e ↦ inl (ground arith, (some n, rw e))
  | inr e ↦ inr (λ h. ground arith, rw e)
]

-- `plan_version` raises exactly on an argument that is neither absent nor in 1..999, and the error
-- names the first such argument.
plan_version_error_iff :
    (current : Option ℤ) (changed : Bool) (base proposed : Option ℤ) (e : VersionError)
    → (plan_version current changed base proposed ≡ err e) ↔ FirstBad current base proposed e
unfolding plan_version
plan_version_error_iff current changed base proposed current_out_of_range = ground (
  arith,
  validate_cases current_out_of_range current,
  validate_cases base_out_of_range base,
  validate_cases proposed_out_of_range proposed,
)
plan_version_error_iff current changed base proposed base_out_of_range = ground (
  arith,
  validate_cases current_out_of_range current,
  validate_cases base_out_of_range base,
  validate_cases proposed_out_of_range proposed,
)
plan_version_error_iff current changed base proposed proposed_out_of_range = ground (
  arith,
  validate_cases current_out_of_range current,
  validate_cases base_out_of_range base,
  validate_cases proposed_out_of_range proposed,
)
