-- ===== src/Versioning/History.antt =====
-- src/ard_ossie/versioning.py, over a sequence of plans: an entity's version under allowed
-- transitions, and two writers that start from one base.
use ard_ossie_provider.Prelude.{
  ℕ, ◌+◌, ◌≤◌, ◌≡◌, Bool, true, false, Option, none, some, List, [], ◌∷◌, arith,
}
use ard_ossie_provider.Versioning.{
  allow, block, version_stale, new_v1, advance, VersionDecision, decide_version,
}
use ard_ossie_provider.Versioning.Exact.{InRange}

-- a plan: whether the content changed, the base version and the proposed version
pub record Plan : Type 0 where
  pub changed : Bool
  pub base : Option ℕ
  pub proposed : Option ℕ

abbrev pub decision : Option ℕ → Plan → VersionDecision
decision current p = decide_version current p.changed p.base p.proposed

-- the version after a plan: the expected one where the plan is allowed
pub record_plan : Option ℕ → Plan → Option ℕ
record_plan current p = elim (decision current p).outcome [
  | allow ↦ (decision current p).expected_version
  | block ↦ current
]

pub record_plans : Option ℕ → List Plan → Option ℕ
record_plans current [] = current
record_plans current (p ∷ ps) = record_plans (record_plan current p) ps

-- 1 for a plan that is allowed and makes a new version, else 0
pub advances : Option ℕ → Plan → ℕ
advances current p = elim (decision current p).code [ new_v1 ↦ 1 | advance ↦ 1 | _ ↦ 0 ]

pub count_advances : Option ℕ → List Plan → ℕ
count_advances current [] = 0
count_advances current (p ∷ ps) = advances current p + count_advances (record_plan current p) ps

-- 0 stands for an entity that has no version yet
abbrev pub number : Option ℕ → ℕ
number none = 0
number (some n) = n

abbrev plan_of : Bool → Option ℕ → Option ℕ → Plan
plan_of changed base proposed = record { changed = changed; base = base; proposed = proposed }

-- one plan keeps the range, and raises the number by what it advances
abbrev Counts : Option ℕ → Plan → Type 0
Counts current p =
    InRange (record_plan current p)
    × (number (record_plan current p) ≡ number current + advances current p)
    × (advances current p ≤ 1)

Counts-new :
    (changed : Bool) (base proposed : Option ℕ) → Counts none (plan_of changed base proposed)
unfolding record_plan advances decide_version
Counts-new changed none none = ground arith
Counts-new changed none (some q) = ground arith
Counts-new changed (some b) q = ground arith

Counts-some :
    (c : ℕ) (changed : Bool) (base proposed : Option ℕ)
    → InRange (some c)
    → Counts (some c) (plan_of changed base proposed)
unfolding record_plan advances decide_version
Counts-some c changed none q h = ground arith
Counts-some c false (some b) none h = ground arith
Counts-some c false (some b) (some q) h = ground arith
Counts-some c true (some b) none h = ground arith
Counts-some c true (some b) (some q) h = ground arith

record_plan-Counts : (current : Option ℕ) (p : Plan) → InRange current → Counts current p
record_plan-Counts none p h = Counts-new p.changed p.base p.proposed
record_plan-Counts (some c) p h = Counts-some c p.changed p.base p.proposed h

-- Over any sequence of plans the version stays in 1..999, and its number is the number at the
-- start plus the plans that were allowed as new or as an advance: no number is skipped or reused.
pub record_plans_counts :
    (current : Option ℕ) (ps : List Plan)
    → InRange current
    → InRange (record_plans current ps)
      × (number (record_plans current ps) ≡ number current + count_advances current ps)
unfolding record_plans count_advances
record_plans_counts current [] h = (h, omega arith)
record_plans_counts current (p ∷ ps) h =
    let now = record_plan-Counts current p h in
    let later = record_plans_counts (record_plan current p) ps now.0 in
    (later.0, omega (arith, now.1, later.1))

stale_new :
    (changed : Bool) (base proposed : Option ℕ) (q : Plan)
    → (decide_version none changed base proposed).outcome ≡ allow
    → q.base ≡ base
    → (decision (record_plan none (plan_of changed base proposed)) q).code ≡ version_stale
unfolding record_plan decide_version
stale_new changed none none q h e = ground arith
stale_new changed none (some n) q h e = ground arith
stale_new changed (some b) n q h e = ground arith

stale_some :
    (c : ℕ) (changed : Bool) (base proposed : Option ℕ) (q : Plan)
    → changed ≡ true
    → (decide_version (some c) changed base proposed).outcome ≡ allow
    → q.base ≡ base
    → (decision (record_plan (some c) (plan_of changed base proposed)) q).code ≡ version_stale
unfolding record_plan decide_version
stale_some c false base n q m h e = cc
stale_some c true none n q m h e = ground arith
stale_some c true (some b) none q m h e = ground arith
stale_some c true (some b) (some n) q m h e = ground arith

abbrev pub MakesVersion : Option ℕ → Plan → Type 0
MakesVersion none p = Unit
MakesVersion (some c) p = p.changed ≡ true

-- Of two plans from one base, once the first has made a version the second is stale, whatever it
-- proposes: no update is lost.
second_writer_stale :
    (current : Option ℕ) (p q : Plan)
    → (decision current p).outcome ≡ allow
    → MakesVersion current p
    → q.base ≡ p.base
    → (decision (record_plan current p) q).code ≡ version_stale
second_writer_stale none p q h m e = stale_new p.changed p.base p.proposed q h e
second_writer_stale (some c) p q h m e = stale_some c p.changed p.base p.proposed q m h e
