-- ===== src/Versioning/Tests.antt =====
-- Runs of src/ard_ossie/versioning.py, and its theorems at concrete inputs.
use ard_ossie_provider.Prelude.{◌≡◌, refl, true, none, some, arith, ok, err, ◌↔◌}
use ard_ossie_provider.Prelude.Int.{pos, negsuc}
use ard_ossie_provider.Versioning.{
  allow, block, version_gap, version_limit_reached, VersionDecision, base_out_of_range,
  plan_version, decide_version,
}
use ard_ossie_provider.Versioning.Exact.{Allows, Explains, InRange, lift, plan_version_exact}

abbrev gap : VersionDecision
gap = record {
  outcome = block;
  code = version_gap;
  current_version = some 4;
  base_version = some 4;
  proposed_version = some 7;
  expected_version = some 5;
  changed = true;
}

plan_version-gap : plan_version (some (pos 4)) true (some (pos 4)) (some (pos 7)) ≡ ok gap
unfolding plan_version
plan_version-gap = refl

plan_version-negative : plan_version none true (some (negsuc 0)) none ≡ err base_out_of_range
unfolding plan_version
plan_version-negative = refl

plan_version-limit :
    (decide_version (some 999) true (some 999) (some 999)).code ≡ version_limit_reached
unfolding decide_version
plan_version-limit = refl

plan_version_exact_example :
    (d : VersionDecision) × (plan_version (lift (some 4)) true (lift (some 4)) (lift (some 7))
      ≡ ok d)
    × ((d.outcome ≡ allow) ↔ Allows (some 4) true (some 4) (some 7))
    × Explains d.code (some 4) true (some 4) (some 7)
    × InRange d.expected_version
plan_version_exact_example =
    plan_version_exact (some 4) true (some 4) (some 7) (omega arith) (omega arith) (omega arith)
