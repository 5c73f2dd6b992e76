-- ===== src/Versioning.antt =====
-- src/ard_ossie/versioning.py: the plan of one numeric version transition.
pub mod Exact
pub mod History
mod Tests
use ard_ossie_provider.Prelude.{
  ℕ, ◌+◌, Bool, true, false, not, ◌&&◌, Option, none, some, leb, ◌==◌, if◌then◌else◌, Result, ok,
  err, ◌>>=◌,
}
use ard_ossie_provider.Prelude.Int.{ℤ, pos, negsuc}

pub data VersionOutcome : Type 0 where
  allow block : VersionOutcome

-- the texts of `VersionDecision.code`
pub data VersionCode : Type 0 where
  version_stale version_gap new_v1 version_limit_reached no_change : VersionCode
  version_no_change advance version_collision : VersionCode

pub record VersionDecision : Type 0 where
  pub outcome : VersionOutcome
  pub code : VersionCode
  pub current_version : Option ℕ
  pub base_version : Option ℕ
  pub proposed_version : Option ℕ
  pub expected_version : Option ℕ
  pub changed : Bool

-- `ValueError`, by the name of the argument that is out of range
pub data VersionError : Type 0 where
  current_out_of_range base_out_of_range proposed_out_of_range : VersionError

-- An accepted number is handed on as a natural.
unfoldable pub validate_input_version : VersionError → Option ℤ → Result VersionError (Option ℕ)
validate_input_version name none = ok none
validate_input_version name (some (negsuc _)) = err name
validate_input_version name (some (pos value)) =
    if leb 1 value && leb value 999 then ok (some value) else err name

unfoldable pub next_version : ℕ → Option ℕ
next_version current = if current == 999 then none else some (current + 1)

-- `proposed in (None, value)`
abbrev pub none_or : Option ℕ → ℕ → Bool
none_or none value = true
none_or (some proposed) value = proposed == value

abbrev pub opt_eq : Option ℕ → ℕ → Bool
opt_eq none value = false
opt_eq (some base) value = base == value

-- the tests from `if not changed` on, where the base is current and `expected` is a version
unfoldable pub decide_current : ℕ → Bool → Option ℕ → Option ℕ → ℕ → VersionDecision
decide_current current false base proposed expected = record {
  outcome = if none_or proposed current then allow else block;
  code = if none_or proposed current then no_change else version_no_change;
  current_version = some current;
  base_version = base;
  proposed_version = proposed;
  expected_version = some expected;
  changed = false;
}
decide_current current true base none expected = record {
  outcome = allow;
  code = advance;
  current_version = some current;
  base_version = base;
  proposed_version = none;
  expected_version = some expected;
  changed = true;
}
decide_current current true base (some proposed) expected = record {
  outcome = if proposed == expected then allow else block;
  code =
      if proposed == expected
      then advance
      else if leb proposed current
      then version_collision
      else version_gap;
  current_version = some current;
  base_version = base;
  proposed_version = some proposed;
  expected_version = some expected;
  changed = true;
}

-- the block of `if changed and expected is None`
unfoldable pub decide_limit : ℕ → Bool → Option ℕ → Option ℕ → Option ℕ → VersionDecision
unfolding decide_current
decide_limit current changed base proposed none = record {
  outcome = block;
  code = version_limit_reached;
  current_version = some current;
  base_version = base;
  proposed_version = proposed;
  expected_version = none;
  changed = changed;
}
decide_limit current changed base proposed (some expected) =
    decide_current current changed base proposed expected

-- the block of `if current_version is None`
unfoldable pub decide_new : Bool → Option ℕ → Option ℕ → VersionDecision
decide_new changed (some base) proposed = record {
  outcome = block;
  code = version_stale;
  current_version = none;
  base_version = some base;
  proposed_version = proposed;
  expected_version = some 1;
  changed = changed;
}
decide_new changed none proposed = record {
  outcome = if none_or proposed 1 then allow else block;
  code = if none_or proposed 1 then new_v1 else version_gap;
  current_version = none;
  base_version = none;
  proposed_version = proposed;
  expected_version = some 1;
  changed = changed;
}

-- The decision on validated versions.
unfoldable pub decide_version : Option ℕ → Bool → Option ℕ → Option ℕ → VersionDecision
unfolding decide_new decide_limit next_version
decide_version none changed base proposed = decide_new changed base proposed
decide_version (some current) changed base proposed =
    let expected : Option ℕ = if changed then next_version current else some current in
    if opt_eq base current then decide_limit current changed base proposed expected else record {
      outcome = block;
      code = version_stale;
      current_version = some current;
      base_version = base;
      proposed_version = proposed;
      expected_version = expected;
      changed = changed;
    }

unfoldable pub plan_version :
    Option ℤ → Bool → Option ℤ → Option ℤ → Result VersionError VersionDecision
unfolding validate_input_version decide_version
plan_version current_version changed base_version proposed_version = do
  current ← validate_input_version current_out_of_range current_version
  base ← validate_input_version base_out_of_range base_version
  proposed ← validate_input_version proposed_out_of_range proposed_version
  ok (decide_version current changed base proposed)
