-- ===== src/Pipeline.antt =====
-- src/ard_ossie/pipeline.py: the versions of table records, and the findings that stop a submission.
pub mod Versions
pub mod Shared
pub mod Tables
pub mod Stable
mod Tests
use ard_ossie_provider.Prelude.{
  ℕ, Bool, true, false, not, ◌&&◌, ◌||◌, Option, none, some, List, [], ◌∷◌, ◌++◌, map, String, ltb,
  leb, if◌then◌else◌, keep, Result, ok, err, ◌>>=◌, ◌+◌,
}
use ard_ossie_provider.Prelude.Int.{ℤ, pos}
use ard_ossie_provider.Prelude.Text.{str_eq, contains, opt_str_eq}
use ard_ossie_provider.Prelude.Dict.{get}
use ard_ossie_provider.Models.{TableRecord, ColumnRecord, ProductTableRef, active}
use ard_ossie_provider.Models.Locator.{TableLocator}
use ard_ossie_provider.Versioning.{
  VersionDecision, VersionError, VersionOutcome, VersionCode, allow, block, plan_version,
}
use ard_ossie_provider.Identity.{DuplicateReport, DuplicateDecision, DuplicateCode}
use ard_ossie_provider.Identity as Identity
use ard_ossie_provider.Impact.{ChangeSetRecord, ImpactReport, PatternError, analyze_table_change}
use ard_ossie_provider.Registry.{Registry, get_table, get_changeset, mappings}

-- a table of a submission, resolved; both hashes are those of its content
pub record TableDraft : Type 0 where
  pub table_id : String
  pub locator : TableLocator
  pub version : Option ℕ
  pub base_version : Option ℕ
  pub column_records : List ColumnRecord
  pub schema_hash : String
  pub canonical_hash : String

abbrev pub version_of : Option TableRecord → Option ℕ
version_of none = none
version_of (some t) = some t.version

abbrev pub aliases_of : Option TableRecord → List String
aliases_of none = []
aliases_of (some t) = t.aliases

-- `existing is None or existing.canonical_hash != current_canonical_hash`
abbrev pub has_changed : TableDraft → Option TableRecord → Bool
has_changed draft none = true
has_changed draft (some t) = not (opt_str_eq t.canonical_hash (some draft.canonical_hash))

-- the version where the configuration proposes none
abbrev pub next_proposed : Bool → Option TableRecord → ℕ
next_proposed changed none = 1
next_proposed changed (some t) = t.version + (if changed then 1 else 0)

abbrev pub proposed_version : TableDraft → Option TableRecord → ℕ
proposed_version draft existing = elim draft.version [
  | some v ↦ v
  | none ↦ next_proposed (has_changed draft existing) existing
]

abbrev pub or_version : Option ℕ → Option ℕ → Option ℕ
or_version none o = o
or_version (some v) o = some v

abbrev pub as_int : Option ℕ → Option ℤ
as_int none = none
as_int (some n) = some (pos n)

-- the decision on one table
unfoldable pub table_decision :
    TableDraft → Option TableRecord → Result VersionError VersionDecision
unfolding plan_version
table_decision draft existing =
    plan_version (as_int (version_of existing)) (has_changed draft existing)
      (as_int (or_version draft.base_version (version_of existing)))
      (some (pos (proposed_version draft existing)))

unfoldable pub table_record : TableDraft → Option TableRecord → TableRecord
table_record draft existing = record {
  table_id = draft.table_id;
  locator = draft.locator;
  version = proposed_version draft existing;
  status = active;
  aliases = aliases_of existing;
  columns = draft.column_records;
  schema_hash = some draft.schema_hash;
  canonical_hash = some draft.canonical_hash;
}

-- `_build_table_records`, without the IR that repeats the records
unfoldable pub build_table_records :
    Registry → List TableDraft → Result VersionError (List (TableRecord × VersionDecision))
unfolding table_decision table_record get
build_table_records r [] = ok []
build_table_records r (draft ∷ drafts) = do
  decision ← table_decision draft (get_table r draft.table_id)
  rest ← build_table_records r drafts
  ok ((table_record draft (get_table r draft.table_id), decision) ∷ rest)

-- the codes of the findings of `_hard_findings`
pub data HardCode : Type 0 where
  duplicate_blocked : DuplicateCode → HardCode
  version_blocked : VersionCode → HardCode

abbrev pub is_block : VersionDecision → Bool
is_block d = elim d.outcome [ allow ↦ false | block ↦ true ]

abbrev pub is_duplicate_block : DuplicateReport → Bool
is_duplicate_block d = elim d.decision [ Identity.block ↦ true | _ ↦ false ]

unfoldable pub hard_findings : List DuplicateReport → List VersionDecision → List HardCode
hard_findings duplicates versions =
    map (λ (d : DuplicateReport). duplicate_blocked d.code) (keep is_duplicate_block duplicates)
    ++ map (λ (v : VersionDecision). version_blocked v.code) (keep is_block versions)
