-- ===== src/Pipeline/Tests.antt =====
-- Runs of src/ard_ossie/pipeline.py, and its theorems at concrete inputs.
use ard_ossie_provider.Prelude.{
  ℕ, ◌≡◌, ◌↔◌, ◌⊎◌, refl, true, Option, none, some, List, [], ◌∷◌, String, All, ok, err, map,
  if◌then◌else◌, ◌==◌,
}
use ard_ossie_provider.Models.{ColumnRecord, retired, TableRecord, ProductTableRef, source, active}
use ard_ossie_provider.Models.Locator.{TableLocator}
use ard_ossie_provider.Versioning.{VersionDecision, allow, advance, new_v1, proposed_out_of_range}
use ard_ossie_provider.Registry.{Registry, new_registry}
use ard_ossie_provider.Pipeline.{
  TableDraft, table_decision, table_record, build_table_records, hard_findings,
}
use ard_ossie_provider.Pipeline.Versions.{limit_raises, AreBuilt, build_table_records-AreBuilt}
use ard_ossie_provider.Prelude.Sets.{dedupe}
use ard_ossie_provider.Pipeline.Tables.{
  DictionaryTable, ResolvedTable, resolve_tables, retired_column_reuse,
}
use ard_ossie_provider.Pipeline.Stable.{IsStable, resolve_tables-IsStable}
use ard_ossie_provider.Pipeline.Shared.{changeset_required, findings_of, IsCovered, findings_of_iff}

abbrev locator : TableLocator
locator = record {
  source_system_id = "sap";
  catalog = "erp";
  schema_name = "dbo";
  table_name = "orders";
}

abbrev stored : ℕ → TableRecord
stored version = record {
  table_id = "tbl_1";
  locator = locator;
  version = version;
  status = active;
  aliases = [];
  columns = [];
  schema_hash = none;
  canonical_hash = some "old";
}

abbrev draft : String → Option ℕ → TableDraft
draft id base = record {
  table_id = id;
  locator = locator;
  version = none;
  base_version = base;
  column_records = [];
  schema_hash = "s";
  canonical_hash = "new";
}

limit_raises_example :
    table_decision (draft "tbl_1" none) (some (stored 999)) ≡ err proposed_out_of_range
limit_raises_example = limit_raises (draft "tbl_1" none) (stored 999) refl refl refl refl

abbrev registry : Registry
registry = record new_registry { tables = ("tbl_1", stored 4) ∷ [] }

abbrev drafts : List TableDraft
drafts = draft "tbl_1" none ∷ draft "tbl_2" none ∷ []

abbrev advanced : VersionDecision
advanced = record {
  outcome = allow;
  code = advance;
  current_version = some 4;
  base_version = some 4;
  proposed_version = some 5;
  expected_version = some 5;
  changed = true;
}

abbrev created : VersionDecision
created = record {
  outcome = allow;
  code = new_v1;
  current_version = none;
  base_version = none;
  proposed_version = some 1;
  expected_version = some 1;
  changed = true;
}

abbrev built : List (TableRecord × VersionDecision)
built =
    (table_record (draft "tbl_1" none) (some (stored 4)), advanced)
    ∷ (table_record (draft "tbl_2" none) none, created)
    ∷ []

drafts_planned : build_table_records registry drafts ≡ ok built
unfolding build_table_records
drafts_planned = refl

no_findings : hard_findings [] (map (λ (e : TableRecord × VersionDecision). e.1) built) ≡ []
unfolding hard_findings
no_findings = refl

build_table_records-AreBuilt_example : AreBuilt registry drafts built
build_table_records-AreBuilt_example =
    build_table_records-AreBuilt registry drafts built [] drafts_planned no_findings

abbrev link : String → String → ProductTableRef
link id product_id = record {
  link_id = id;
  product_id = product_id;
  table_id = "tbl_1";
  table_version = 4;
  usage = source;
  required = true;
  semantic_dataset = none;
}

findings_of_iff_example :
    (findings_of registry none "prd_1" (some 7) (stored 4 ∷ []) ≡ [])
    ↔ ((stored 4 ∷ [] ≡ []) ⊎ IsCovered registry none "prd_1" (some 7) (stored 4 ∷ []))
findings_of_iff_example = findings_of_iff registry none "prd_1" (some 7) (stored 4 ∷ [])

findings-changeset_required :
    findings_of registry (some "") "prd_1" (some 7) (stored 4 ∷ [])
    ≡ changeset_required "tbl_1" ∷ []
unfolding findings_of
findings-changeset_required = refl

abbrev column : String → String → List String → ColumnRecord
column id name aliases = record { column_id = id; name = name; aliases = aliases; status = active }

abbrev with_columns : List ColumnRecord → Registry
with_columns columns = record new_registry {
  tables = ("tbl_1", record (stored 4) { columns = columns }) ∷ [];
}

abbrev known_columns : Registry
known_columns = with_columns (column "col_1" "id" [] ∷ column "col_2" "sum" ("total" ∷ []) ∷ [])

abbrev same : String → String
same s = s

abbrev new_id : String → ℕ → String
new_id prefix n = if n == 0 then "new_0" else "new_1"

abbrev dictionary : List DictionaryTable
dictionary = record { locator = "sap|erp|dbo|orders"; columns = "total" ∷ "day" ∷ [] } ∷ []

-- the renamed column keeps its identifier, the new one draws one, and the missing one is retired
abbrev resolved : ResolvedTable
resolved = record {
  table_id = "tbl_1";
  locator = locator;
  column_records =
      column "col_2" "total" ("total" ∷ [])
      ∷ column "new_0" "day" []
      ∷ record (column "col_1" "id" []) { status = retired }
      ∷ [];
}

tables_resolved :
    resolve_tables same same same new_id known_columns [] dictionary ≡ ok (resolved ∷ [])
unfolding resolve_tables dedupe
tables_resolved = refl

resolve_tables-reused :
    resolve_tables same same same new_id
      (with_columns (record (column "col_2" "total" []) { status = retired } ∷ []))
      []
      dictionary
    ≡ err (retired_column_reuse "col_2")
unfolding resolve_tables dedupe
resolve_tables-reused = refl

resolve_tables-IsStable_example : All (IsStable known_columns) (resolved ∷ [])
resolve_tables-IsStable_example =
    resolve_tables-IsStable same same same new_id known_columns [] dictionary (resolved ∷ [])
      tables_resolved
