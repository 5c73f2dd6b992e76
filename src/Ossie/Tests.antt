-- ===== src/Ossie/Tests.antt =====
-- Runs of src/ard_ossie/ossie_compiler.py, and its theorems at concrete inputs.
use ard_ossie_provider.Prelude.{
  ℕ, ◌≡◌, refl, Bool, true, none, some, List, [], ◌∷◌, String, All, ok, err, find_first,
}
use ard_ossie_provider.Prelude.Text.{str_leb}
use ard_ossie_provider.Ossie.{
  ColumnIr, TableIr, RelationshipIr, ProductIr, SemanticModel, compile_ossie, unresolved_reference,
  semantic_model, sort_columns, Relationship, extension, sorted_relationships,
}
use mathlib.Core.List.Permᴰ.{nil, cons, swap}
use ard_ossie_provider.Ossie.Ordering.{compile_ossie_rearranged}
use ard_ossie_provider.Ossie.Resolution.{
  IsResolved, dataset_names, compile_ossie-IsResolved, dangles, unresolved_id, id_of,
  unresolved_id-compile_ossie,
}

abbrev column : String → ℕ → ColumnIr
column id ordinal = record {
  column_id = id;
  ordinal = ordinal;
  name = id;
  logical_name = none;
  data_type = "INT";
  nullable = true;
  primary_key = true;
  description = some "";
  synonyms = [];
}

abbrev table : String → String → TableIr
table id name = record {
  table_id = id;
  table_version = 1;
  dataset_name = name;
  source = "erp";
  description = none;
  synonyms = [];
  columns = column "col_2" 1 ∷ column "col_1" 1 ∷ [];
  unique_keys = [];
}

abbrev relationship : String → String → String → RelationshipIr
relationship id f t = record {
  relationship_id = id;
  name = id;
  from_table_id = f;
  to_table_id = t;
  from_columns = "col_1" ∷ [];
  to_columns = "col_1" ∷ [];
  description = none;
}

abbrev product : List RelationshipIr → ProductIr
product relationships = record {
  product_id = "prd_1";
  product_key = "sales";
  version = 1;
  description = none;
  synonyms = [];
  instructions = none;
  examples = [];
  tables = table "tbl_2" "orders" ∷ table "tbl_1" "customers" ∷ [];
  relationships = relationships;
  metrics = [];
}

abbrev accepts_all : SemanticModel → Bool
accepts_all _ = true

abbrev sound : ProductIr
sound = product (relationship "rel_1" "tbl_2" "tbl_1" ∷ [])

abbrev compiled : Relationship
compiled = record {
  name = "rel_1";
  from_dataset = "orders";
  to_dataset = "customers";
  from_columns = "col_1" ∷ [];
  to_columns = "col_1" ∷ [];
  extension = extension "relationship" "rel_1" none;
  instructions = none;
}

compile-sound : compile_ossie accepts_all sound ≡ ok (semantic_model sound (compiled ∷ []))
unfolding compile_ossie str_leb
compile-sound = refl

-- columns with one ordinal are sorted by their identifiers
columns_sorted :
    sort_columns (column "col_2" 1 ∷ column "col_1" 1 ∷ column "col_3" 0 ∷ [])
    ≡ column "col_3" 0 ∷ column "col_1" 1 ∷ column "col_2" 1 ∷ []
unfolding sort_columns str_leb
columns_sorted = refl

compile_ossie-IsResolved_example :
    All
      (IsResolved (dataset_names (semantic_model sound (compiled ∷ [])).datasets))
      (semantic_model sound (compiled ∷ [])).relationships
compile_ossie-IsResolved_example =
    compile_ossie-IsResolved accepts_all sound (semantic_model sound (compiled ∷ [])) compile-sound

abbrev broken : ProductIr
broken = product (
    relationship "rel_9" "tbl_9" "tbl_1"
    ∷ relationship "rel_1" "tbl_2" "tbl_1"
    ∷ relationship "rel_5" "tbl_1" "tbl_8"
    ∷ [])

compile-broken : compile_ossie accepts_all broken ≡ err (unresolved_reference "rel_5")
unfolding compile_ossie str_leb
compile-broken = refl

unresolved_id-compile_ossie_example :
    unresolved_id (compile_ossie accepts_all broken)
    ≡ id_of (find_first (dangles broken.tables) (sorted_relationships broken))
unresolved_id-compile_ossie_example = unresolved_id-compile_ossie accepts_all broken

abbrev swapped : List TableIr
swapped = table "tbl_1" "customers" ∷ table "tbl_2" "orders" ∷ []

compile_ossie_rearranged_example :
    compile_ossie accepts_all (record sound { tables = swapped }) ≡ compile_ossie accepts_all sound
compile_ossie_rearranged_example =
    compile_ossie_rearranged accepts_all sound swapped sound.relationships sound.metrics
      (refl, (refl, tt)) (refl, tt) tt (swap refl refl) (cons refl nil) nil
