-- ===== src/Ossie.antt =====
-- src/ard_ossie/ossie_compiler.py and ir.py: the semantic model that is compiled of a product. A key
-- that the code sets only under a test is an optional field; of the input the fields that the
-- compiler reads are modelled, and the literals of the format are left out.
pub mod Resolution
pub mod Ordering
mod Tests
use ard_ossie_provider.Prelude.{
  ℕ, Bool, true, false, not, ◌&&◌, ◌||◌, Option, none, some, List, [], ◌∷◌, map, String, ltb, ◌==◌,
  if◌then◌else◌, keep, Result, ok, err, ◌>>=◌,
}
use ard_ossie_provider.Prelude.Text.{given, str_eq, str_leb}
use ard_ossie_provider.Prelude.Sorting.{sort_by}
use ard_ossie_provider.Prelude.Dict.{Dict, get, put}

pub record ColumnIr : Type 0 where
  pub column_id : String
  pub ordinal : ℕ
  pub name : String
  pub logical_name : Option String
  pub data_type : String
  pub nullable : Bool
  pub primary_key : Bool
  pub description : Option String
  pub synonyms : List String

pub record TableIr : Type 0 where
  pub table_id : String
  pub table_version : ℕ
  pub dataset_name : String
  pub source : String
  pub description : Option String
  pub synonyms : List String
  pub columns : List ColumnIr
  pub unique_keys : List (List String)

pub record RelationshipIr : Type 0 where
  pub relationship_id : String
  pub name : String
  pub from_table_id : String
  pub to_table_id : String
  pub from_columns : List String
  pub to_columns : List String
  pub description : Option String

pub record MetricIr : Type 0 where
  pub metric_id : String
  pub name : String
  pub expression : String
  pub dialect : String
  pub description : Option String
  pub synonyms : List String
  pub instructions : Option String
  pub examples : List String

pub record ProductIr : Type 0 where
  pub product_id : String
  pub product_key : String
  pub version : ℕ
  pub description : Option String
  pub synonyms : List String
  pub instructions : Option String
  pub examples : List String
  pub tables : List TableIr
  pub relationships : List RelationshipIr
  pub metrics : List MetricIr

abbrev pub given_list {ℓ} : {A : Type ℓ} → List A → Option (List A)
given_list [] = none
given_list (x ∷ xs) = some (x ∷ xs)

-- `_ai_context`
pub record AiContext : Type 0 where
  pub synonyms : Option (List String)
  pub instructions : Option String
  pub examples : Option (List String)

abbrev is_given {ℓ} : {A : Type ℓ} → Option A → Bool
is_given none = false
is_given (some _) = true

-- `_ai_context` under the test that it is not empty
unfoldable pub ai_context : List String → Option String → List String → Option AiContext
ai_context synonyms instructions examples =
    let context : AiContext = record {
      synonyms = given_list synonyms;
      instructions = given instructions;
      examples = given_list examples;
    } in
    if is_given context.synonyms || is_given context.instructions || is_given context.examples
    then some context
    else none

-- `_extension`, before its data is printed
pub record Extension : Type 0 where
  pub kind : String
  pub id : String
  pub version : Option ℕ
  pub data_type : Option String
  pub nullable : Option Bool

abbrev pub extension : String → String → Option ℕ → Extension
extension kind id version = record {
  kind = kind;
  id = id;
  version = version;
  data_type = none;
  nullable = none;
}

pub record Field : Type 0 where
  pub name : String
  pub expression : String
  pub extension : Extension
  pub label : Option String
  pub description : Option String
  pub context : Option AiContext

pub record Dataset : Type 0 where
  pub name : String
  pub source : String
  pub fields : List Field
  pub extension : Extension
  pub primary_key : Option (List String)
  pub unique_keys : Option (List (List String))
  pub description : Option String
  pub context : Option AiContext

pub record Relationship : Type 0 where
  pub name : String
  pub from_dataset : String
  pub to_dataset : String
  pub from_columns : List String
  pub to_columns : List String
  pub extension : Extension
  pub instructions : Option String

pub record Metric : Type 0 where
  pub name : String
  pub dialect : String
  pub expression : String
  pub extension : Extension
  pub description : Option String
  pub context : Option AiContext

pub record SemanticModel : Type 0 where
  pub name : String
  pub datasets : List Dataset
  pub relationships : List Relationship
  pub metrics : List Metric
  pub extension : Extension
  pub description : Option String
  pub context : Option AiContext

pub data CompileError : Type 0 where
  unresolved_reference : String → CompileError
  schema_violation : CompileError

unfoldable pub compile_field : ColumnIr → Field
unfolding ai_context
compile_field c = record {
  name = c.name;
  expression = c.name;
  extension = record {
    kind = "column";
    id = c.column_id;
    version = none;
    data_type = some c.data_type;
    nullable = some c.nullable;
  };
  label = given c.logical_name;
  description = given c.description;
  context = ai_context c.synonyms none [];
}

-- `(ordinal, column_id)` of one column is at most that of the other
abbrev pub column_leb : ColumnIr → ColumnIr → Bool
column_leb c d =
    ltb c.ordinal d.ordinal || c.ordinal == d.ordinal && str_leb c.column_id d.column_id

-- `sorted(columns, key=lambda item: (item.ordinal, item.column_id))`, a stable sort
unfoldable pub insert_column : ColumnIr → List ColumnIr → List ColumnIr
insert_column c [] = c ∷ []
insert_column c (d ∷ ds) = if column_leb c d then c ∷ d ∷ ds else d ∷ insert_column c ds

unfoldable pub sort_columns : List ColumnIr → List ColumnIr
unfolding insert_column
sort_columns [] = []
sort_columns (c ∷ cs) = insert_column c (sort_columns cs)

unfoldable pub compile_dataset : TableIr → Dataset
unfolding compile_field sort_columns ai_context
compile_dataset t = record {
  name = t.dataset_name;
  source = t.source;
  fields = map compile_field (sort_columns t.columns);
  extension = extension "table" t.table_id (some t.table_version);
  primary_key =
      given_list
        (map (λ (c : ColumnIr). c.name) (keep (λ (c : ColumnIr). c.primary_key) t.columns));
  unique_keys = given_list t.unique_keys;
  description = given t.description;
  context = ai_context t.synonyms none [];
}

unfoldable pub compile_metric : MetricIr → Metric
unfolding ai_context
compile_metric m = record {
  name = m.name;
  dialect = m.dialect;
  expression = m.expression;
  extension = extension "metric" m.metric_id none;
  description = given m.description;
  context = ai_context m.synonyms m.instructions m.examples;
}

-- `{table.table_id: table.dataset_name for table in tables}`
unfoldable pub names_from : Dict String → List TableIr → Dict String
unfolding put
names_from d [] = d
names_from d (t ∷ ts) = names_from (put d t.table_id t.dataset_name) ts

-- both ends of one relationship, where both are known
unfoldable pub compile_relationship :
    RelationshipIr → Option String → Option String → Result CompileError Relationship
compile_relationship r (some from_name) (some to_name) = ok (record {
  name = r.name;
  from_dataset = from_name;
  to_dataset = to_name;
  from_columns = r.from_columns;
  to_columns = r.to_columns;
  extension = extension "relationship" r.relationship_id none;
  instructions = given r.description;
})
compile_relationship r _ _ = err (unresolved_reference r.relationship_id)

-- the loop over the sorted relationships
unfoldable pub compile_relationships :
    Dict String → List RelationshipIr → Result CompileError (List Relationship)
unfolding compile_relationship get
compile_relationships table_names [] = ok []
compile_relationships table_names (r ∷ rs) = do
  first ← compile_relationship r (get table_names r.from_table_id) (get table_names r.to_table_id)
  rest ← compile_relationships table_names rs
  ok (first ∷ rest)

abbrev pub sorted_tables : ProductIr → List TableIr
sorted_tables p = sort_by (λ (t : TableIr). t.table_id) p.tables

abbrev pub sorted_relationships : ProductIr → List RelationshipIr
sorted_relationships p = sort_by (λ (r : RelationshipIr). r.relationship_id) p.relationships

-- the model of the compiled relationships
unfoldable pub semantic_model : ProductIr → List Relationship → SemanticModel
unfolding compile_dataset compile_metric sort_by ai_context
semantic_model p relationships = record {
  name = p.product_key;
  datasets = map compile_dataset (sorted_tables p);
  relationships = relationships;
  metrics = map compile_metric (sort_by (λ (m : MetricIr). m.metric_id) p.metrics);
  extension = extension "product" p.product_id (some p.version);
  description = given p.description;
  context = ai_context p.synonyms p.instructions p.examples;
}

-- `compile_ossie`; `accepts` is the validation by the JSON schema
unfoldable pub compile_ossie :
    (SemanticModel → Bool) → ProductIr → Result CompileError SemanticModel
unfolding names_from compile_relationships semantic_model sort_by
compile_ossie accepts p = do
  relationships ← compile_relationships (names_from [] (sorted_tables p)) (sorted_relationships p)
  (let model = semantic_model p relationships in
      if accepts model then ok model else err schema_violation)
