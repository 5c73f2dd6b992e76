-- ===== src/Pipeline/Tables.antt =====
-- src/ard_ossie/pipeline.py: `_resolve_tables`, which finds the identifiers of tables and columns.
-- `new_id` is an argument: the identifier of a prefix that is drawn after as many others. The parts
-- of a draft that are copied from the dictionary without a test are left out.
use Prim.Native.Char.{Char, code}
use Prim.Native.String.{String}
use ard_ossie_provider.Prelude.{
  ℕ, ◌+◌, Bool, true, false, not, ◌||◌, Option, none, some, List, [], ◌∷◌, ◌++◌, ◌==◌, map, keep,
  any, find_first, if◌then◌else◌, Result, ok, err, ◌>>=◌, raise_if,
}
use ard_ossie_provider.Prelude.Text.{str_eq, contains, given}
use ard_ossie_provider.Prelude.Sets.{sorted_set}
use ard_ossie_provider.Models.{TableRecord, ColumnRecord, active, retired, all_different}
use ard_ossie_provider.Models.Locator.{TableLocator, make_locator, key}
use ard_ossie_provider.Registry.{Registry, tables}

-- what stops the resolution; a text that is no locator and an empty column name are the last two
pub data ResolveError : Type 0 where
  duplicate_table_config invalid_locator invalid_column : ResolveError
  config_table_not_in_dictionary : String → ResolveError
  table_locator_conflict : String → String → ResolveError
  retired_column_reuse : String → ResolveError

-- `TableConfig`, as far as the resolution reads it
pub record TableConfig : Type 0 where
  pub locator : String
  pub table_id : Option String

-- `DictionaryTable`, with the names of its columns
pub record DictionaryTable : Type 0 where
  pub locator : String
  pub columns : List String

-- `_TableDraft`, as far as the resolution decides it
pub record ResolvedTable : Type 0 where
  pub table_id : String
  pub locator : TableLocator
  pub column_records : List ColumnRecord

abbrev prepend : Char → List String → List String
prepend c [] = String.◌∷◌ c "" ∷ []
prepend c (part ∷ parts) = String.◌∷◌ c part ∷ parts

-- `value.split("|")`
unfoldable pub split_bars : String → List String
split_bars String.[] = "" ∷ []
split_bars (String.◌∷◌ c s) =
    let parts = split_bars s in if code c == b'|' then "" ∷ parts else prepend c parts

abbrev pub is_retired : ColumnRecord → Bool
is_retired c = elim c.status [ active ↦ false | retired ↦ true ]

abbrev pub column_ids : List ColumnRecord → List String
column_ids = map (λ (c : ColumnRecord). c.column_id)

abbrev pub retire : ColumnRecord → ColumnRecord
retire c = record c { status = retired }

-- the stored columns that no column of the dictionary matched
unfoldable pub unmatched : List ColumnRecord → List ColumnRecord → List ColumnRecord
unmatched existing records =
    map retire
      (keep (λ (c : ColumnRecord). not (contains (column_ids records) c.column_id)) existing)

abbrev pub columns_of : Option TableRecord → List ColumnRecord
columns_of none = []
columns_of (some t) = t.columns

-- the stored table at the locator
unfoldable pub known_table : Registry → TableLocator → Option TableRecord
unfolding tables key
known_table r locator =
    find_first (λ (t : TableRecord). str_eq (key t.locator) (key locator)) (tables r)

abbrev pub config_id : Option TableConfig → Option String
config_id none = none
config_id (some config) = given config.table_id

-- the identifier of the configuration is of another table than the one at the locator
abbrev pub is_conflict : Option TableRecord → Option String → Bool
is_conflict (some t) (some id) = not (str_eq t.table_id id)
is_conflict _ _ = false

abbrev pub known_id : Option TableRecord → String
known_id none = ""
known_id (some t) = t.table_id

module _ (strip lower casefold : String → String) (new_id : String → ℕ → String) where
  -- `_parse_locator`
  unfoldable pub parse_locator : String → Result ResolveError TableLocator
  unfolding split_bars make_locator
  parse_locator value = elim (split_bars value) [
    | system ∷ catalog ∷ schema ∷ table ∷ [] ↦
        elim (make_locator strip lower system catalog schema table) [
          | ok locator ↦ ok locator
          | err e ↦ err invalid_locator
        ]
    | _ ↦ err invalid_locator
  ]

  -- the name of the dictionary is the name or an alias of the stored column
  unfoldable pub matches_name : String → ColumnRecord → Bool
  matches_name name item =
      str_eq (casefold item.name) (casefold name)
      || any (λ alias. str_eq (casefold alias) (casefold name)) item.aliases

  -- the construction of a `ColumnRecord`
  unfoldable pub make_column : String → String → List String → Result ResolveError ColumnRecord
  make_column id name aliases =
      if str_eq (strip name) ""
      then err invalid_column
      else ok (record { column_id = id; name = strip name; aliases = aliases; status = active })

  -- a column of the dictionary for the stored column that it matches, after `n` drawn identifiers
  unfoldable pub resolve_column :
      ℕ → String → Option ColumnRecord → Result ResolveError (ColumnRecord × ℕ)
  unfolding make_column
  resolve_column n name none = do column ← make_column (new_id "col" n) name []; ok (column, n + 1)
  resolve_column n name (some item) = do
    _ ← raise_if (is_retired item) (retired_column_reuse item.column_id)
    column ← make_column item.column_id name item.aliases
    ok (column, n)

  -- the loop over the columns
  unfoldable pub resolve_columns :
      List ColumnRecord → ℕ → List String → Result ResolveError (List ColumnRecord × ℕ)
  unfolding resolve_column matches_name
  resolve_columns existing n [] = ok ([], n)
  resolve_columns existing n (name ∷ names) = do
    column ← resolve_column n name (find_first (matches_name name) existing)
    rest ← resolve_columns existing (column.1) names
    ok (column.0 ∷ rest.0, rest.1)

  -- the identifier of the table, and how many were drawn then
  unfoldable pub choose_id : ℕ → Option TableRecord → Option String → String × ℕ
  choose_id n existing (some id) = (id, n)
  choose_id n (some t) none = (t.table_id, n)
  choose_id n none none = (new_id "tbl" n, n + 1)

  -- the draft of a table with this identifier
  unfoldable pub finish_table :
      TableLocator
      → List ColumnRecord
      → String × ℕ
      → List String
      → Result ResolveError (ResolvedTable × ℕ)
  unfolding resolve_columns unmatched
  finish_table locator existing chosen names = do
    columns ← resolve_columns existing (chosen.1) names
    ok (
      record {
        table_id = chosen.0;
        locator = locator;
        column_records = columns.0 ++ unmatched existing (columns.0);
      },
      columns.1,
    )

  -- a table at a locator, for the stored table there and the identifier of the configuration
  unfoldable pub place_table :
      ℕ
      → TableLocator
      → Option TableRecord
      → Option String
      → List String
      → Result ResolveError (ResolvedTable × ℕ)
  unfolding key choose_id finish_table
  place_table n locator existing id names = do
    _ ←
        raise_if (is_conflict existing id)
          (table_locator_conflict (key locator) (known_id existing))
    finish_table locator (columns_of existing) (choose_id n existing id) names

  -- the identifier in the configuration of a locator
  abbrev pub configured_id : List TableConfig → String → Option String
  configured_id configs locator =
      config_id (find_first (λ (c : TableConfig). str_eq (lower c.locator) locator) configs)

  -- one table of the dictionary
  unfoldable pub resolve_table :
      Registry → List TableConfig → ℕ → DictionaryTable → Result ResolveError (ResolvedTable × ℕ)
  unfolding parse_locator known_table place_table
  resolve_table r configs n t = do
    locator ← parse_locator t.locator
    place_table n locator (known_table r locator) (configured_id configs t.locator) t.columns

  -- the loop over the tables
  unfoldable pub resolve_each :
      Registry
      → List TableConfig
      → ℕ
      → List DictionaryTable
      → Result ResolveError (List ResolvedTable)
  unfolding resolve_table
  resolve_each r configs n [] = ok []
  resolve_each r configs n (t ∷ ts) = do
    draft ← resolve_table r configs n t
    rest ← resolve_each r configs (draft.1) ts
    ok (draft.0 ∷ rest)

  abbrev first_unknown : List String → Result ResolveError (Unit {0})
  first_unknown [] = ok tt
  first_unknown (locator ∷ rest) = err (config_table_not_in_dictionary locator)

  -- the configuration names no locator twice, and only locators of the dictionary
  unfoldable pub check_configs :
      List TableConfig → List DictionaryTable → Result ResolveError (Unit {0})
  unfolding all_different sorted_set
  check_configs configs dictionary = do
    let configured = map (λ (c : TableConfig). lower c.locator) configs
    let present = map (λ (t : DictionaryTable). t.locator) dictionary
    _ ← raise_if (not (all_different configured)) duplicate_table_config
    first_unknown (sorted_set (keep (λ name. not (contains present name)) configured))

  -- `_resolve_tables`
  unfoldable pub resolve_tables :
      Registry → List TableConfig → List DictionaryTable → Result ResolveError (List ResolvedTable)
  unfolding check_configs resolve_each
  resolve_tables r configs dictionary = do
    _ ← check_configs configs dictionary
    resolve_each r configs 0 dictionary
