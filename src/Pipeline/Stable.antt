-- ===== src/Pipeline/Stable.antt =====
-- src/ard_ossie/pipeline.py: `_resolve_tables` keeps the identifiers that the registry knows.
use ard_ossie_provider.Prelude.{
  ◌≡◌, refl, sym, subst, ap, ◌∙◌, ℕ, true, false, not, Option, none, some, List, [], ◌∷◌, ◌++◌,
  String, map, keep, All, ok, in_chain, raise_if, ok_injective, arith, eq_iff,
}
use ard_ossie_provider.Prelude.Text.{str_eq, contains, contains-append}
use ard_ossie_provider.Models.{TableRecord, ColumnRecord}
use ard_ossie_provider.Models.Locator.{TableLocator, key}
use ard_ossie_provider.Registry.{Registry}
use ard_ossie_provider.Pipeline.Tables.{
  ResolveError, TableConfig, DictionaryTable, ResolvedTable, column_ids, retire, unmatched,
  columns_of, known_table, configured_id, check_configs, choose_id, is_conflict, known_id,
  finish_table, place_table, parse_locator, resolve_columns, table_locator_conflict, resolve_table,
  resolve_each, resolve_tables,
}

contains-retired :
    (ids : List String) (id : String) (xs : List ColumnRecord)
    → contains ids id ≡ false
    → contains
        (column_ids (map retire (keep (λ (c : ColumnRecord). not (contains ids c.column_id)) xs)))
        id
      ≡ contains (column_ids xs) id
contains-retired ids id [] h = refl
contains-retired ids id (x ∷ xs) h =
    ground (arith, h, contains-retired ids id xs h, eq_iff x.column_id id, ap (contains ids))

column_ids-append :
    (xs ys : List ColumnRecord) → column_ids (xs ++ ys) ≡ column_ids xs ++ column_ids ys
column_ids-append [] ys = refl
column_ids-append (x ∷ xs) ys = ap (λ zs. x.column_id ∷ zs) (column_ids-append xs ys)

-- a stored column is matched or retired
columns-kept :
    (existing records : List ColumnRecord) (id : String)
    → contains (column_ids existing) id ≡ true
    → contains (column_ids (records ++ unmatched existing records)) id ≡ true
unfolding unmatched
columns-kept existing records id h = ground (
  arith,
  h,
  ap (λ ids. contains ids id) (column_ids-append records (unmatched existing records)),
  contains-append (column_ids records) (column_ids (unmatched existing records)) id,
  contains-retired (column_ids records) id existing,
)

-- the draft has this identifier, and loses the identifier of no column
pub record Keeps (id : String) (columns : List ColumnRecord) (d : ResolvedTable) : Type 0 where
  pub id_chosen : d.table_id ≡ id
  pub columns_kept :
      (id : String)
      → contains (column_ids columns) id ≡ true
      → contains (column_ids d.column_records) id ≡ true

-- what a draft keeps of the stored table at its locator
pub record IsStable (r : Registry) (d : ResolvedTable) : Type 0 where
  pub of_stored :
      (t : TableRecord) → known_table r d.locator ≡ some t → Keeps t.table_id t.columns d

some_same : (u t : TableRecord) → ◌≡◌ {A = Option TableRecord} (some u) (some t) → u ≡ t
some_same u t e = cc

module _ (strip lower casefold : String → String) (new_id : String → ℕ → String) where
  finish_table-Keeps :
      (locator : TableLocator) (existing : List ColumnRecord) (chosen : String × ℕ)
      (names : List String) (d : ResolvedTable) (m : ℕ)
      → finish_table strip lower casefold new_id locator existing chosen names ≡ ok (d, m)
      → (d.locator ≡ locator) × Keeps (chosen.0) existing d
  unfolding finish_table
  finish_table-Keeps locator existing chosen names d m h =
      in_chain (resolve_columns strip lower casefold new_id existing (chosen.1) names) _ _ h
        λ columns e k.
          subst (λ (x : ResolvedTable × ℕ). (x.0.locator ≡ locator) × Keeps (chosen.0) existing x.0)
            (ok_injective {E = ResolveError} _ (d, m) k)
            (refl, record { id_chosen = refl; columns_kept = columns-kept existing (columns.0) })

  place_table-locator :
      (n : ℕ) (locator : TableLocator) (existing : Option TableRecord) (id : Option String)
      (names : List String) (d : ResolvedTable) (m : ℕ)
      → place_table strip lower casefold new_id n locator existing id names ≡ ok (d, m)
      → d.locator ≡ locator
  unfolding place_table
  place_table-locator n locator existing id names d m h =
      in_chain
        (raise_if (is_conflict existing id)
          (table_locator_conflict (key locator) (known_id existing)))
        _ _ h λ free f k. (finish_table-Keeps locator (columns_of existing) _ names d m k).0

  place_table-Keeps :
      (n : ℕ) (locator : TableLocator) (id : Option String) (names : List String)
      (d : ResolvedTable) (m : ℕ) (u : TableRecord)
      → place_table strip lower casefold new_id n locator (some u) id names ≡ ok (d, m)
      → Keeps u.table_id u.columns d
  unfolding place_table choose_id
  place_table-Keeps n locator none names d m u h =
      (finish_table-Keeps locator u.columns (u.table_id, n) names d m h).1
  place_table-Keeps n locator (some id) names d m u h =
      in_chain
        (raise_if (not (str_eq u.table_id id)) (table_locator_conflict (key locator) u.table_id)) _
        _ h
        λ free f k.
          subst (λ i. Keeps i u.columns d) (sym (ground (arith, eq_iff u.table_id id, f)))
            (finish_table-Keeps locator u.columns (id, n) names d m k).1

  module _ (r : Registry) where
    resolve_table-IsStable :
        (configs : List TableConfig) (n m : ℕ) (t : DictionaryTable) (d : ResolvedTable)
        → resolve_table strip lower casefold new_id r configs n t ≡ ok (d, m)
        → IsStable r d
    unfolding resolve_table
    resolve_table-IsStable configs n m t d h =
        in_chain (parse_locator strip lower casefold new_id t.locator) _ _ h λ locator e k. record {
          of_stored = λ u f.
              place_table-Keeps n locator
                (configured_id strip lower casefold new_id configs t.locator) t.columns d m u
                (subst
                  (λ o.
                    place_table strip lower casefold new_id n locator o
                      (configured_id strip lower casefold new_id configs t.locator) t.columns
                    ≡ ok (d, m))
                  (sym (
                      ap (known_table r) (
                        place_table-locator n locator (known_table r locator)
                          (configured_id strip lower casefold new_id configs t.locator) t.columns d
                          m k))
                    ∙ f)
                  k);
        }

    resolve_each-IsStable :
        (configs : List TableConfig) (n : ℕ) (ts : List DictionaryTable) (ds : List ResolvedTable)
        → resolve_each strip lower casefold new_id r configs n ts ≡ ok ds
        → All (IsStable r) ds
    unfolding resolve_each
    resolve_each-IsStable configs n [] ds h =
        subst (All (IsStable r)) (ok_injective {E = ResolveError} [] ds h) tt
    resolve_each-IsStable configs n (t ∷ ts) ds h =
        in_chain (resolve_table strip lower casefold new_id r configs n t) _ _ h λ draft e k.
          in_chain (resolve_each strip lower casefold new_id r configs (draft.1) ts) _ _ k
            λ rest f g.
              subst (All (IsStable r)) (ok_injective {E = ResolveError} (draft.0 ∷ rest) ds g) (
                resolve_table-IsStable configs n (draft.1) t (draft.0) e,
                resolve_each-IsStable configs (draft.1) ts rest f,
              )

    -- Where `_resolve_tables` returns, each of its tables whose locator the registry knows has the
    -- registered identifier, whatever the configuration says, and keeps the identifier of every
    -- registered column, matched or retired.
    pub resolve_tables-IsStable :
        (configs : List TableConfig) (dictionary : List DictionaryTable) (ds : List ResolvedTable)
        → resolve_tables strip lower casefold new_id r configs dictionary ≡ ok ds
        → All (IsStable r) ds
    unfolding resolve_tables
    resolve_tables-IsStable configs dictionary ds h =
        in_chain (check_configs strip lower casefold new_id configs dictionary) _ _ h
          λ u e k. resolve_each-IsStable configs 0 dictionary ds k
