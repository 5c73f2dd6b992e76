-- ===== src/Registry/Retired.antt =====
-- src/ard_ossie/registry.py: retirement is final, and an alias that takes another product's key.
use ard_ossie_provider.Prelude.{
  ◌≡◌, ◌≢◌, Bool, true, false, Option, none, some, List, [], ◌∷◌, String, arith, inl, inr,
  Bool-cases, eq_iff,
}
use ard_ossie_provider.Prelude.Text.{str_eq, contains}
use ard_ossie_provider.Prelude.Dict.{get, put, get-put, any-values-get}
use ard_ossie_provider.Models.{ProductRecord, TableRecord, is_retired}
use ard_ossie_provider.Registry.{
  Registry, takes_key, product_returns, table_returns, write_product, write_changeset, Call,
  product_call, table_call, mappings_call, changeset_call, call, state_after, run,
}
use ard_ossie_provider.Registry.Outcomes.{
  Raises, WroteProduct, with_product, write_product-cases, write_table-cases, write_mappings-cases,
}

-- the identifiers name a retired product and a retired table, where they name any
abbrev pub retired_product : Option ProductRecord → Bool
retired_product none = false
retired_product (some p) = is_retired p.status

abbrev pub retired_table : Option TableRecord → Bool
retired_table none = false
retired_table (some t) = is_retired t.status

put_keeps_product :
    (r : Registry) (p : ProductRecord) (k : String)
    → product_returns (get r.products p.product_id) p ≡ false
    → retired_product (get r.products k) ≡ true
    → retired_product (get (put r.products p.product_id p) k) ≡ true
put_keeps_product r p k stays h = elim (Bool-cases (str_eq p.product_id k)) [
  | inl e ↦
      let same : p.product_id ≡ k = (eq_iff p.product_id k).0 e in
      rw (get-put r.products p.product_id k p, e) (ground (arith, same, stays, h))
  | inr e ↦ rw (get-put r.products p.product_id k p, e) h
]

put_keeps_table :
    (r : Registry) (t : TableRecord) (k : String)
    → table_returns (get r.tables t.table_id) t ≡ false
    → retired_table (get r.tables k) ≡ true
    → retired_table (get (put r.tables t.table_id t) k) ≡ true
put_keeps_table r t k stays h = elim (Bool-cases (str_eq t.table_id k)) [
  | inl e ↦
      let same : t.table_id ≡ k = (eq_iff t.table_id k).0 e in
      rw (get-put r.tables t.table_id k t, e) (ground (arith, same, stays, h))
  | inr e ↦ rw (get-put r.tables t.table_id k t, e) h
]

-- what holds of one state also holds of the next
abbrev Keeps : Registry → Registry → String → Type 0
Keeps r r' k =
    (retired_product (get r.products k) ≡ true → retired_product (get r'.products k) ≡ true)
    × (retired_table (get r.tables k) ≡ true → retired_table (get r'.tables k) ≡ true)

call-Keeps : (r : Registry) (c : Call) (k : String) → Keeps r (state_after r (call r c)) k
unfolding call write_changeset
call-Keeps r (product_call p) k = elim (write_product-cases r p) [
  | inl (e, raised) ↦ rw raised (λ h. h, λ h. h)
  | inr w ↦ rw w.wrote (put_keeps_product r p k w.stays, λ h. h)
]
call-Keeps r (table_call t) k = elim (write_table-cases r t) [
  | inl (e, raised) ↦ rw raised (λ h. h, λ h. h)
  | inr w ↦ rw w.wrote (λ h. h, put_keeps_table r t k w.stays)
]
call-Keeps r (mappings_call id ms) k = elim (write_mappings-cases r id ms) [
  | inl (e, raised) ↦ rw raised (λ h. h, λ h. h)
  | inr w ↦ rw w.wrote (λ h. h, λ h. h)
]
call-Keeps r (changeset_call c) k = (λ h. h, λ h. h)

run-Keeps : (r : Registry) (cs : List Call) (k : String) → Keeps r (run r cs) k
unfolding run
run-Keeps r [] k = (λ h. h, λ h. h)
run-Keeps r (c ∷ cs) k =
    let now = call-Keeps r c k in
    let later = run-Keeps (state_after r (call r c)) cs k in
    (λ h. later.0 (now.0 h), λ h. later.1 (now.1 h))

-- Retirement of a product is final: an identifier that names a retired product still does after
-- any calls.
pub run_keeps_retired_product :
    (r : Registry) (cs : List Call) (k : String)
    → retired_product (get r.products k) ≡ true
    → retired_product (get (run r cs).products k) ≡ true
run_keeps_retired_product r cs k h = (run-Keeps r cs k).0 h

-- Retirement of a table is final: an identifier that names a retired table still does after any
-- calls.
run_keeps_retired_table :
    (r : Registry) (cs : List Call) (k : String)
    → retired_table (get r.tables k) ≡ true
    → retired_table (get (run r cs).tables k) ≡ true
run_keeps_retired_table r cs k h = (run-Keeps r cs k).1 h

-- `write_product` tests a new key against the aliases of the others, and no new alias against
-- their keys: once a product is written whose aliases hold another product's key, every write of
-- a record with that key and another identifier raises.
pub alias_locks_out :
    (r : Registry) (intruder p : ProductRecord)
    → WroteProduct r intruder
    → intruder.product_id ≢ p.product_id
    → contains intruder.aliases p.product_key ≡ true
    → Raises (write_product (with_product r intruder) p)
alias_locks_out r intruder p w differ takes =
    elim (write_product-cases (with_product r intruder) p) [
      | inl raised ↦ raised
      | inr w' ↦ absurd (
          ground (
            arith,
            any-values-get (takes_key p) (with_product r intruder).products intruder.product_id
                intruder w'.free,
            get-put r.products intruder.product_id intruder.product_id intruder,
            eq_iff intruder.product_id intruder.product_id,
            eq_iff intruder.product_id p.product_id,
            takes,
            differ,
          ))
    ]
