-- ===== src/Registry/Admission.antt =====
-- src/ard_ossie/identity.py and registry.py: what the classifier admits, the Registry writes.
use ard_ossie_provider.Prelude.{
  ◌≡◌, inl, inr, refl, sym, ap, ◌∙◌, Bool, true, false, ◌&&◌, some, [], ◌∷◌, String, arith, any,
  find_first, any-find_first, find_first-holds, Option-cases, Bool-cases, eq_iff, subst,
}
use ard_ossie_provider.Prelude.Sorting.{sort_by, any-sort_by}
use ard_ossie_provider.Prelude.Dict.{Dict, get, values, any-values-get}
use ard_ossie_provider.Prelude.Reindex.{HasNodupKeys, get-sort_by, sort_by-HasNodupKeys}
use ard_ossie_provider.Models.{TableRecord, is_retired, is_active}
use ard_ossie_provider.Models.Locator.{key}
use ard_ossie_provider.Identity.{
  DuplicateDecision, block, reuse, classify_table, classify_table_found, classify_known_table,
  classify_unknown_table, classify_located, has_table_id, has_locator,
}
use ard_ossie_provider.Registry.{Registry, tables, takes_locator, table_returns, write_table}
use ard_ossie_provider.Registry.Outcomes.{WroteTable}
use ard_ossie_provider.Registry.Unique.{HasUniqueNames}

-- the pipeline goes on and writes the table under its own identifier
abbrev pub is_admitted : DuplicateDecision → Bool
is_admitted block = false
is_admitted reuse = false
is_admitted _ = true

module _ {V : Type 0} (test : V → Bool) where
  any-values : (d : Dict V) → any test (values d) ≡ any (λ (e : String × V). test e.1) d
  any-values [] = refl
  any-values ((k, v) ∷ d) = ground (arith, any-values d)

  any-sorted_values :
      (d : Dict V) → any test (values (sort_by (λ (e : String × V). e.0) d)) ≡ any test (values d)
  any-sorted_values d =
      any-values (sort_by (λ (e : String × V). e.0) d)
      ∙ (any-sort_by (λ (e : String × V). e.0) (λ (e : String × V). test e.1) d
          ∙ sym (any-values d))

  found_stored :
      (d : Dict V) (v : V)
      → HasNodupKeys d
      → find_first test (values d) ≡ some v
      → (k : String) × (get d k ≡ some v)
  unfolding get
  found_stored [] v n h = cc
  found_stored ((i, w) ∷ d) v n h = elim (Bool-cases (test w)) [
    | inl e ↦ (i, ground (arith, e, h, eq_iff i i))
    | inr e ↦
        let later = found_stored d v n.1 (ground (arith, e, h)) in
        (later.0, ground (arith, later.1, n.0, eq_iff i later.0, ap (get d)))
  ]

module _ (r : Registry) (unique : HasUniqueNames r) (n : HasNodupKeys r.tables)
    (t : TableRecord) where
  -- the record that the lookup by identifier finds
  found_by_id :
      (t0 : TableRecord)
      → find_first (has_table_id t) (tables r) ≡ some t0
      → get r.tables t.table_id ≡ some t0
  unfolding tables
  found_by_id t0 e =
      let stored =
        found_stored (has_table_id t) (sort_by (λ (e : String × TableRecord). e.0) r.tables) t0
          (sort_by-HasNodupKeys (λ (e : String × TableRecord). e.0) r.tables n) e in
      let here : get r.tables stored.0 ≡ some t0 =
        sym (get-sort_by (λ (e : String × TableRecord). e.0) r.tables stored.0 n) ∙ stored.1 in
      subst (λ k. get r.tables k ≡ some t0)
        (sym (unique.own_table stored.0 t0 here)
          ∙ (eq_iff t0.table_id t.table_id).0 (find_first-holds (has_table_id t) (tables r) t0 e))
        here

  -- no other table is at the locator, where every table at it has the identifier
  free_locator :
      ((j : String) (u : TableRecord)
        → get r.tables j ≡ some u
        → key u.locator ≡ key t.locator
        → j ≡ t.table_id)
      → any (takes_locator t) (values r.tables) ≡ false
  free_locator only = elim (Option-cases (find_first (takes_locator t) (values r.tables))) [
    | inl e ↦ any-find_first (takes_locator t) (values r.tables) ∙ rw e refl
    | inr (u, e) ↦
        let stored = found_stored (takes_locator t) r.tables u n e in
        let takes = find_first-holds (takes_locator t) (values r.tables) u e in
        absurd (
          ground (
            arith,
            takes,
            only stored.0 u stored.1
                ((eq_iff (key u.locator) (key t.locator)).0 (ground (arith, takes))),
            unique.own_table stored.0 u stored.1,
            eq_iff u.table_id t.table_id,
          ))
  ]

  written :
      table_returns (get r.tables t.table_id) t ≡ false
      → any (takes_locator t) (values r.tables) ≡ false
      → WroteTable r t
  unfolding write_table
  written stays free = elim (Option-cases (find_first (takes_locator t) (values r.tables))) [
    | inl e ↦ record { stays = stays; free = free; wrote = rw (stays, e) }
    | inr (u, e) ↦
        absurd (ground (arith, free, e, any-find_first (takes_locator t) (values r.tables)))
  ]

  known_admitted :
      (t0 : TableRecord)
      → is_admitted (classify_known_table t t0).decision ≡ true
      → ((is_retired t0.status && is_active t.status) ≡ false) × (key t0.locator ≡ key t.locator)
  unfolding classify_known_table
  known_admitted t0 h =
      (ground (arith, h), ground (arith, h, eq_iff (key t0.locator) (key t.locator)))

  located_refused : (u : TableRecord) → is_admitted (classify_located u).decision ≡ false
  unfolding classify_located
  located_refused u = ground arith

  write_known :
      (t0 : TableRecord)
      → get r.tables t.table_id ≡ some t0
      → is_admitted (classify_known_table t t0).decision ≡ true
      → WroteTable r t
  write_known t0 e h =
      let admitted = known_admitted t0 h in
      written (ap (λ o. table_returns o t) e ∙ admitted.0) (
        free_locator
          λ j u stored same. unique.locators j t.table_id u t0 stored e (same ∙ sym admitted.1))

  write_unknown :
      any (has_table_id t) (tables r) ≡ false
      → any (has_locator t) (tables r) ≡ false
      → WroteTable r t
  unfolding tables
  write_unknown no_id no_locator =
      let ids : any (has_table_id t) (values r.tables) ≡ false =
        sym (any-sorted_values (has_table_id t) r.tables) ∙ no_id in
      let locators : any (has_locator t) (values r.tables) ≡ false =
        sym (any-sorted_values (has_locator t) r.tables) ∙ no_locator in
      written
        (elim (Option-cases (get r.tables t.table_id)) [
          | inl e ↦ ap (λ o. table_returns o t) e
          | inr (w, e) ↦ absurd (
              ground (
                arith,
                any-values-get (has_table_id t) r.tables t.table_id w ids e,
                unique.own_table t.table_id w e,
                eq_iff w.table_id t.table_id,
              ))
        ])
        (free_locator λ j u stored same. absurd (
          ground (
            arith,
            any-values-get (has_locator t) r.tables j u locators stored,
            same,
            eq_iff (key u.locator) (key t.locator),
          )))

-- Where the Registry keeps its names unique, a table that classify_table admits, so neither blocks
-- nor refers to another identifier, is written: write_table raises no conflict.
pub write_table_admitted :
    (r : Registry) (t : TableRecord)
    → HasUniqueNames r
    → HasNodupKeys r.tables
    → is_admitted (classify_table t (tables r)).decision ≡ true
    → WroteTable r t
unfolding classify_table classify_table_found classify_unknown_table
write_table_admitted r t unique n h = elim (Option-cases (find_first (has_table_id t) (tables r))) [
  | inr (t0, e) ↦
      write_known r unique n t t0 (found_by_id r unique n t t0 e)
        (subst (λ o. is_admitted (classify_table_found t (tables r) o).decision ≡ true) e h)
  | inl e ↦
      let unknown =
        subst (λ o. is_admitted (classify_table_found t (tables r) o).decision ≡ true) e h in
      elim (Option-cases (find_first (has_locator t) (tables r))) [
        | inl f ↦
            write_unknown r unique n t (any-find_first (has_table_id t) (tables r) ∙ rw e refl)
              (any-find_first (has_locator t) (tables r) ∙ rw f refl)
        | inr (u, f) ↦ absurd (
            ground (
              arith,
              located_refused r unique n t u,
              subst (λ o. is_admitted (classify_unknown_table t (tables r) o).decision ≡ true) f
                  unknown,
            ))
      ]
]
