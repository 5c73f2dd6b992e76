-- ===== src/Registry/Crash.antt =====
-- src/ard_ossie/registry.py: a process that stops between two file replacements, and a restart
-- after any calls.
use ard_ossie_provider.Prelude.{
  ℕ, zero, suc, ◌≡◌, refl, subst₂, ◌⊎◌, inl, inr, List, [], ◌∷◌, String, take, Result, ok, err,
}
use ard_ossie_provider.Prelude.Dict.{Dict, put}
use ard_ossie_provider.Models.{ProductRecord, TableRecord, ProductTableRef}
use ard_ossie_provider.Impact.{ChangeSetRecord}
use ard_ossie_provider.Registry.{
  Registry, IdentityConflict, load, write_changeset, write_indexes, Call, product_call, table_call,
  mappings_call, changeset_call, call, state_after, run,
}
use ard_ossie_provider.Registry.Files.{
  Disk, Write, product_file, table_file, mapping_file, changeset_file, write_all,
}
use ard_ossie_provider.Registry.Outcomes.{
  with_product, with_table, sorted_links, write_product-cases, write_table-cases,
  write_mappings-cases,
}
use ard_ossie_provider.Registry.Reload.{
  SameRecords, Mirrors, IsFiled, InStep, load-SameRecords, product_file-InStep, table_file-InStep,
  mapping_file-InStep, changeset_file-InStep,
}

-- `load` does not read the index files
index-InStep :
    (r : Registry) (d : Disk) (keys locators : Dict String)
    → InStep r d
    → InStep r (record d { product_keys = keys; table_locators = locators })
index-InStep r d keys locators s = (
  record {
    products = s.0.products;
    tables = s.0.tables;
    mappings = s.0.mappings;
    changesets = s.0.changesets;
    own_products = s.0.own_products;
    own_tables = s.0.own_tables;
    own_changesets = s.0.own_changesets;
  },
  record {
    products = s.1.products;
    tables = s.1.tables;
    mappings = s.1.mappings;
    changesets = s.1.changesets;
  },
)

-- after the first `n` replacements the files are in step with the state before or the state after
abbrev Between : Registry → Registry → Disk → List Write → ℕ → Type 0
Between r r' d ws n = InStep r (write_all d (take n ws)) ⊎ InStep r' (write_all d (take n ws))

module _ (r : Registry) (d : Disk) (s : InStep r d) where
  product-Between :
      (p : ProductRecord) (n : ℕ)
      → Between r
          (with_product r p)
          d
          (product_file p.product_id p ∷ write_indexes (with_product r p))
          n
  unfolding write_all write_indexes
  product-Between p zero = inl s
  product-Between p (suc zero) = inr (product_file-InStep r d s p)
  product-Between p (suc (suc zero)) =
      inr (index-InStep _ _ _ d.table_locators (product_file-InStep r d s p))
  product-Between p (suc (suc (suc n))) = inr (index-InStep _ _ _ _ (product_file-InStep r d s p))

  table-Between :
      (t : TableRecord) (n : ℕ)
      → Between r (with_table r t) d (table_file t.table_id t ∷ write_indexes (with_table r t)) n
  unfolding write_all write_indexes
  table-Between t zero = inl s
  table-Between t (suc zero) = inr (table_file-InStep r d s t)
  table-Between t (suc (suc zero)) =
      inr (index-InStep _ _ _ d.table_locators (table_file-InStep r d s t))
  table-Between t (suc (suc (suc n))) = inr (index-InStep _ _ _ _ (table_file-InStep r d s t))

  mappings-Between :
      (id : String) (ms : List ProductTableRef) (n : ℕ)
      → Between r (record r { mappings = put r.mappings id ms }) d (mapping_file id ms ∷ []) n
  unfolding write_all
  mappings-Between id ms zero = inl s
  mappings-Between id ms (suc n) = inr (mapping_file-InStep r d s id ms)

  changeset-Between :
      (c : ChangeSetRecord) (n : ℕ)
      → Between r
          (record r { changesets = put r.changesets c.changeset_id c })
          d
          (changeset_file c.changeset_id c ∷ [])
          n
  unfolding write_all
  changeset-Between c zero = inl s
  changeset-Between c (suc n) = inr (changeset_file-InStep r d s c)

  -- what a call returned, against what it is known to return
  same_outcome :
      (m : Result IdentityConflict (List Write × Registry)) (ws vs : List Write) (a b : Registry)
      (n : ℕ)
      → m ≡ ok (ws, a)
      → m ≡ ok (vs, b)
      → Between r b d vs n
      → Between r a d ws n
  same_outcome m ws vs a b n e f h =
      let p : vs ≡ ws = cc (e, f) in
      let q : b ≡ a = cc (e, f) in subst₂ (λ x y. Between r x d y n) q p h

  call-Between :
      (c : Call) (ws : List Write) (r' : Registry) (n : ℕ)
      → call r c ≡ ok (ws, r')
      → Between r r' d ws n
  unfolding call write_changeset
  call-Between (product_call p) ws r' n h = elim (write_product-cases r p) [
    | inl (e, raised) ↦ cc (raised, h)
    | inr w ↦ same_outcome _ ws _ r' _ n h w.wrote (product-Between p n)
  ]
  call-Between (table_call t) ws r' n h = elim (write_table-cases r t) [
    | inl (e, raised) ↦ cc (raised, h)
    | inr w ↦ same_outcome _ ws _ r' _ n h w.wrote (table-Between t n)
  ]
  call-Between (mappings_call id ms) ws r' n h = elim (write_mappings-cases r id ms) [
    | inl (e, raised) ↦ cc (raised, h)
    | inr w ↦ same_outcome _ ws _ r' _ n h w.wrote (mappings-Between id (sorted_links ms) n)
  ]
  call-Between (changeset_call c) ws r' n h =
      same_outcome _ ws _ r' _ n h refl (changeset-Between c n)

  -- all the writes of a call leave the files in step with the state after it
  completes :
      (m : Result IdentityConflict (List Write × Registry)) (ws vs : List Write) (a b : Registry)
      → m ≡ ok (ws, a)
      → m ≡ ok (vs, b)
      → InStep b (write_all d vs)
      → InStep a (write_all d ws)
  completes m ws vs a b e f h =
      let p : vs ≡ ws = cc (e, f) in
      let q : b ≡ a = cc (e, f) in subst₂ (λ x y. InStep x (write_all d y)) q p h

  call-InStep :
      (c : Call) (ws : List Write) (r' : Registry)
      → call r c ≡ ok (ws, r')
      → InStep r' (write_all d ws)
  unfolding call write_changeset write_all write_indexes
  call-InStep (product_call p) ws r' h = elim (write_product-cases r p) [
    | inl (e, raised) ↦ cc (raised, h)
    | inr w ↦ completes _ ws _ r' _ h w.wrote (index-InStep _ _ _ _ (product_file-InStep r d s p))
  ]
  call-InStep (table_call t) ws r' h = elim (write_table-cases r t) [
    | inl (e, raised) ↦ cc (raised, h)
    | inr w ↦ completes _ ws _ r' _ h w.wrote (index-InStep _ _ _ _ (table_file-InStep r d s t))
  ]
  call-InStep (mappings_call id ms) ws r' h = elim (write_mappings-cases r id ms) [
    | inl (e, raised) ↦ cc (raised, h)
    | inr w ↦ completes _ ws _ r' _ h w.wrote (mapping_file-InStep r d s id (sorted_links ms))
  ]
  call-InStep (changeset_call c) ws r' h =
      completes _ ws _ r' _ h refl (changeset_file-InStep r d s c)

-- the files after a call; one that raises has written nothing
abbrev pub files_after : Disk → Result IdentityConflict (List Write × Registry) → Disk
files_after d (ok (ws, r')) = write_all d ws
files_after d (err e) = d

pub run_files : Registry → Disk → List Call → Disk
run_files r d [] = d
run_files r d (c ∷ cs) = run_files (state_after r (call r c)) (files_after d (call r c)) cs

step-InStep :
    (r : Registry) (d : Disk) (c : Call)
    → InStep r d
    → InStep (state_after r (call r c)) (files_after d (call r c))
step-InStep r d c s = go (call r c) refl
  where
    go :
        (m : Result IdentityConflict (List Write × Registry))
        → call r c ≡ m
        → InStep (state_after r m) (files_after d m)
    go (ok (ws, r')) e = call-InStep r d s c ws r' e
    go (err x) e = s

run-InStep :
    (r : Registry) (d : Disk) (cs : List Call) → InStep r d → InStep (run r cs) (run_files r d cs)
unfolding run run_files
run-InStep r d [] s = s
run-InStep r d (c ∷ cs) s =
    run-InStep (state_after r (call r c)) (files_after d (call r c)) cs (step-InStep r d c s)

-- A restart loses nothing: from files in step with the registry, after any calls, raising ones
-- included, `load` answers every lookup as the registry in memory does.
pub restart_after_run :
    (r : Registry) (d : Disk) (cs : List Call)
    → IsFiled d
    → Mirrors r d
    → SameRecords (load (run_files r d cs)) (run r cs)
restart_after_run r d cs f m =
    let s = run-InStep r d cs (f, m) in load-SameRecords (run r cs) (run_files r d cs) s.0 s.1

-- A call is atomic for a process that stops inside it: after any number of its file replacements,
-- `load` answers every lookup as the registry did before the call, or every one as after it.
pub restart_inside_call :
    (r : Registry) (d : Disk) (c : Call) (ws : List Write) (r' : Registry) (n : ℕ)
    → IsFiled d
    → Mirrors r d
    → call r c ≡ ok (ws, r')
    → SameRecords (load (write_all d (take n ws))) r
      ⊎ SameRecords (load (write_all d (take n ws))) r'
restart_inside_call r d c ws r' n f m h = elim (call-Between r d (f, m) c ws r' n h) [
  | inl s ↦ inl (load-SameRecords r (write_all d (take n ws)) s.0 s.1)
  | inr s ↦ inr (load-SameRecords r' (write_all d (take n ws)) s.0 s.1)
]
