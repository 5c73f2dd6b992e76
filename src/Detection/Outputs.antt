-- ===== src/Detection/Outputs.antt =====
-- src/ard_ossie/application/release_detection.py: the form of the outputs.
use ard_ossie_provider.Prelude.{
  ◌≡◌, ◌↔◌, refl, not, ap, eq_iff, true, List, [], ◌∷◌, String, arith, raise_if, ok, in_chain,
  ok_injective, subst,
}
use ard_ossie_provider.Prelude.Text.{str_eq, contains}
use ard_ossie_provider.Prelude.Sets.{sorted_set, IsStrict, sorted_set-IsStrict, contains-sorted_set}
use ard_ossie_provider.Registry.{Registry}
use ard_ossie_provider.Detection.{
  Found, Request, Ports, noop, WorkflowResult, repository_mismatch, head_mismatch, visit_paths,
}
use ard_ossie_provider.Detection.Expansion.{
  Expanded, released_tables, is_empty, result_of, loaded, run, visit_ids,
}

-- both lists are strictly ascending, and the status says whether they are empty
pub record IsTidy (result : WorkflowResult) : Type 0 where
  pub products : IsStrict result.products
  pub tables : IsStrict result.tables
  pub is_noop : (result.status ≡ noop) ↔ ((result.products ≡ []) × (result.tables ≡ []))

sorted_set_empty : (xs : List String) → (is_empty xs ≡ true) ↔ (sorted_set xs ≡ [])
unfolding sorted_set
sorted_set_empty [] = (λ _. refl, λ _. refl)
sorted_set_empty (x ∷ xs) = (
  λ h. cc,
  λ h. ground (arith, ap (λ l. contains l x) h, contains-sorted_set (x ∷ xs) x, eq_iff x x),
)

result_of-IsTidy :
    (ports : Ports) (request : Request) (e : Expanded) → IsTidy (result_of ports request e)
unfolding result_of
result_of-IsTidy ports request e = record {
  products = sorted_set-IsStrict e.products;
  tables = sorted_set-IsStrict (released_tables e);
  is_noop = ground (arith, sorted_set_empty e.products, sorted_set_empty (released_tables e));
}

-- the stages of a run that returns
pub record IsRun (ports : Ports) (request : Request) (result : WorkflowResult) : Type 0 where
  pub r : Registry
  pub found : Found
  pub e : Expanded
  pub is_loaded : loaded ports.registry ≡ ok r
  pub visited :
      visit_paths ports r ports.changed_paths (record { direct = []; changesets = []; tables = [] })
      ≡ ok found
  pub expanded :
      visit_ids r
        (sorted_set found.changesets)
        (record { products = found.direct; tables = found.tables; deferred = [] })
      ≡ ok e
  pub is_result : result_of ports request e ≡ result

pub run-IsRun :
    (ports : Ports) (request : Request) (result : WorkflowResult)
    → run ports request ≡ ok result
    → IsRun ports request result
unfolding run
run-IsRun ports request result h =
    in_chain (raise_if (not (str_eq request.repository ports.root)) repository_mismatch) _ result h
      λ _ _ h.
        in_chain (raise_if (not (str_eq ports.current_sha request.current)) head_mismatch) _ result
          h
          λ _ _ h. in_chain (loaded ports.registry) _ result h λ r is_loaded h.
            in_chain
              (visit_paths ports r ports.changed_paths
                (record { direct = []; changesets = []; tables = [] }))
              _ result h
              λ found visited h.
                in_chain
                  (visit_ids r (sorted_set found.changesets)
                    (record { products = found.direct; tables = found.tables; deferred = [] }))
                  _ result h
                  λ e expanded h. record {
                    r = r;
                    found = found;
                    e = e;
                    is_loaded = is_loaded;
                    visited = visited;
                    expanded = expanded;
                    is_result = ok_injective (result_of ports request e) result h;
                  }

-- A detection that returns gives both lists strictly ascending, so without repetition, and NOOP
-- exactly if both are empty.
pub run-IsTidy :
    (ports : Ports) (request : Request) (result : WorkflowResult)
    → run ports request ≡ ok result
    → IsTidy result
run-IsTidy ports request result h =
    let stages = run-IsRun ports request result h in
    subst IsTidy stages.is_result (result_of-IsTidy ports request stages.e)
