-- ===== src/Detection/Safe.antt =====
-- src/ard_ossie/application/release_detection.py: why a product stands among the outputs.
use ard_ossie_provider.Prelude.{◌≡◌, ◌⊎◌, inl, inr, sym, ap, ◌∙◌, true, List, [], String, arith, ok}
use ard_ossie_provider.Prelude.Text.{contains}
use ard_ossie_provider.Prelude.Sets.{sorted_set, contains-sorted_set}
use ard_ossie_provider.Registry.{Registry}
use ard_ossie_provider.Detection.{ChangedPath, Request, Ports, WorkflowResult, Found, visit_paths}
use ard_ossie_provider.Detection.Expansion.{result_of, loaded, run}
use ard_ossie_provider.Detection.Outputs.{run-IsRun}
use ard_ossie_provider.Detection.Released.{IsExpandedFrom, visit_ids-origin}
use ard_ossie_provider.Detection.Touched.{IsTouched, visit_paths-IsTouched}
use ard_ossie_provider.Detection.Direct.{IsDirect, visit_paths-Origin}

-- the key is of a product that a due changeset requires, and one of the paths touches the changeset
pub record IsOfTouched (ports : Ports) (r : Registry) (paths : List ChangedPath) (k : String)
    : Type 0 where
  pub ids : List String
  pub expanded : IsExpandedFrom r ids k
  pub touched : IsTouched ports r paths expanded.id

expanded-IsOfTouched :
    (ports : Ports) (r : Registry) (found : Found) (k : String)
    → visit_paths ports r ports.changed_paths (record { direct = []; changesets = []; tables = [] })
      ≡ ok found
    → IsExpandedFrom r (sorted_set found.changesets) k
    → IsOfTouched ports r ports.changed_paths k
expanded-IsOfTouched ports r found k visited w =
    let listed : contains found.changesets w.id ≡ true =
      sym (contains-sorted_set found.changesets w.id) ∙ w.listed in
    elim (visit_paths-IsTouched ports r ports.changed_paths
      (record { direct = []; changesets = []; tables = [] }) found w.id visited listed) [
        | inl before ↦ absurd (ground (arith, before))
        | inr touched ↦ record {
          ids = sorted_set found.changesets;
          expanded = w;
          touched = touched;
        }
      ]

-- A product that a detection releases is a direct one, of which the merge changed a file below
-- `generated` that is still there and whose configuration, of its identifier, key and version,
-- names no changeset; or it is required by a ready changeset, of which every required product stands
-- in the Registry at the version at which it is ready, and the merge changed the changeset's file,
-- or one below `generated` of a product whose configuration names the changeset.
pub run-origin :
    (ports : Ports) (request : Request) (result : WorkflowResult) (k : String)
    → run ports request ≡ ok result
    → contains result.products k ≡ true
    → (r : Registry) × ((loaded ports.registry ≡ ok r)
        × (IsDirect ports r ports.changed_paths k ⊎ IsOfTouched ports r ports.changed_paths k))
unfolding result_of
run-origin ports request result k h l =
    let stages = run-IsRun ports request result h in
    let among : contains stages.e.products k ≡ true =
      sym (contains-sorted_set stages.e.products k)
      ∙ (ap (λ x. contains x.products k) stages.is_result ∙ l) in
    (
      stages.r,
      (
        stages.is_loaded,
        elim (visit_ids-origin stages.r (sorted_set stages.found.changesets)
            (record { products = stages.found.direct; tables = stages.found.tables; deferred = [] })
            stages.e k stages.expanded among) [
              | inr w ↦ inr (expanded-IsOfTouched ports stages.r stages.found k stages.visited w)
              | inl d ↦
                  elim (visit_paths-Origin ports stages.r ports.changed_paths
                    (record { direct = []; changesets = []; tables = [] }) stages.found k
                    stages.visited d) [
                      | inr w ↦ inl w
                      | inl none_yet ↦ absurd (ground (arith, none_yet))
                    ]
            ],
      ),
    )
