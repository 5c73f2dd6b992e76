-- ===== src/Detection/Withheld.antt =====
-- src/ard_ossie/application/release_detection.py: the outputs for a ready changeset that is touched.
use ard_ossie_provider.Prelude.{◌≡◌, ◌⊎◌, not, true, String, All, all}
use ard_ossie_provider.Prelude.Text.{contains}
use ard_ossie_provider.Impact.{ChangeSetRecord}
use ard_ossie_provider.Registry.{Registry}
use ard_ossie_provider.Detection.{Found, WorkflowResult}
use ard_ossie_provider.Detection.Released.{IsExpandedFrom}
use ard_ossie_provider.Detection.Waiting.{IsWaiting, IsWithheld}
use ard_ossie_provider.Release.Current.{IsCurrent}
use ard_ossie_provider.Detection.Whole.{HasKey}

-- what becomes of a ready changeset that the merge touches
abbrev pub IsReleasedWhole : Registry → Found → ChangeSetRecord → WorkflowResult → Type 0
IsReleasedWhole r found c result =
    (All (IsCurrent r c) c.required_product_ids
      × All (HasKey r result.products) c.required_product_ids
      × ((t : String)
          → contains c.table_ids t ≡ true
          → (contains result.tables t ≡ true) ⊎ IsWithheld r found.changesets t))
    ⊎ (IsWaiting r c
        × (all (λ t. not (contains result.tables t)) c.table_ids ≡ true)
        × ((k : String)
            → contains result.products k ≡ true
            → (contains found.direct k ≡ true) ⊎ IsExpandedFrom r found.changesets k))
