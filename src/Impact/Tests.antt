-- ===== src/Impact/Tests.antt =====
-- Runs of src/ard_ossie/impact.py, and its theorems at concrete inputs.
use ard_ossie_provider.Prelude.{
  ℕ, ◌≡◌, refl, ◌↔◌, true, List, [], ◌∷◌, String, all, length, ltb, ok, none,
}
use ard_ossie_provider.Prelude.Text.{contains, str_leb}
use ard_ossie_provider.Prelude.Sets.{IsStrict}
use ard_ossie_provider.Models.{ProductTableRef, source}
use ard_ossie_provider.Impact.{
  ImpactReport, ChangeSetRecord, ready, blocked, status, analyze_table_change,
}
use ard_ossie_provider.Impact.Readiness.{Mark, mark_all, is_marked, status-mark_all_iff}
use ard_ossie_provider.Impact.Analysis.{is_mapped, analyze_table_change_exact}

abbrev sha : String
sha = "0123456789abcdef0123456789abcdef01234567"

abbrev change : ChangeSetRecord
change = record {
  changeset_id = "cst_1";
  table_ids = "tbl_1" ∷ [];
  required_product_ids = "prd_1" ∷ "prd_2" ∷ [];
  ready_products = [];
}

abbrev mark : String → ℕ → Mark
mark p v = record { product_id = p; version = v; pr_number = 7; head_sha = sha }

-- the second report names a product that is not required, the third no version
abbrev reports : List Mark
reports = mark "prd_2" 4 ∷ mark "prd_3" 1 ∷ mark "prd_1" 1000 ∷ mark "prd_1" 2 ∷ []

status-reports : status (mark_all change reports) ≡ ready
unfolding status mark_all
status-reports = refl

status-part : status (mark_all change (mark "prd_2" 4 ∷ [])) ≡ blocked
unfolding status mark_all
status-part = refl

status-mark_all_iff_example :
    (status (mark_all change reports) ≡ ready)
    ↔ (all (is_marked change.required_product_ids reports) change.required_product_ids ≡ true)
status-mark_all_iff_example = status-mark_all_iff change reports refl

abbrev first : String
first = "prd_01890a5d-ac96-774b-bcce-b302099a8057"

abbrev second : String
second = "prd_01890a5d-ac96-774b-bcce-b302099a8058"

abbrev table : String
table = "tbl_01890a5d-ac96-774b-bcce-b302099a8059"

abbrev link : String → ProductTableRef
link p = record {
  link_id = "lnk_1";
  product_id = p;
  table_id = table;
  table_version = 1;
  usage = source;
  required = true;
  semantic_dataset = none;
}

abbrev report : ImpactReport
report = record { table_id = table; required_product_ids = first ∷ second ∷ []; shared = true }

report_made : analyze_table_change table (link second ∷ link first ∷ link second ∷ []) ≡ ok report
unfolding analyze_table_change str_leb
report_made = refl

analyze_table_change_exact_example :
    IsStrict report.required_product_ids
    × ((p : String)
        → contains report.required_product_ids p
          ≡ is_mapped table (link second ∷ link first ∷ link second ∷ []) p)
    × (report.shared ≡ ltb 1 (length report.required_product_ids))
analyze_table_change_exact_example =
    analyze_table_change_exact table (link second ∷ link first ∷ link second ∷ []) report
      report_made
