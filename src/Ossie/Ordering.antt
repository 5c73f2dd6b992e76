-- ===== src/Ossie/Ordering.antt =====
-- src/ard_ossie/ossie_compiler.py: the order of a product's parts.
use mathlib.Core.List.{Permᴰ}
use ard_ossie_provider.Prelude.{◌≡◌, refl, sym, Bool, List, map}
use ard_ossie_provider.Prelude.Sets.{IsNodup}
use ard_ossie_provider.Prelude.Rearrange.{sort_by-Permᴰ}
use ard_ossie_provider.Ossie.{
  TableIr, RelationshipIr, MetricIr, ProductIr, SemanticModel, semantic_model, compile_ossie,
}

-- Where no identifier stands twice, the order in which a product lists its tables, relationships
-- and metrics changes neither the compiled model nor the error.
pub compile_ossie_rearranged :
    (accepts : SemanticModel → Bool) (p : ProductIr) (ts : List TableIr) (rs : List RelationshipIr)
    (ms : List MetricIr)
    → IsNodup (map (λ (t : TableIr). t.table_id) p.tables)
    → IsNodup (map (λ (r : RelationshipIr). r.relationship_id) p.relationships)
    → IsNodup (map (λ (m : MetricIr). m.metric_id) p.metrics)
    → Permᴰ p.tables ts
    → Permᴰ p.relationships rs
    → Permᴰ p.metrics ms
    → compile_ossie accepts (record p { tables = ts; relationships = rs; metrics = ms })
      ≡ compile_ossie accepts p
unfolding compile_ossie semantic_model
compile_ossie_rearranged accepts p ts rs ms nt nr nm dt dr dm =
    rw
      (
        sym (sort_by-Permᴰ (λ (t : TableIr). t.table_id) dt nt),
        sym (sort_by-Permᴰ (λ (r : RelationshipIr). r.relationship_id) dr nr),
        sym (sort_by-Permᴰ (λ (m : MetricIr). m.metric_id) dm nm),
      )
      refl
