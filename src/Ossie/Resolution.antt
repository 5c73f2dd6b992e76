-- ===== src/Ossie/Resolution.antt =====
-- src/ard_ossie/ossie_compiler.py: the references of relationships to tables.
use ard_ossie_provider.Prelude.{
  ◌≡◌, ◌⊎◌, inl, inr, refl, ap, ◌∙◌, fun_ext, not, Bool, true, false, ◌||◌, ◌&&◌, Option, none,
  some, List, [], ◌∷◌, map, String, arith, All, any, find_first, ok, err, in_chain, ok_injective,
  subst, Result, Bool-cases, eq_iff, if◌then◌else◌, ◌>>=◌,
}
use ard_ossie_provider.Prelude.Text.{str_eq, contains}
use ard_ossie_provider.Prelude.Sorting.{any-sort_by}
use ard_ossie_provider.Prelude.Dict.{Dict, get, put, get-put, has}
use ard_ossie_provider.Ossie.{
  TableIr, RelationshipIr, ProductIr, Dataset, Relationship, SemanticModel, CompileError,
  unresolved_reference, schema_violation, compile_dataset, names_from, compile_relationship,
  compile_relationships, sorted_tables, sorted_relationships, semantic_model, compile_ossie,
}

abbrev pub dataset_names : List Dataset → List String
dataset_names ds = map (λ (d : Dataset). d.name) ds

-- both ends of the relationship are datasets of the list
abbrev pub IsResolved : List String → Relationship → Type 0
IsResolved names r = (contains names r.from_dataset ≡ true) × (contains names r.to_dataset ≡ true)

names_from-dataset :
    (d : Dict String) (ts : List TableIr) (k n : String)
    → get (names_from d ts) k ≡ some n
    → (get d k ≡ some n) ⊎ (contains (dataset_names (map compile_dataset ts)) n ≡ true)
unfolding names_from compile_dataset
names_from-dataset d [] k n h = inl h
names_from-dataset d (t ∷ ts) k n h =
    elim (names_from-dataset (put d t.table_id t.dataset_name) ts k n h) [
      | inr later ↦ inr (ground (arith, later))
      | inl now ↦ elim (Bool-cases (str_eq t.table_id k)) [
        | inl e ↦
            inr (
              ground
                (arith, now, e, get-put d t.table_id k t.dataset_name, eq_iff t.dataset_name n))
        | inr e ↦ inl (ground (arith, now, e, get-put d t.table_id k t.dataset_name))
      ]
    ]

compile_relationship-cases :
    (r : RelationshipIr) (f t : Option String) (out : Relationship)
    → compile_relationship r f t ≡ ok out
    → (f ≡ some out.from_dataset) × (t ≡ some out.to_dataset)
unfolding compile_relationship
compile_relationship-cases r none t out h = cc
compile_relationship-cases r (some a) none out h = cc
compile_relationship-cases r (some a) (some b) out h = (
  ap (λ x. some x.from_dataset) (ok_injective {E = CompileError} _ out h),
  ap (λ x. some x.to_dataset) (ok_injective {E = CompileError} _ out h),
)

named :
    (ts : List TableIr) (k n : String)
    → get (names_from [] ts) k ≡ some n
    → contains (dataset_names (map compile_dataset ts)) n ≡ true
unfolding get
named ts k n h = elim (names_from-dataset [] ts k n h) [ inl e ↦ cc | inr e ↦ e ]

compile_relationships-IsResolved :
    (ts : List TableIr) (rs : List RelationshipIr) (out : List Relationship)
    → compile_relationships (names_from [] ts) rs ≡ ok out
    → All (IsResolved (dataset_names (map compile_dataset ts))) out
unfolding compile_relationships
compile_relationships-IsResolved ts [] out h = subst (All _) (ok_injective [] out h) tt
compile_relationships-IsResolved ts (r ∷ rs) out h =
    in_chain
      (compile_relationship r (get (names_from [] ts) r.from_table_id)
        (get (names_from [] ts) r.to_table_id))
      _ out h
      λ first found h.
        in_chain (compile_relationships (names_from [] ts) rs) _ out h λ rest others h.
          let ends =
            compile_relationship-cases r (get (names_from [] ts) r.from_table_id)
              (get (names_from [] ts) r.to_table_id) first found in
          subst (All (IsResolved (dataset_names (map compile_dataset ts))))
            (ok_injective (first ∷ rest) out h)
            (
              (
                named ts r.from_table_id first.from_dataset ends.0,
                named ts r.to_table_id first.to_dataset ends.1,
              ),
              compile_relationships-IsResolved ts rs rest others,
            )

-- In a compiled model both ends of every relationship are names of datasets of the model.
pub compile_ossie-IsResolved :
    (accepts : SemanticModel → Bool) (p : ProductIr) (model : SemanticModel)
    → compile_ossie accepts p ≡ ok model
    → All (IsResolved (dataset_names model.datasets)) model.relationships
unfolding compile_ossie semantic_model
compile_ossie-IsResolved accepts p model h =
    in_chain (compile_relationships (names_from [] (sorted_tables p)) (sorted_relationships p)) _
      model h
      λ rels found h. elim (Bool-cases (accepts (semantic_model p rels))) [
        | inl e ↦
            let same =
              ok_injective {E = CompileError} (semantic_model p rels) model
                (ground (arith, e, h)) in
            subst
              (λ (m : SemanticModel). All (IsResolved (dataset_names m.datasets)) m.relationships)
              same
              (compile_relationships-IsResolved (sorted_tables p) (sorted_relationships p) rels
                found)
        | inr e ↦ absurd (ground (arith, e, h))
      ]

-- a relationship with an end that is the identifier of no table
abbrev pub is_table : List TableIr → String → Bool
is_table ts k = any (λ (t : TableIr). str_eq t.table_id k) ts

abbrev pub dangles : List TableIr → RelationshipIr → Bool
dangles ts r = not (is_table ts r.from_table_id && is_table ts r.to_table_id)

has-names_from :
    (d : Dict String) (ts : List TableIr) (k : String)
    → has (names_from d ts) k ≡ (is_table ts k || has d k)
unfolding names_from
has-names_from d [] k = refl
has-names_from d (t ∷ ts) k = ground (
  arith,
  has-names_from (put d t.table_id t.dataset_name) ts k,
  get-put d t.table_id k t.dataset_name,
)

-- the relationship that an error names
abbrev pub unresolved_id : {A : Type 0} → Result CompileError A → Option String
unresolved_id (err (unresolved_reference id)) = some id
unresolved_id _ = none

-- the identifier of the relationship, where there is one
abbrev pub id_of : Option RelationshipIr → Option String
id_of none = none
id_of (some r) = some r.relationship_id

compile_relationship-dangles :
    (ts : List TableIr) (r : RelationshipIr) (f t : Option String)
    → elim f [ none ↦ false | some _ ↦ true ] ≡ is_table ts r.from_table_id
    → elim t [ none ↦ false | some _ ↦ true ] ≡ is_table ts r.to_table_id
    → (compile_relationship r f t ≡ err (unresolved_reference r.relationship_id))
        × (dangles ts r ≡ true)
      ⊎ ((out : Relationship) × ((compile_relationship r f t ≡ ok out) × (dangles ts r ≡ false)))
unfolding compile_relationship
compile_relationship-dangles ts r none t h k = inl (refl, ground (arith, h))
compile_relationship-dangles ts r (some a) none h k = inl (refl, ground (arith, h, k))
compile_relationship-dangles ts r (some a) (some b) h k = inr (_, (refl, ground (arith, h, k)))

unresolved_id-then :
    {A B : Type 0} (m : Result CompileError A) (f : A → Result CompileError B)
    → ((a : A) → unresolved_id (f a) ≡ none)
    → unresolved_id (m >>= f) ≡ unresolved_id m
unresolved_id-then (ok a) f h = h a
unresolved_id-then (err (unresolved_reference id)) f h = refl
unresolved_id-then (err schema_violation) f h = refl

or_false : (b : Bool) → (b || false) ≡ b
or_false true = refl
or_false false = refl

accepted_or :
    (b : Bool) (m : SemanticModel) → unresolved_id (if b then ok m else err schema_violation) ≡ none
accepted_or true m = refl
accepted_or false m = refl

unresolved_id-compile_relationships :
    (ts : List TableIr) (rs : List RelationshipIr)
    → unresolved_id (compile_relationships (names_from [] ts) rs)
      ≡ id_of (find_first (dangles ts) rs)
unfolding compile_relationships get
unresolved_id-compile_relationships ts [] = refl
unresolved_id-compile_relationships ts (r ∷ rs) =
    elim (compile_relationship-dangles ts r (get (names_from [] ts) r.from_table_id)
      (get (names_from [] ts) r.to_table_id)
      (has-names_from [] ts r.from_table_id ∙ or_false (is_table ts r.from_table_id))
      (has-names_from [] ts r.to_table_id ∙ or_false (is_table ts r.to_table_id))) [
        | inl (raised, dangling) ↦ rw (raised, dangling) refl
        | inr (out, (made, sound)) ↦
            rw (made, sound)
              (unresolved_id-then (compile_relationships (names_from [] ts) rs)
                  (λ rest. ok (out ∷ rest)) (λ _. refl)
                ∙ unresolved_id-compile_relationships ts rs)
      ]

dangles-sorted_tables : (p : ProductIr) → dangles (sorted_tables p) ≡ dangles p.tables
dangles-sorted_tables p = fun_ext λ r. ground (
  arith,
  any-sort_by (λ (t : TableIr). t.table_id) (λ t. str_eq t.table_id r.from_table_id) p.tables,
  any-sort_by (λ (t : TableIr). t.table_id) (λ t. str_eq t.table_id r.to_table_id) p.tables,
)

-- compile_ossie raises OSSIE_UNRESOLVED_REFERENCE exactly if some relationship has an end that is
-- the identifier of no table, and names the first such relationship in the order of identifiers,
-- whatever the schema accepts.
pub unresolved_id-compile_ossie :
    (accepts : SemanticModel → Bool) (p : ProductIr)
    → unresolved_id (compile_ossie accepts p)
      ≡ id_of (find_first (dangles p.tables) (sorted_relationships p))
unfolding compile_ossie
unresolved_id-compile_ossie accepts p =
    unresolved_id-then
      (compile_relationships (names_from [] (sorted_tables p)) (sorted_relationships p))
      (λ rels.
        if accepts (semantic_model p rels)
        then ok (semantic_model p rels)
        else err schema_violation)
      (λ rels. accepted_or (accepts (semantic_model p rels)) (semantic_model p rels))
    ∙ (unresolved_id-compile_relationships (sorted_tables p) (sorted_relationships p)
        ∙ ap (λ f. id_of (find_first f (sorted_relationships p))) (dangles-sorted_tables p))
