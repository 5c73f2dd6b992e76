-- ===== src/Pipeline/Versions.antt =====
-- src/ard_ossie/pipeline.py: what the versions of a submission without hard findings are.
use ard_ossie_provider.Prelude.{
  ℕ, ◌≡◌, ◌≢◌, ◌⊎◌, inl, inr, String, Bool-cases, refl, ap, ◌∙◌, Bool, true, false, not, ◌&&◌, ◌+◌,
  Option, none, some, List, [], ◌∷◌, ◌++◌, map, arith, leb, ok, err, in_chain, ok_injective, subst,
  if◌then◌else◌, keep,
}
use ard_ossie_provider.Prelude.Int.{pos}
use ard_ossie_provider.Prelude.Text.{opt_str_eq, opt_str_eq→eq, opt_str_eq_of_eq}
use ard_ossie_provider.Models.{TableRecord, active}
use ard_ossie_provider.Versioning.{
  VersionDecision, VersionError, plan_version, proposed_out_of_range, validate_input_version,
  decide_version, decide_new, decide_limit, decide_current, next_version,
}
use ard_ossie_provider.Identity.{DuplicateReport}
use ard_ossie_provider.Registry.{Registry, get_table}
use ard_ossie_provider.Pipeline.{
  TableDraft, aliases_of, has_changed, proposed_version, or_version, as_int, table_decision,
  table_record, build_table_records, hard_findings, is_block, is_duplicate_block, version_blocked,
  duplicate_blocked,
}

-- a version that a configuration may hold
abbrev pub is_in_range : Option ℕ → Bool
is_in_range none = true
is_in_range (some v) = leb 1 v && leb v 999

limit_plan :
    (version proposed : ℕ) (changed : Bool) (base : Option ℕ)
    → version ≡ 999
    → proposed ≡ 1000
    → is_in_range base ≡ true
    → plan_version (some (pos version)) changed (as_int base) (some (pos proposed))
      ≡ err proposed_out_of_range
unfolding plan_version validate_input_version
limit_plan version proposed changed none h k b = ground (arith, h, k)
limit_plan version proposed changed (some v) h k b = ground (arith, h, k, b)

-- A changed table at version 999 is not blocked by VERSION_LIMIT_REACHED where the configuration
-- proposes no version: the version 1000 that is proposed for it makes plan_version raise.
pub limit_raises :
    (draft : TableDraft) (t : TableRecord)
    → t.version ≡ 999
    → draft.version ≡ none
    → has_changed draft (some t) ≡ true
    → is_in_range draft.base_version ≡ true
    → table_decision draft (some t) ≡ err proposed_out_of_range
unfolding table_decision
limit_raises draft t h k c b =
    limit_plan t.version (proposed_version draft (some t)) (has_changed draft (some t))
      (or_version draft.base_version (some t.version)) h (ground (arith, h, k, c))
      (ground (arith, h, b))

-- a base that the draft names is the stored version, and the new version is the same where the
-- content is, and one more where it is another; a new table has version 1 and no base
abbrev pub IsStep : TableDraft → Option TableRecord → ℕ → Type 0
IsStep draft none version = (draft.base_version ≡ none) × (version ≡ 1)
IsStep draft (some t) version =
    ((draft.base_version ≡ none) ⊎ (draft.base_version ≡ some t.version))
    × (((t.canonical_hash ≡ some draft.canonical_hash) × (version ≡ t.version))
        ⊎ ((t.canonical_hash ≢ some draft.canonical_hash) × (version ≡ t.version + 1)))

-- the aliases of the stored table
abbrev pub HasAliases : Option TableRecord → List String → Type 0
HasAliases none aliases = aliases ≡ []
HasAliases (some t) aliases = aliases ≡ t.aliases

aliases_of-HasAliases : (existing : Option TableRecord) → HasAliases existing (aliases_of existing)
aliases_of-HasAliases none = refl
aliases_of-HasAliases (some t) = refl

abbrev IsPlanned : Option ℕ → Bool → ℕ → Option ℕ → Type 0
IsPlanned base changed proposed none = (base ≡ none) × (proposed ≡ 1)
IsPlanned base changed proposed (some c) =
    (base ≡ some c) × (proposed ≡ c + (if changed then 1 else 0))

plan_step :
    (base : Option ℕ) (changed : Bool) (proposed : ℕ) (current : Option ℕ) (d : VersionDecision)
    → plan_version (as_int current) changed (as_int base) (some (pos proposed)) ≡ ok d
    → is_block d ≡ false
    → IsPlanned base changed proposed current
unfolding plan_version validate_input_version decide_version decide_new decide_limit decide_current
    next_version
plan_step none changed proposed none d h k = ground (arith, h, k, ap is_block)
plan_step (some b) changed proposed none d h k = ground (arith, h, k, ap is_block)
plan_step none changed proposed (some c) d h k = ground (arith, h, k, ap is_block)
plan_step (some b) false proposed (some c) d h k = ground (arith, h, k, ap is_block)
plan_step (some b) true proposed (some c) d h k = ground (arith, h, k, ap is_block)

base_cases :
    (base : Option ℕ) (n : ℕ) → or_version base (some n) ≡ some n → (base ≡ none) ⊎ (base ≡ some n)
base_cases none n h = inl refl
base_cases (some b) n h = inr h

table_decision-IsStep :
    (draft : TableDraft) (existing : Option TableRecord) (d : VersionDecision)
    → table_decision draft existing ≡ ok d
    → is_block d ≡ false
    → IsStep draft existing (proposed_version draft existing)
unfolding table_decision
table_decision-IsStep draft none d h k =
    let planned =
      plan_step (or_version draft.base_version none) true (proposed_version draft none) none d h
        k in
    (ground (arith, planned.0), planned.1)
table_decision-IsStep draft (some t) d h k =
    let planned =
      plan_step (or_version draft.base_version (some t.version)) (has_changed draft (some t))
        (proposed_version draft (some t)) (some t.version) d h k in
    (
      base_cases draft.base_version t.version planned.0,
      elim (Bool-cases (opt_str_eq t.canonical_hash (some draft.canonical_hash))) [
        | inl e ↦ inl (opt_str_eq→eq _ _ e, ground (arith, e, planned.1))
        | inr e ↦ inr (λ h. ground (arith, e, opt_str_eq_of_eq _ _ h), ground (arith, e, planned.1))
      ],
    )

abbrev pub is_none_left : List VersionDecision → Bool
is_none_left [] = true
is_none_left (v ∷ vs) = not (is_block v) && is_none_left vs

kept_empty : (vs : List VersionDecision) → keep is_block vs ≡ [] → is_none_left vs ≡ true
kept_empty [] h = refl
kept_empty (v ∷ vs) h = ground (arith, kept_empty vs, h)

map_empty : {A B : Type 0} (f : A → B) (xs : List A) → map f xs ≡ [] → xs ≡ []
map_empty f [] h = refl
map_empty f (x ∷ xs) h = cc

right_empty : {A : Type 0} (xs ys : List A) → xs ++ ys ≡ [] → ys ≡ []
right_empty [] ys h = h
right_empty (x ∷ xs) ys h = cc

abbrev decisions : List (TableRecord × VersionDecision) → List VersionDecision
decisions out = map (λ (e : TableRecord × VersionDecision). e.1) out

-- the record of a table after its step, with the content of its draft
pub record IsBuilt (draft : TableDraft) (existing : Option TableRecord) (t : TableRecord)
    : Type 0 where
  pub step : IsStep draft existing t.version
  pub same_id : t.table_id ≡ draft.table_id
  pub same_locator : t.locator ≡ draft.locator
  pub is_active : t.status ≡ active
  pub same_aliases : HasAliases existing t.aliases
  pub same_columns : t.columns ≡ draft.column_records
  pub same_schema : t.schema_hash ≡ some draft.schema_hash
  pub same_content : t.canonical_hash ≡ some draft.canonical_hash

-- draft by draft
abbrev pub AreBuilt : Registry → List TableDraft → List (TableRecord × VersionDecision) → Type 0
AreBuilt r [] [] = Unit
AreBuilt r (draft ∷ drafts) ((t, d) ∷ out) =
    IsBuilt draft (get_table r draft.table_id) t × AreBuilt r drafts out
AreBuilt r _ _ = ⊥

table_record-IsBuilt :
    (draft : TableDraft) (existing : Option TableRecord)
    → IsStep draft existing (proposed_version draft existing)
    → IsBuilt draft existing (table_record draft existing)
unfolding table_record
table_record-IsBuilt draft existing s = record {
  step = s;
  same_id = refl;
  same_locator = refl;
  is_active = refl;
  same_aliases = aliases_of-HasAliases existing;
  same_columns = refl;
  same_schema = refl;
  same_content = refl;
}

steps :
    (r : Registry) (drafts : List TableDraft) (out : List (TableRecord × VersionDecision))
    → build_table_records r drafts ≡ ok out
    → is_none_left (decisions out) ≡ true
    → AreBuilt r drafts out
unfolding build_table_records
steps r [] out h k = subst (AreBuilt r []) (ok_injective {E = VersionError} [] out h) tt
steps r (draft ∷ drafts) out h k =
    in_chain (table_decision draft (get_table r draft.table_id)) _ out h λ d decided h.
      in_chain (build_table_records r drafts) _ out h λ rest others h.
        let same =
          ok_injective ((table_record draft (get_table r draft.table_id), d) ∷ rest) out h in
        let all_left : (not (is_block d) && is_none_left (decisions rest)) ≡ true =
          ap (λ o. is_none_left (decisions o)) same ∙ k in
        subst (AreBuilt r (draft ∷ drafts)) same (
          table_record-IsBuilt draft (get_table r draft.table_id) (
              table_decision-IsStep draft (get_table r draft.table_id) d decided
                (ground (arith, all_left))),
          steps r drafts rest others (ground (arith, all_left)),
        )

-- Where the table records are built and there is no hard finding, there is a record for each draft
-- in its order, with its identifier and content: that of a new table has version 1 and no base, and
-- that of a known one has no other base than the stored version, and the next version if its content
-- changed, and else the same.
pub build_table_records-AreBuilt :
    (r : Registry) (drafts : List TableDraft) (out : List (TableRecord × VersionDecision))
    (duplicates : List DuplicateReport)
    → build_table_records r drafts ≡ ok out
    → hard_findings duplicates (map (λ (e : TableRecord × VersionDecision). e.1) out) ≡ []
    → AreBuilt r drafts out
unfolding hard_findings
build_table_records-AreBuilt r drafts out duplicates h k = steps r drafts out h (
    kept_empty (decisions out) (
      map_empty (λ (v : VersionDecision). version_blocked v.code) (keep is_block (decisions out))
        (right_empty
          (map (λ (d : DuplicateReport). duplicate_blocked d.code)
            (keep is_duplicate_block duplicates))
          (map (λ (v : VersionDecision). version_blocked v.code) (keep is_block (decisions out)))
          k)))
