-- ===== src/Workflow/Redaction.antt =====
-- src/ard_ossie/application/contracts.py: no secret survives the construction of a result.
use ard_ossie_provider.Prelude.{◌≡◌, refl, sym, subst, Bool, true, false, String, if◌then◌else◌}
use ard_ossie_provider.Json.{
  Json, null, boolean, number, text, array, object, Items, no_items, item, Fields, no_fields, field,
}
use ard_ossie_provider.Workflow.Sensitive.{is_sensitive}
use ard_ossie_provider.Workflow.{WorkflowResult, redact, redact_items, redact_fields, make_result}

mutual
  -- every value under a sensitive key, at whatever depth, is the value `***`
  pub IsClean : Json → Type 0
  IsClean (array xs) = AreCleanItems xs
  IsClean (object fs) = AreCleanFields fs
  IsClean _ = Unit

  pub AreCleanItems : Items → Type 0
  AreCleanItems no_items = Unit
  AreCleanItems (item j xs) = IsClean j × AreCleanItems xs

  pub AreCleanFields : Fields → Type 0
  AreCleanFields no_fields = Unit
  AreCleanFields (field key j fs) =
      (is_sensitive key ≡ true → j ≡ text "***") × IsClean j × AreCleanFields fs

mutual
  -- the second value is the first, but for what stands under sensitive keys
  pub Shows : Json → Json → Type 0
  Shows (array xs) k = (ys : Items) × (k ≡ array ys) × ShowsItems xs ys
  Shows (object fs) k = (gs : Fields) × (k ≡ object gs) × ShowsFields fs gs
  Shows j k = k ≡ j

  pub ShowsItems : Items → Items → Type 0
  ShowsItems no_items ys = ys ≡ no_items
  ShowsItems (item j xs) ys =
      (k : Json) × (zs : Items) × (ys ≡ item k zs) × Shows j k × ShowsItems xs zs

  pub ShowsFields : Fields → Fields → Type 0
  ShowsFields no_fields gs = gs ≡ no_fields
  ShowsFields (field key j fs) gs =
      (k : Json) × (hs : Fields) × (gs ≡ field key k hs)
      × (is_sensitive key ≡ false → Shows j k)
      × ShowsFields fs hs

-- what a field of a redacted value holds
masked : String → Json → Json
masked key j = if is_sensitive key then text "***" else j

hidden : (key : String) (j : Json) → is_sensitive key ≡ true → masked key j ≡ text "***"
unfolding masked
hidden key j h = rw h

shown : (key : String) (j : Json) → is_sensitive key ≡ false → masked key j ≡ j
unfolding masked
shown key j h = rw h

masked-IsClean : (key : String) (j : Json) → IsClean j → IsClean (masked key j)
unfolding IsClean masked
masked-IsClean key j c = split (is_sensitive key)
  where
    split : (b : Bool) → IsClean (if b then text "***" else j)
    split true = tt
    split false = c

mutual
  unfolding IsClean redact masked

  redact-IsClean : (j : Json) → IsClean (redact j)
  redact-IsClean null = tt
  redact-IsClean (boolean b) = tt
  redact-IsClean (number n) = tt
  redact-IsClean (text s) = tt
  redact-IsClean (array xs) = items-AreClean xs
  redact-IsClean (object fs) = fields-AreClean fs

  items-AreClean : (xs : Items) → AreCleanItems (redact_items xs)
  items-AreClean no_items = tt
  items-AreClean (item j xs) = (redact-IsClean j, items-AreClean xs)

  fields-AreClean : (fs : Fields) → AreCleanFields (redact_fields fs)
  fields-AreClean no_fields = tt
  fields-AreClean (field key j fs) =
      (hidden key (redact j), masked-IsClean key (redact j) (redact-IsClean j), fields-AreClean fs)

mutual
  unfolding Shows redact masked

  redact-Shows : (j : Json) → Shows j (redact j)
  redact-Shows null = refl
  redact-Shows (boolean b) = refl
  redact-Shows (number n) = refl
  redact-Shows (text s) = refl
  redact-Shows (array xs) = (redact_items xs, refl, items-Shows xs)
  redact-Shows (object fs) = (redact_fields fs, refl, fields-Shows fs)

  items-Shows : (xs : Items) → ShowsItems xs (redact_items xs)
  items-Shows no_items = refl
  items-Shows (item j xs) = (redact j, redact_items xs, refl, redact-Shows j, items-Shows xs)

  fields-Shows : (fs : Fields) → ShowsFields fs (redact_fields fs)
  fields-Shows no_fields = refl
  fields-Shows (field key j fs) = (
    masked key (redact j),
    redact_fields fs,
    refl,
    λ h. subst (λ k. Shows j k) (sym (shown key (redact j) h)) (redact-Shows j),
    fields-Shows fs,
  )

-- what the construction of a result owes to what it was given
pub record IsRedacted (given r : WorkflowResult) : Type 0 where
  pub clean_outputs : AreCleanFields r.outputs
  pub clean_findings : AreCleanItems r.findings
  pub outputs_shown : ShowsFields given.outputs r.outputs
  pub findings_shown : ShowsItems given.findings r.findings
  pub same_status : r.status ≡ given.status
  pub same_mutations : r.mutations ≡ given.mutations

-- A constructed result holds under every sensitive key of its outputs and findings, at whatever
-- depth, the value `***`; the keys, their order, the values under no sensitive key, the status and
-- the mutations are as given.
pub make_result-IsRedacted : (r : WorkflowResult) → IsRedacted r (make_result r)
unfolding make_result
make_result-IsRedacted r = record {
  clean_outputs = fields-AreClean r.outputs;
  clean_findings = items-AreClean r.findings;
  outputs_shown = fields-Shows r.outputs;
  findings_shown = items-Shows r.findings;
  same_status = refl;
  same_mutations = refl;
}
