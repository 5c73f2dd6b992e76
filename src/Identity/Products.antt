-- ===== src/Identity/Products.antt =====
-- src/ard_ossie/identity.py: which products `classify_product` blocks, and as what it lets the
-- others pass.
use ard_ossie_provider.Prelude.{
  ◌≡◌, ◌≢◌, refl, ap, ◌⊎◌, inl, inr, Bool, true, false, ◌&&◌, ◌||◌, Option, none, some, List, [],
  ◌∷◌, String, any, find_first, any-find_first, arith, Option-cases, Bool-cases, ◌∙◌, eq_iff,
}
use ard_ossie_provider.Prelude.Text.{opt_str_eq, str_eq, opt_str_eq→eq, opt_str_eq_of_eq}
use ard_ossie_provider.Prelude.Sets.{sorted_set}
use ard_ossie_provider.Models.{
  ProductRecord, Operation, create, active, retired, is_create, is_active, is_retired,
  status_retired, status_active,
}
use ard_ossie_provider.Identity.{
  DuplicateDecision, DuplicateCode, blocked_or, product_id_conflict, product_key_conflict,
  product_alias_conflict, product_content_duplicate, block, warn, no_change, reuse, DuplicateReport,
  classify_product, has_id, has_key, has_alias, has_content, classify_semantic, classify_known,
}
use ard_ossie_provider.Identity as Identity

-- an existing product takes the identifier, the key or the content of the candidate
abbrev pub conflicts : ProductRecord → ProductRecord → Bool
conflicts candidate p =
    has_id candidate p || has_key candidate p || has_alias candidate p || has_content candidate p

-- What each decision on a new product says, with no order among the tests.
abbrev pub MeansNew : ProductRecord → List ProductRecord → List String → DuplicateDecision → Type 0
MeansNew candidate existing similar block = any (conflicts candidate) existing ≡ true
MeansNew candidate existing similar warn =
    (any (conflicts candidate) existing ≡ false) × (sorted_set similar ≢ [])
MeansNew candidate existing similar Identity.create =
    (any (conflicts candidate) existing ≡ false) × (sorted_set similar ≡ [])
MeansNew candidate existing similar _ = ⊥

any-conflicts :
    (c : ProductRecord) (ps : List ProductRecord)
    → any (conflicts c) ps
      ≡ (any (has_id c) ps || any (has_key c) ps || any (has_alias c) ps || any (has_content c) ps)
any-conflicts c [] = refl
any-conflicts c (p ∷ ps) = ground (arith, any-conflicts c ps)

semantic_means :
    (c : ProductRecord) (ps : List ProductRecord) (similar ss : List String)
    → sorted_set similar ≡ ss
    → any (conflicts c) ps ≡ false
    → MeansNew c ps similar (classify_semantic ss).decision
unfolding classify_semantic
semantic_means c ps similar [] e h = (h, e)
semantic_means c ps similar (s ∷ ss) e h = (h, λ f. ground arith)

abbrev is_some : Option ProductRecord → Bool
is_some none = false
is_some (some _) = true

-- one test of the chain
chain_means :
    (c : ProductRecord) (ps : List ProductRecord) (similar : List String) (code : DuplicateCode)
    (test : ProductRecord → Bool) (rest : DuplicateReport)
    → (any test ps ≡ true → any (conflicts c) ps ≡ true)
    → (any test ps ≡ false → MeansNew c ps similar rest.decision)
    → MeansNew c ps similar (blocked_or code (find_first test ps) rest).decision
chain_means c ps similar code test rest h k = elim (Option-cases (find_first test ps)) [
  | inl e ↦ rw e (k (any-find_first test ps ∙ rw e))
  | inr (p, e) ↦ rw e (h (any-find_first test ps ∙ rw e))
]

-- On a new product `classify_product` blocks exactly where some existing product has its
-- identifier, its key, its key among the aliases, or its content; it warns exactly where none does
-- and the semantic comparison named a product; and else it creates.
pub classify_new_means :
    (candidate : ProductRecord) (existing : List ProductRecord) (similar : List String)
    → MeansNew candidate existing similar
        (classify_product candidate existing create similar).decision
unfolding classify_product
classify_new_means c ps similar =
    chain_means c ps similar product_id_conflict (has_id c) _
      (λ h. ground (arith, any-conflicts c ps))
      λ a.
        chain_means c ps similar product_key_conflict (has_key c) _
          (λ h. ground (arith, any-conflicts c ps))
          λ b.
            chain_means c ps similar product_alias_conflict (has_alias c) _
              (λ h. ground (arith, any-conflicts c ps))
              λ d.
                chain_means c ps similar product_content_duplicate (has_content c) _
                  (λ h. ground (arith, any-conflicts c ps))
                  λ e.
                    semantic_means c ps similar (sorted_set similar) refl
                      (ground (arith, any-conflicts c ps))

-- the candidate brings a retired product back
abbrev pub Returns : ProductRecord → ProductRecord → Type 0
Returns candidate p = (p.status ≡ retired) × (candidate.status ≡ active)

no_return :
    (c p : ProductRecord) → (is_retired p.status && is_active c.status) ≡ false → ¬ Returns c p
no_return c p e h = ground (arith, e, ap is_retired h.0, ap is_active h.1)

-- what each decision says of the product that has the candidate's identifier
abbrev pub MeansKnown : ProductRecord → Option ProductRecord → DuplicateDecision → Type 0
MeansKnown candidate none block = Unit
MeansKnown candidate (some p) block = Returns candidate p ⊎ (candidate.product_key ≢ p.product_key)
MeansKnown candidate (some p) no_change =
    (¬ Returns candidate p)
    × (candidate.product_key ≡ p.product_key)
    × (candidate.canonical_hash ≡ p.canonical_hash)
MeansKnown candidate (some p) Identity.update =
    (¬ Returns candidate p)
    × (candidate.product_key ≡ p.product_key)
    × (candidate.canonical_hash ≢ p.canonical_hash)
MeansKnown candidate _ _ = ⊥

known_means :
    (c : ProductRecord) (o : Option ProductRecord) → MeansKnown c o (classify_known c o).decision
unfolding classify_known
known_means c none = tt
known_means c (some p) = elim (Bool-cases (is_retired p.status && is_active c.status)) [
  | inl e ↦
      rw e (inl (ground (arith, status_retired p.status), ground (arith, status_active c.status)))
  | inr e ↦ elim (Bool-cases (str_eq c.product_key p.product_key)) [
    | inl f ↦ elim (Bool-cases (opt_str_eq c.canonical_hash p.canonical_hash)) [
      | inl g ↦
          rw (e, f, g)
            (no_return c p e, (eq_iff c.product_key p.product_key).0 f, opt_str_eq→eq _ _ g)
      | inr g ↦
          rw (e, f, g)
            (
              no_return c p e,
              (eq_iff c.product_key p.product_key).0 f,
              λ h. ground (arith, g, opt_str_eq_of_eq _ _ h),
            )
    ]
    | inr f ↦ rw (e, f) (inr (λ h. ground (arith, f, (eq_iff c.product_key p.product_key).1 h)))
  ]
]

-- For an operation that is no creation the report follows the product with the candidate's
-- identifier: without one it blocks; with one it blocks only a return from retirement or a changed
-- key, and else it tells a changed content from an unchanged one.
pub classify_known_means :
    (candidate : ProductRecord) (existing : List ProductRecord) (operation : Operation)
    (similar : List String)
    → is_create operation ≡ false
    → MeansKnown candidate
        (find_first (has_id candidate) existing)
        (classify_product candidate existing operation similar).decision
unfolding classify_product
classify_known_means c ps operation similar h = rw h (known_means c (find_first (has_id c) ps))
