-- ===== src/Models/Locator.antt =====
-- src/ard_ossie/models.py: `TableLocator`, whose parts are joined by bars into the key that the
-- Registry compares.
use Prim.Native.String.{String, ◌++◌}
use ard_ossie_provider.Prelude.{
  ◌≡◌, Bool, false, arith, ◌||◌, if◌then◌else◌, Result, ok, err, ◌>>=◌,
}
use ard_ossie_provider.Prelude.Separated.{has_char, cut_text}
use ard_ossie_provider.Prelude.Text.{str_eq}

pub record TableLocator : Type 0 where
  pub source_system_id : String
  pub catalog : String
  pub schema_name : String
  pub table_name : String

-- `"|" in s`
abbrev pub has_bar : String → Bool
has_bar s = has_char "|" s

pub data LocatorError : Type 0 where
  bad_part : LocatorError

-- `str.strip` and `str.lower` of Python are parameters.
module _ (strip lower : String → String) where
  unfoldable pub normalize_part : String → Result LocatorError String
  unfolding has_char
  normalize_part value =
      let normalized = lower (strip value) in
      if str_eq normalized "" || has_bar normalized then err bad_part else ok normalized

  -- the construction of a locator
  unfoldable pub make_locator : String → String → String → String → Result LocatorError TableLocator
  unfolding normalize_part
  make_locator system catalog schema table = do
    s ← normalize_part system
    c ← normalize_part catalog
    n ← normalize_part schema
    t ← normalize_part table
    ok (record { source_system_id = s; catalog = c; schema_name = n; table_name = t })

-- `TableLocator.key`
unfoldable pub key : TableLocator → String
key l =
    l.source_system_id ++ ("|" ++ (l.catalog ++ ("|" ++ (l.schema_name ++ ("|" ++ l.table_name)))))

-- what `normalize_part` leaves in a locator
pub record HasNoBars (l : TableLocator) : Type 0 where
  pub source_system_id : has_bar l.source_system_id ≡ false
  pub catalog : has_bar l.catalog ≡ false
  pub schema_name : has_bar l.schema_name ≡ false
  pub table_name : has_bar l.table_name ≡ false

module _ (strip lower : String → String) where
  normalize_part-has_no_bar :
      (value s : String) → normalize_part strip lower value ≡ ok s → has_bar s ≡ false
  unfolding normalize_part
  normalize_part-has_no_bar value s h = ground arith

  pub make_locator-HasNoBars :
      (system catalog schema table : String) (l : TableLocator)
      → make_locator strip lower system catalog schema table ≡ ok l
      → HasNoBars l
  unfolding make_locator
  make_locator-HasNoBars system catalog schema table l h = ground (
    arith,
    normalize_part-has_no_bar system l.source_system_id,
    normalize_part-has_no_bar catalog l.catalog,
    normalize_part-has_no_bar schema l.schema_name,
    normalize_part-has_no_bar table l.table_name,
  )

key-inj_lem : (l m : TableLocator) → HasNoBars l → HasNoBars m → key l ≡ key m → l ≡ m
unfolding key
key-inj_lem l m hl hm e =
    let a = cut_text "|" _ _ _ _ hl.source_system_id hm.source_system_id e in
    let b = cut_text "|" _ _ _ _ hl.catalog hm.catalog a.1 in
    let c = cut_text "|" _ _ _ _ hl.schema_name hm.schema_name b.1 in cc (a.0, b.0, c.0, c.1)

-- Two locators that were made by the constructor, from whatever texts, and share a key are equal:
-- the joined key identifies a physical table, whatever `strip` and `lower` do.
pub key_injective :
    (strip lower : String → String) (s c n t s' c' n' t' : String) (l m : TableLocator)
    → make_locator strip lower s c n t ≡ ok l
    → make_locator strip lower s' c' n' t' ≡ ok m
    → key l ≡ key m
    → l ≡ m
key_injective strip lower s c n t s' c' n' t' l m hl hm e =
    key-inj_lem l m (make_locator-HasNoBars strip lower s c n t l hl)
      (make_locator-HasNoBars strip lower s' c' n' t' m hm) e
