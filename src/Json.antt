-- ===== src/Json.antt =====
-- The values of Python's `json`, as src/ard_ossie/application/contracts.py and
-- src/ard_ossie/llm/service.py take them apart. A number stands by its literal.
use ard_ossie_provider.Prelude.{Bool, String}

mutual
  pub data Json : Type 0 where
    null : Json
    boolean : Bool → Json
    number : String → Json
    text : String → Json
    array : Items → Json
    object : Fields → Json

  pub data Items : Type 0 where
    no_items : Items
    item : Json → Items → Items

  pub data Fields : Type 0 where
    no_fields : Fields
    field : String → Json → Fields → Fields
