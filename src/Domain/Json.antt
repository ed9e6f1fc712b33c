-- ===== src/Domain/Json.antt =====
-- JSON values, as the columns of type JSON hold them; a dictionary is a list of its items.
use lucius_engineering.Prelude.{ℕ, String, Bool, List}

mutual
  pub data Json : Type 0 where
    null : Json
    bool : Bool → Json
    num : ℕ → Json
    text : String → Json
    arr : Elements → Json
    obj : Members → Json

  pub data Elements : Type 0 where
    nil : Elements
    cons : Json → Elements → Elements

  pub data Members : Type 0 where
    end : Members
    member : String → Json → Members → Members

abbrev pub JsonDict : Type 0
JsonDict = List (String × Json)
