-- ===== src/Common/Json.antt =====
-- JSON values. A number is the text that JSON.stringify prints for it.
use mathlib.Core.Bool.{Bool}
use sinkronis_backend.Common.Text.{Text}

mutual
  pub data Json : Type 0 where
    null : Json
    boolean : Bool → Json
    number string : Text → Json
    array : Elements → Json
    object : Fields → Json

  pub data Elements : Type 0 where
    no_elements : Elements
    element : Json → Elements → Elements

  -- The entries of an object, in the order of insertion.
  pub data Fields : Type 0 where
    no_fields : Fields
    field : Text → Json → Fields → Fields
