-- ===== src/Prelude/Json.antt =====
-- The JSON values that the program stores and copies; a UUID stands for its text.
use Prim.Native.Nat.{ℕ}
use Prim.Native.String.{String}
use mathlib.Core.Bool.{Bool}

mutual
  pub data Fields : Type 0 where
    end : Fields
    field : (name : String) → (content : Value) → (more : Fields) → Fields

  pub data Value : Type 0 where
    null : Value
    flag : Bool → Value
    str : String → Value
    number uuid : ℕ → Value
    array : Elements → Value
    object : Fields → Value

  pub data Elements : Type 0 where
    none_left : Elements
    element : (content : Value) → (more : Elements) → Elements
