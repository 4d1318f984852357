-- ===== src/Base/Json.antt =====
-- What `encoding/json` leaves in a value of type `any`, and the comma-ok type assertions that the
-- handlers make on it. Of a `float64` the program reads its truncation `int(x)` and the test
-- `x > 0`, so a number is those two.
use Prim.Native.String.{String}
use mathlib.Core.Bool.{Bool, false}
use mathlib.Core.Option.{Option, none, some}
use mathlib.Core.List.{List, [], ◌∷◌}
use text.Mathlib.Text.{◌==◌}
use goop.Base.Int.{ℤ, pos}
use goop.Base.Tests.{if◌then◌else◌}

pub record Float : Type 0 where
  pub truncated : ℤ
  pub is_positive : Bool

mutual
  pub data Value : Type 0 where
    null : Value
    boolean : Bool → Value
    number : Float → Value
    string : String → Value
    array : Items → Value
    object : Fields → Value

  pub data Items : Type 0 where
    nil : Items
    cons : Value → Items → Items

  pub data Fields : Type 0 where
    end : Fields
    field : String → Value → Fields → Fields

-- `data[key]`
unfoldable pub get : String → Fields → Value
get k end = null
get k (field j v fs) = if j == k then v else get k fs

-- `s, _ := v.(string)` and the like: the zero value where the type is another.
unfoldable pub as_text : Value → String
as_text (string s) = s
as_text _ = ""

unfoldable pub as_bool : Value → Bool
as_bool (boolean b) = b
as_bool _ = false

-- `int(f)` for `f, _ := v.(float64)`
unfoldable pub as_int : Value → ℤ
as_int (number f) = f.truncated
as_int _ = pos 0

-- `v.(map[string]any)`, whose zero value is nil
unfoldable pub as_object : Value → Option Fields
as_object (object fs) = some fs
as_object _ = none

-- The strings that are not empty among the items.
unfoldable pub texts : Items → List String
texts nil = []
texts (cons v vs) = let s = as_text v in let rest = texts vs in if s == "" then rest else s ∷ rest

unfoldable pub as_texts : Value → List String
unfolding texts as_text
as_texts (array vs) = texts vs
as_texts _ = []
