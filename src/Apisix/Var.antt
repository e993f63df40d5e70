-- ===== src/Apisix/Var.antt =====
-- pkg/apisix/base.go: a condition of a route (a slice of interface values) and its comparable text.
pub mod Comparable
use Prim.Native.String.{◌++◌ as ◌+++◌}
use amesh.Prelude.{String, List, [], ◌∷◌}
use amesh.Prelude.Text.{replace_char}

-- `Var` is []interface{}: an element is a text, a nested condition or a value of another type.
mutual
  pub data Value : Type 0 where
    text : String → Value
    nested : Var → Value
    other : Value

  pub data Var : Type 0 where
    nil : Var
    cons : Value → Var → Var

-- apisix.Var{a, b, …} over texts
abbrev pub texts : List String → Var
texts [] = nil
texts (x ∷ xs) = cons (text x) (texts xs)

-- the escaped text of a single element
unfoldable pub escape : String → String
escape = replace_char b'.' ".."

unfoldable mutual
  pub to_comparable_string : Var → String
  to_comparable_string nil = ""
  to_comparable_string (cons v vs) = comparable_value v +++ to_comparable_string vs

  pub comparable_value : Value → String
  comparable_value (text s) = escape s +++ "."
  comparable_value (nested v) = to_comparable_string v +++ "."
  comparable_value other = ""
