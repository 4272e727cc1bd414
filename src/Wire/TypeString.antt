-- ===== src/Wire/TypeString.antt =====
-- The texts of types in rpc/include/rpc/serialization.hpp: `join_strings`, `type_string` and
-- `stringify_type`. The signature of a method is the text of its function type.
pub mod Nodes
pub mod Shapes
pub mod Reading
pub mod Injective
mod Tests
use smoljudge.Prelude.{ℕ, ◌*◌, List, [], ◌∷◌, ◌++◌, Option, none, some}
use smoljudge.Prelude.Text.{Text, codes}
use smoljudge.Prelude.Decimal.{to_string}
use smoljudge.Wire.Types.{
  Ty, Tys, uint, int, bool, byte, string, vector, variant, tuple, pair, array, optional, nil, cons,
}

-- The loop over `strings`, from the second one on.
unfoldable pub join_more : Text → Text → List Text → Text
join_more joiner result [] = result
join_more joiner result (s ∷ ss) = join_more joiner ((result ++ joiner) ++ s) ss

unfoldable pub join_strings : Text → List Text → Text
unfolding join_more
join_strings joiner [] = []
join_strings joiner (s ∷ ss) = join_more joiner s ss

abbrev pub comma : Text
comma = codes ", "

-- A `bool` is an unsigned integral type of one byte.
unfoldable mutual
  pub type_string : Ty → Text
  type_string (uint w) = (codes "uint" ++ to_string (w * 8)) ++ codes "_t"
  type_string (int w) = (codes "int" ++ to_string (w * 8)) ++ codes "_t"
  type_string bool = (codes "uint" ++ to_string (1 * 8)) ++ codes "_t"
  type_string byte = codes "byte"
  type_string string = codes "string"
  type_string (vector t) = (codes "vector<" ++ type_string t) ++ codes ">"
  type_string (variant ts) = (codes "variant<" ++ join_strings comma (type_strings ts)) ++ codes ">"
  type_string (tuple ts) = (codes "tuple<" ++ join_strings comma (type_strings ts)) ++ codes ">"
  type_string (pair a b) =
      (((codes "pair<" ++ type_string a) ++ comma) ++ type_string b) ++ codes ">"
  type_string (array t n) =
      (((codes "array<" ++ type_string t) ++ comma) ++ to_string n) ++ codes ">"
  type_string (optional t) = (codes "optional<" ++ type_string t) ++ codes ">"

  -- `{type_string<Types>::text...}`
  pub type_strings : Tys → List Text
  type_strings nil = []
  type_strings (cons t ts) = type_string t ∷ type_strings ts

unfoldable pub return_string : Option Ty → Text
unfolding type_string
return_string none = codes "void"
return_string (some t) = type_string t

-- `stringify_type<R(Args...)>()`
unfoldable pub signature_string : Option Ty → Tys → Text
unfolding return_string type_string
signature_string ret args =
    ((return_string ret ++ codes "(") ++ join_strings comma (type_strings args)) ++ codes ")"
