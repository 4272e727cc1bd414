-- ===== src/Wire/TypeString/Tests.antt =====
-- Texts of concrete types, and the theorem at a concrete input.
use smoljudge.Prelude.{◌≡◌, refl, some}
use smoljudge.Prelude.Text.{codes}
use smoljudge.Prelude.Decimal.{to_string}
use smoljudge.Wire.Types.{
  Tys, uint, int, bool, byte, string, vector, tuple, pair, array, optional, nil, cons,
}
use smoljudge.Wire.TypeString.{type_string, join_strings, return_string, signature_string}
use smoljudge.Wire.TypeString.Reading.{all_visible}
use smoljudge.Wire.TypeString.Injective.{visible_result, signature_string_injective}

nested :
    type_string
      (tuple (cons (vector (pair string (int 4))) (cons (array byte 12) (cons (tuple nil) nil))))
    ≡ codes "tuple<vector<pair<string, int32_t>>, array<byte, 12>, tuple<>>"
unfolding type_string join_strings to_string
nested = refl

-- The text of a type does not tell `bool` from `uint8_t`.
bool_text : type_string (optional bool) ≡ type_string (optional (uint 1))
unfolding type_string to_string
bool_text = refl

abbrev taken : Tys
taken = cons string (cons (uint 8) (cons (vector byte) nil))

stored : signature_string (some bool) taken ≡ signature_string (some (uint 1)) taken
unfolding signature_string return_string type_string to_string
stored = refl

signature_string_injective_example :
    (visible_result (some bool) ≡ visible_result (some (uint 1)))
    × (all_visible taken ≡ all_visible taken)
signature_string_injective_example =
    signature_string_injective (some bool) (some (uint 1)) taken taken stored
