-- ===== src/Wire/Integers/Tests.antt =====
-- The theorems on integers at concrete inputs.
use smoljudge.Prelude.{◌≡◌, [], ◌∷◌, ◌++◌, arith}
use smoljudge.Prelude.Outcome.{ok}
use smoljudge.Wire.Integers.{little, big, serialize_num, deserialize_num}
use smoljudge.Wire.Integers.Laws.{be_bytes, serialize_num-be, deserialize_num-be}

serialize_num-be_example : serialize_num little 4 513 (9 ∷ []) ≡ 9 ∷ [] ++ be_bytes 4 513
serialize_num-be_example = serialize_num-be little 4 513 (9 ∷ [])

deserialize_num-be_example : deserialize_num big 2 (be_bytes 2 513 ++ 9 ∷ []) ≡ ok (513, 9 ∷ [])
deserialize_num-be_example = deserialize_num-be big 2 513 (9 ∷ []) (omega arith)
