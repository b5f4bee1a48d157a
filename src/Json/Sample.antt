-- ===== src/Json/Sample.antt =====
-- A reader and a writer of JSON for instances of the theorems: the byte 0 reads as a request,
-- all else is refused; values are written by their shape.
use ghostcacher.Prelude.{zero, Option, none, some, [], ◌∷◌, map}
use ghostcacher.Text.{Text, Bytes, lit, join}
use ghostcacher.Json.{
  Value, Items, null, bool, num, str, arr, obj, nil, cons, end, field, SerdeJson,
}

abbrev pub message : Text → Text → Value
message role content = obj (field (lit "content") (str content) (field (lit "role") (str role) end))

-- A request: a system text and messages.
abbrev pub request : Items → Value
request messages =
    obj (field (lit "messages") (arr messages) (field (lit "system") (str (lit "Be brief.")) end))

abbrev pub first_turn : Value
first_turn = request (cons (message (lit "user") (lit "Hello")) nil)

abbrev pub write_value : Value → Text
write_value null = lit "null"
write_value (bool b) = lit "bool"
write_value (num n) = n
write_value (str t) = t
write_value (arr vs) = lit "[]"
write_value (obj (field k (str t) fs)) = t
write_value (obj fs) = lit "{}"

abbrev pub read_bytes : Bytes → Option Value
read_bytes (zero ∷ []) = some first_turn
read_bytes _ = none

abbrev pub shapes : SerdeJson
shapes = record {
  from_slice = read_bytes;
  to_vec = λ v. some (write_value v);
  to_string = λ v. some (write_value v);
  slice_to_string = λ vs. some (join (lit ",") (map write_value vs));
  blocks_from_value = λ v. none;
}
