-- ===== src/Json.antt =====
-- The values of the crate `serde_json` and the documented accessors that the sidecar uses. Reading
-- and writing text is an interface. Nothing here is code of the repository.
-- An object is kept as its fields in the order of their keys.
pub mod Laws
pub mod Sample
use ghostcacher.Prelude.{
  ℕ, zero, suc, Bool, true, false, Option, none, some, List, [], ◌∷◌, if◌then◌else◌,
}
use ghostcacher.Text.{Text, Bytes, text_eq, text_le}
use ghostcacher.Types.{PromptBlock}

mutual
  pub data Value : Type 0 where
    null : Value
    bool : Bool → Value
    num : Text → Value
    str : Text → Value
    arr : Items → Value
    obj : Fields → Value

  pub data Items : Type 0 where
    nil : Items
    cons : Value → Items → Items

  pub data Fields : Type 0 where
    end : Fields
    field : Text → Value → Fields → Fields

abbrev pub to_list : Items → List Value
to_list nil = []
to_list (cons v vs) = v ∷ to_list vs

-- `Map::get`.
unfoldable pub lookup : Text → Fields → Option Value
lookup k end = none
lookup k (field j v fs) = if text_eq j k then some v else lookup k fs

-- `Map::insert`.
unfoldable pub insert : Text → Value → Fields → Fields
insert k v end = field k v end
insert k v (field j w fs) =
    if text_eq j k
    then field k v fs
    else if text_le k j
    then field k v (field j w fs)
    else field j w (insert k v fs)

-- A change through the reference that `get_mut` gives.
unfoldable pub adjust : Text → (Value → Value) → Fields → Fields
adjust k f end = end
adjust k f (field j v fs) = if text_eq j k then field j (f v) fs else field j v (adjust k f fs)

-- `Value::get`, `as_str`, `as_array`, `get_mut`.
unfoldable pub get : Text → Value → Option Value
get k (obj fs) = lookup k fs
get k _ = none

unfoldable pub as_str : Value → Option Text
as_str (str t) = some t
as_str _ = none

unfoldable pub as_array : Value → Option (List Value)
as_array (arr vs) = some (to_list vs)
as_array _ = none

unfoldable pub get_mut : Text → (Value → Value) → Value → Value
get_mut k f (obj fs) = obj (adjust k f fs)
get_mut k f v = v

-- `value[k] = v`: `null` becomes an object, and any other value that is no object panics.
unfoldable pub index_set : Text → Value → Value → Option Value
index_set k v (obj fs) = some (obj (insert k v fs))
index_set k v null = some (obj (field k v end))
index_set k v _ = none

abbrev pub length_items : Items → ℕ
length_items nil = 0
length_items (cons v vs) = suc (length_items vs)

pub record SerdeJson : Type 0 where
  -- `from_slice`, `to_vec` and `to_string` of a value and of a slice; `none` is an error.
  pub from_slice : Bytes → Option Value
  pub to_vec : Value → Option Bytes
  pub to_string : Value → Option Text
  pub slice_to_string : List Value → Option Text
  -- `from_value::<Vec<PromptBlock>>`.
  pub blocks_from_value : Value → Option (List PromptBlock)
