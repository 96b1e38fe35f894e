-- ===== src/Values.antt =====
-- The dynamic values that cross the program's edges: the JSON of an outbox payload and the mapping
-- of a session (`type JsonValue` of src/app/domain/outbox.py and `type SessionScalar` of
-- src/app/adapters/security/sessions.py). Python's `bool` is an `int` for `isinstance`, and an `int`
-- compares with a `float` by its exact value.
use lsstack.Prelude.{
  Bool, Option, String, arith, false, if◌then◌else◌, none, some, str_eq, suc, true, ◌*◌, ◌-◌, ◌^◌,
  ◌≡◌,
}
use lsstack.Prelude.Int.{leb_ℤ, negsuc, pos, ℤ}
use lsstack.Text.{Text}

-- A double is a whole multiple of 2 ^ -1074, an infinity or not a number.
pub data Float : Type 0 where
  finite : ℤ → Float
  pos_inf neg_inf nan : Float

mutual
  pub data Value : Type 0 where
    null : Value
    bool : Bool → Value
    int : ℤ → Value
    float : Float → Value
    str : Text → Value
    list : Items → Value
    dict : Fields → Value

  pub data Items : Type 0 where
    nil : Items
    item : Value → Items → Items

  pub data Fields : Type 0 where
    end : Fields
    field : String → Value → Fields → Fields

-- mapping.get(key)
unfoldable pub get : Fields → String → Option Value
get end key = none
get (field k v rest) key = if str_eq k key then some v else get rest key

-- isinstance(value, int) and not isinstance(value, bool)
abbrev pub as_int : Option Value → Option ℤ
as_int (some (int n)) = some n
as_int _ = none

-- isinstance(value, dict) and isinstance(value, str)
abbrev pub as_dict : Option Value → Option Fields
as_dict (some (dict fields)) = some fields
as_dict _ = none

abbrev pub as_str : Option Value → Option Text
as_str (some (str s)) = some s
as_str _ = none

pub as_dict_lem :
    (value : Option Value) (fields : Fields)
    → as_dict value ≡ some fields
    → value ≡ some (dict fields)
as_dict_lem (some (dict f)) fields h = ground (arith, h)
as_dict_lem none fields h = absurd (ground (arith, h))
as_dict_lem (some null) fields h = absurd (ground (arith, h))
as_dict_lem (some (bool b)) fields h = absurd (ground (arith, h))
as_dict_lem (some (int n)) fields h = absurd (ground (arith, h))
as_dict_lem (some (float x)) fields h = absurd (ground (arith, h))
as_dict_lem (some (str s)) fields h = absurd (ground (arith, h))
as_dict_lem (some (list items)) fields h = absurd (ground (arith, h))

pub as_str_lem : (value : Option Value) (s : Text) → as_str value ≡ some s → value ≡ some (str s)
as_str_lem (some (str t)) s h = ground (arith, h)
as_str_lem none s h = absurd (ground (arith, h))
as_str_lem (some null) s h = absurd (ground (arith, h))
as_str_lem (some (bool b)) s h = absurd (ground (arith, h))
as_str_lem (some (int n)) s h = absurd (ground (arith, h))
as_str_lem (some (float x)) s h = absurd (ground (arith, h))
as_str_lem (some (list items)) s h = absurd (ground (arith, h))
as_str_lem (some (dict fields)) s h = absurd (ground (arith, h))

-- isinstance(value, int | float) and not isinstance(value, bool), as a real number in units of
-- 2 ^ -1074
unfoldable pub scaled : ℤ → ℤ
scaled (pos n) = pos (n * 2 ^ 1074)
scaled (negsuc n) = negsuc (suc n * 2 ^ 1074 - 1)

abbrev pub as_number : Option Value → Option Float
as_number (some (int n)) = some (finite (scaled n))
as_number (some (float x)) = some x
as_number _ = none

-- x <= y, which is false where either is not a number
unfoldable pub float_le : Float → Float → Bool
float_le nan _ = false
float_le _ nan = false
float_le neg_inf _ = true
float_le _ pos_inf = true
float_le (finite a) (finite b) = leb_ℤ a b
float_le _ _ = false
