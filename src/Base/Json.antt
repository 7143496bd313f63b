-- ===== src/Base/Json.antt =====
-- JSON values as `json.loads` gives them to the program, and Python's tests on them.
use draindeck.Base.{
  ℕ, zero, String, Bool, true, false, not, Option, none, some, List, [], ◌∷◌, ◌==◌, if◌then◌else◌,
  string_comparable,
}

-- `negsuc n` is -(n + 1).
pub data ℤ : Type 0 where
  pos : ℕ → ℤ
  negsuc : ℕ → ℤ

-- A binary float: sign, mantissa and exponent, or one of the special values.
pub data Float : Type 0 where
  finite : (negative : Bool) (mantissa : ℕ) (exponent : ℤ) → Float
  infinite : (negative : Bool) → Float
  nan : Float

mutual
  -- The members of an object, in order.
  pub data Fields : Type 0 where
    end : Fields
    field : String → Value → Fields → Fields

  pub data Value : Type 0 where
    obj : Fields → Value
    arr : Items → Value
    str : String → Value
    float : Float → Value
    int : ℤ → Value
    bool : Bool → Value
    null : Value

  pub data Items : Type 0 where
    nil : Items
    cons : Value → Items → Items

-- payload.get(name)
unfoldable pub get : String → Fields → Option Value
get k end = none
get k (field j v fs) = if j == k then some v else get k fs

-- payload.get(name), with `null` for Python's None.
unfoldable pub get_null : String → Fields → Value
unfolding get
get_null k fs = elim (get k fs) [ none ↦ null | some v ↦ v ]

unfoldable pub to_list : Items → List Value
to_list nil = []
to_list (cons v vs) = v ∷ to_list vs

unfoldable pub keys : Fields → List Value
keys end = []
keys (field k v fs) = str k ∷ keys fs

unfoldable pub is_empty : Fields → Bool
is_empty end = true
is_empty (field _ _ _) = false

-- bool(v)
unfoldable pub truthy : Value → Bool
truthy null = false
truthy (bool b) = b
truthy (int (pos zero)) = false
truthy (int _) = true
truthy (float (finite _ zero _)) = false
truthy (float _) = true
truthy (str s) = not (s == "")
truthy (arr nil) = false
truthy (arr _) = true
truthy (obj end) = false
truthy (obj _) = true

-- v is True, v is False
unfoldable pub is_true : Value → Bool
is_true (bool b) = b
is_true _ = false

unfoldable pub is_false : Value → Bool
is_false (bool b) = not b
is_false _ = false
