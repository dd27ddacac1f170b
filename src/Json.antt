-- ===== src/Json.antt =====
-- The values that the JSON columns and request bodies hold (`dict[str, Any]` throughout app/), with
-- the operations of Python that the program applies to them. Floats are left out.
pub mod Fields
pub mod Equal
use open_managed_agents.Prelude.{
  ℕ, zero, suc, String, Bool, true, false, not, Option, none, some, List, [], ◌∷◌, ℤ, pos, negsuc,
  ◌==◌, if◌then◌else◌,
}

mutual
  pub data Value : Type 0 where
    null : Value
    bool : Bool → Value
    int : ℤ → Value
    str : String → Value
    arr : Items → Value
    obj : Dict → Value

  pub data Items : Type 0 where
    nil : Items
    cons : Value → Items → Items

  -- A dict, in insertion order.
  pub data Dict : Type 0 where
    empty : Dict
    field : String → Value → Dict → Dict

-- `d.get(k)`; `none` where the key is missing, so that `in` is told from a stored None.
unfoldable pub lookup : String → Dict → Option Value
lookup k empty = none
lookup k (field j v d) = if j == k then some v else lookup k d

-- `d.get(k)` where the caller does not tell a missing key from None.
unfoldable pub get : String → Dict → Value
unfolding lookup
get k d = elim (lookup k d) [ none ↦ null | some v ↦ v ]

-- `d[k] = v`
unfoldable pub put : String → Value → Dict → Dict
put k v empty = field k v empty
put k v (field j w d) = if j == k then field j v d else field j w (put k v d)

-- `d.pop(k, None)`
unfoldable pub remove : String → Dict → Dict
remove k empty = empty
remove k (field j v d) = if j == k then d else field j v (remove k d)

-- `len(d)`
abbrev pub size : Dict → ℕ
size empty = 0
size (field k v d) = suc (size d)

-- The elements of a JSON array, in order.
abbrev pub items : Items → List Value
items nil = []
items (cons v vs) = v ∷ items vs

abbrev pub from_items : List Value → Items
from_items [] = nil
from_items (v ∷ vs) = cons v (from_items vs)

-- `bool(v)`
abbrev pub truthy : Value → Bool
truthy null = false
truthy (bool b) = b
truthy (int (pos zero)) = false
truthy (int (pos (suc n))) = true
truthy (int (negsuc n)) = true
truthy (str s) = not (s == "")
truthy (arr nil) = false
truthy (arr (cons v vs)) = true
truthy (obj empty) = false
truthy (obj (field k v d)) = true

-- `v is None`
abbrev pub is_null : Value → Bool
is_null null = true
is_null _ = false

-- `isinstance(v, str)`, with the text.
abbrev pub as_str : Value → Option String
as_str (str s) = some s
as_str _ = none

-- `isinstance(v, dict)`, with the dict.
abbrev pub as_dict : Value → Option Dict
as_dict (obj d) = some d
as_dict _ = none

-- `isinstance(v, list)`, with its elements.
abbrev pub as_list : Value → Option (List Value)
as_list (arr vs) = some (items vs)
as_list _ = none

-- `v == s` against a text.
abbrev pub is_text : Value → String → Bool
is_text (str t) s = t == s
is_text _ s = false

-- `a or b`
abbrev pub or_value : Value → Value → Value
or_value a b = if truthy a then a else b

-- `None` is `null`.
abbrev pub opt_str : Option String → Value
opt_str none = null
opt_str (some s) = str s
