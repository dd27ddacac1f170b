-- ===== src/Json/Equal.antt =====
-- Python's `==` on JSON values: the order of a dict's keys does not count, and a bool is the integer
-- that it stands for.
use open_managed_agents.Json.{
  Items, Value, Dict, lookup, is_null, is_text, size, from_items, null, bool, int, str, arr, obj,
  nil, cons, empty, field,
}
use open_managed_agents.Prelude.{if◌then◌else◌, pos, negsuc, true, false, none, some, ℤ}
use open_managed_agents.Json.{
  is_text, str, is_null, pos, bool, size, some, false, int, from_items, Bool, Option, Value, Dict,
}
use open_managed_agents.Prelude.{true, ◌&&◌, eqb, none, ℤ, List}

abbrev pub same_int : ℤ → ℤ → Bool
same_int (pos m) (pos n) = eqb m n
same_int (negsuc m) (negsuc n) = eqb m n
same_int _ _ = false

abbrev pub number_of : Value → Option ℤ
number_of (int z) = some z
number_of (bool true) = some (pos 1)
number_of (bool false) = some (pos 0)
number_of _ = none

abbrev pub same_number : ℤ → Value → Bool
same_number z w = elim (number_of w) [ none ↦ false | some y ↦ same_int z y ]

unfoldable mutual
  pub same_value : Value → Value → Bool
  same_value null w = is_null w
  same_value (bool b) w = same_number (pos (if b then 1 else 0)) w
  same_value (int z) w = same_number z w
  same_value (str s) w = is_text w s
  same_value (arr vs) (arr ws) = same_items vs ws
  same_value (arr vs) _ = false
  same_value (obj d) (obj e) = eqb (size d) (size e) && has_fields d e
  same_value (obj d) _ = false

  pub same_items : Items → Items → Bool
  same_items nil nil = true
  same_items (cons v vs) (cons w ws) = same_value v w && same_items vs ws
  same_items _ _ = false

  -- Each field of the first dict is in the second one.
  pub has_fields : Dict → Dict → Bool
  has_fields empty e = true
  has_fields (field k v d) e =
      (elim (lookup k e) [ none ↦ false | some w ↦ same_value v w ]) && has_fields d e

abbrev pub same_dict : Dict → Dict → Bool
same_dict d e = eqb (size d) (size e) && has_fields d e

abbrev pub same_list : List Value → List Value → Bool
same_list vs ws = same_items (from_items vs) (from_items ws)
