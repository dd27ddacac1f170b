-- ===== src/Pagination/Tests.antt =====
-- A concrete codec of cursors, the pages of three items by two, and each property at an input
-- where its hypotheses hold.
use open_managed_agents.Pagination.ById.{
  paginate_by_id_before, paginate_by_id_after, Slice, paginate_by_id,
}
use open_managed_agents.Pagination.Walk.{read_all_complete, follow, read_all}
use open_managed_agents.Pagination.{
  false, cursor_expires_at, read_cursor, read_payload, after_prefix, encode_page, decode_page, ok,
  max_limit, page_limit, none, code, page_at, eqb, paginate, pos, cursor_fields, some, Cursors,
}
use open_managed_agents.Prelude.{
  eq_iff, ◌≢◌, refl, arith, suc, [], ◌∷◌, ◌≡◌, if◌then◌else◌, List, ℕ, Option,
}
use open_managed_agents.Fixtures.{sample_runtime}
use open_managed_agents.Json.{obj, int, Value, Dict, get, lookup}
use open_managed_agents.WorkQueue.Defs.{to_int}
use Prim.Native.String.{String}
use open_managed_agents.Prelude.{zero, suc}

abbrev nat_of : Value → ℕ
nat_of (int (pos n)) = n
nat_of _ = 0

-- One letter for each unit of the offset and of the expiry.
unfoldable letters : ℕ → ℕ → String
letters zero zero = ""
letters zero (suc b) = String.◌∷◌ "b" (letters zero b)
letters (suc a) b = String.◌∷◌ "a" (letters a b)

unfoldable counts : String → ℕ × ℕ
counts String.[] = (0, 0)
counts (String.◌∷◌ c s) =
    let rest = counts s in if eqb (code c) 97 then (suc rest.0, rest.1) else (rest.0, suc rest.1)

counts-letters : (a b : ℕ) → counts (letters a b) ≡ (a, b)
unfolding counts letters
counts-letters zero zero = refl
counts-letters zero (suc b) = rw (counts-letters zero b)
counts-letters (suc a) b = rw (counts-letters a b)

letters_of : Dict → String
letters_of d = letters (nat_of (get "offset" d)) (nat_of (get "expires_at" d))

read_letters : String → Option Value
read_letters s = some (obj (cursor_fields (counts s).0 (counts s).1))

read_letters-letters_of :
    (offset expires_at : ℕ)
    → read_letters (letters_of (cursor_fields offset expires_at))
      ≡ some (obj (cursor_fields offset expires_at))
unfolding read_letters letters_of get lookup
read_letters-letters_of offset expires_at = rw (counts-letters offset expires_at)

instance abbrev letter_cursors : Cursors
letter_cursors = record {
  encode = letters_of;
  decode = read_letters;
  decode-encode = read_letters-letters_of;
}

abbrev three : List ℕ
three = 1 ∷ 2 ∷ 3 ∷ []

reads_three : read_all 2 three (some (pos 2)) none max_limit 7 ≡ ok three
unfolding read_all follow paginate page_at page_limit decode_page encode_page after_prefix
    read_payload read_cursor cursor_expires_at get lookup to_int counts letters letters_of
    read_letters
reads_three = refl

read_all_complete_example : read_all 4 three (some (pos 2)) none max_limit 7 ≡ ok three
read_all_complete_example = read_all_complete 4 three (some (pos 2)) max_limit 7 (omega arith)

-- Items that are their own ids.
abbrev three_items : List String
three_items = "a" ∷ "b" ∷ "c" ∷ []

b_named : ◌≢◌ {A = String} "b" ""
b_named = ground (arith, eq_iff "b" "")

paginate_by_id_after_example :
    paginate_by_id some three_items (some (pos 2)) (some "b") none 100
    ≡ ok (record { sliced = "c" ∷ []; has_more = false })
unfolding page_limit
paginate_by_id_after_example =
    paginate_by_id_after some ("a" ∷ []) "b" ("c" ∷ []) (some (pos 2)) "b" 100 refl refl b_named

paginate_by_id_before_example :
    (page : Slice String) × (paginate_by_id some three_items (some (pos 2)) none (some "b") 100
      ≡ ok page)
    × (page.sliced ≡ "a" ∷ "b" ∷ [])
unfolding page_limit
paginate_by_id_before_example =
    paginate_by_id_before some ("a" ∷ []) "b" ("c" ∷ []) (some (pos 2)) "b" 100 refl refl b_named
      (omega arith)
