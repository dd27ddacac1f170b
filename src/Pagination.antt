-- ===== src/Pagination.antt =====
-- app/pagination.py: pages of a list, with a cursor that tells the offset and when it expires.
pub mod Walk
pub mod ById
mod Tests
use open_managed_agents.Prelude.Int.{ltb_ℤ}
use Prim.Native.Char.{code}
use open_managed_agents.WorkQueue.Defs.{to_int}
use open_managed_agents.Json.{is_null, empty, obj, int, field, Value, get, Dict}
use open_managed_agents.Prelude.{
  drop, take, not, min, ◌==◌, length, eqb, max, none, negsuc, ◌+◌, if◌then◌else◌, false, ◌≡◌, some,
  Bool, ltb, ◌*◌, pos, ℤ, List, Option, ℕ,
}
use open_managed_agents.Runtime.{Runtime}
use Prim.Native.String.{◌++◌, String}
use open_managed_agents.Result.{map_ok, http, ok, err, Result, ◌>>=◌}

-- A cursor's object.
abbrev pub cursor_fields : ℕ → ℕ → Dict
cursor_fields offset expires_at =
    field "offset" (int (pos offset)) (field "expires_at" (int (pos expires_at)) empty)

-- `base64.urlsafe_b64encode(json.dumps(…))` without its padding, and the way back, which fails on
-- what is no such text: that a cursor's object comes back is what json and base64 document.
pub record Cursors : Type 0 where
  pub encode : Dict → String
  pub decode : String → Option Value
  pub decode-encode :
      (offset expires_at : ℕ)
      → decode (encode (cursor_fields offset expires_at))
        ≡ some (obj (cursor_fields offset expires_at))

pub record Page {ℓ} (A : Type ℓ) : Type ℓ where
  pub sliced : List A
  pub has_more : Bool
  pub next_page : Option String

abbrev pub default_limit : ℕ
default_limit = 50

abbrev pub max_limit : ℕ
max_limit = 1000

-- In seconds.
abbrev pub page_cursor_ttl : ℕ
page_cursor_ttl = 15 * 60

-- `_limit`
unfoldable pub page_limit : Option ℤ → ℕ → ℕ
page_limit none most = default_limit
page_limit (some (pos n)) most = max 1 (min n most)
page_limit (some (negsuc n)) most = 1

-- `s.removeprefix(p)` where `s.startswith(p)`.
unfoldable pub after_prefix : String → String → Option String
after_prefix String.[] s = some s
after_prefix (String.◌∷◌ a p) String.[] = none
after_prefix (String.◌∷◌ a p) (String.◌∷◌ b s) =
    let rest = after_prefix p s in if eqb (code a) (code b) then rest else none

abbrev pub bad_cursor {ℓ} : {A : Type ℓ} → Result A
bad_cursor = err (http 400 "Invalid page cursor")

-- `max(0, offset)`
abbrev pub at_least_zero : ℤ → ℕ
at_least_zero (pos n) = n
at_least_zero (negsuc n) = 0

module _ ⦃r : Runtime⦄ ⦃cursors : Cursors⦄ where
  -- `int(v)` under the handler's `except Exception`.
  abbrev pub cursor_int : Value → Result ℤ
  cursor_int v = elim (to_int v) [ err e ↦ bad_cursor | ok z ↦ ok z ]

  -- `_cursor_expires_at`
  unfoldable pub cursor_expires_at : Dict → Result (Option ℤ)
  cursor_expires_at cursor =
      let v = get "expires_at" cursor in if is_null v then ok none else map_ok some (cursor_int v)

  -- `expires_at is not None and expires_at <= _now_epoch_seconds()`
  abbrev pub is_expired : Option ℤ → ℕ → Bool
  is_expired none now = false
  is_expired (some z) now = not (ltb_ℤ (pos now) z)

  unfoldable pub read_cursor : Dict → ℕ → Result ℕ
  read_cursor cursor now = cursor_int (get "offset" cursor) >>= λ offset.
      cursor_expires_at cursor >>= λ expires_at.
      if is_expired expires_at now
      then err (http 400 "Expired page cursor")
      else ok (at_least_zero offset)

  -- What the text behind the prefix holds.
  unfoldable pub read_payload : Option Value → ℕ → Result ℕ
  read_payload (some (obj cursor)) now = read_cursor cursor now
  read_payload _ now = bad_cursor

  -- `_decode_page`, at a moment in seconds of the epoch.
  unfoldable pub decode_page : Option String → ℕ → Result ℕ
  decode_page none now = ok 0
  decode_page (some value) now = if value == "" then ok 0 else (elim (after_prefix "page_" value) [
    | none ↦ bad_cursor
    | some payload ↦ read_payload (cursors.decode payload) now
  ])

  abbrev pub cursor_at : ℕ → ℕ → Dict
  cursor_at offset now = cursor_fields offset (now + page_cursor_ttl)

  -- `_encode_page`
  unfoldable pub encode_page : ℕ → ℕ → String
  encode_page offset now = "page_" ++ cursors.encode (cursor_at offset now)

  module _ {ℓ} {A : Type ℓ} where
    -- The page of `size` items from `offset` on.
    unfoldable pub page_at : List A → ℕ → ℕ → ℕ → Page A
    page_at items size offset now =
        let more = ltb (offset + size) (length items) in
        record {
          sliced = take size (drop offset items);
          has_more = more;
          next_page = if more then some (encode_page (offset + size) now) else none;
        }

    unfoldable pub paginate : List A → Option ℤ → Option String → ℕ → ℕ → Result (Page A)
    paginate items limit page most now =
        decode_page page now >>= λ offset. ok (page_at items (page_limit limit most) offset now)
