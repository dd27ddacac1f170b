-- ===== src/Runtime.antt =====
-- What the program takes from Python, from its database and from the clock, as one interface.
-- A moment is the number of microseconds since `datetime.min`, in UTC; every stored timestamp text
-- carries its offset, since the program only ever stores `datetime.now(timezone.utc).isoformat()`.
use open_managed_agents.Prelude.{joined, ℕ, String, ◌≡◌, ◌≢◌, Bool, Option, some, ℤ}
use open_managed_agents.Json.{Value, str}

pub record Runtime : Type 0 where
  -- `t.isoformat()`
  pub isoformat : ℕ → String
  -- `datetime.fromisoformat(s)`; `none` is its ValueError.
  pub fromisoformat : String → Option ℕ
  -- `s.replace("Z", "+00:00")`
  pub expand_zulu : String → String
  -- `s.strip()`
  pub strip : String → String
  -- `s.lower()`
  pub lower : String → String
  -- `str(exc)` of an exception of the database or of Python, by its class.
  pub message_of : String → String
  -- `str(v)` of a value that is no text.
  pub text_of : Value → String
  -- `int(s)` of a text; `none` is its ValueError.
  pub int_of_text : String → Option ℤ
  -- `new_id(prefix)`: `prefix_` and the hexadecimal form of a fresh uuid4, here of the n-th one drawn.
  pub new_id : String → ℕ → String
  -- The order of the database on the text column `id`.
  pub id_before : String → String → Bool
  -- Reading back a printed moment gives that moment; the print is a text that is not empty and
  -- holds no Z.
  pub iso_round : (t : ℕ) → fromisoformat (isoformat t) ≡ some t
  pub iso_ne : (t : ℕ) → isoformat t ≢ ""
  pub iso_no_zulu : (t : ℕ) → expand_zulu (isoformat t) ≡ isoformat t
  -- A stripped text is not stripped further, and neither are two that are joined by a slash, which
  -- is no whitespace.
  pub strip_again : (s : String) → strip (strip s) ≡ strip s
  pub strip_blank : strip "" ≡ ""
  pub strip_slash :
      (a b : String)
      → strip a ≡ a
      → strip b ≡ b
      → strip (joined a (String.◌∷◌ "/" b)) ≡ joined a (String.◌∷◌ "/" b)

-- `str(v)`
abbrev pub to_str : ⦃r : Runtime⦄ → Value → String
to_str ⦃r⦄ v = elim v [ str s ↦ s | other ↦ r.text_of other ]
