-- ===== src/Fixtures.antt =====
-- A runtime and rows on which the tests and examples run. A moment is printed as "T" and its binary
-- digits, an id as its prefix and the count of uuids drawn.
use Prim.Native.Nat.{◌/◌, ◌%◌}
use Prim.Native.Char.{code}
use Prim.Native.String.{◌++◌}
use text.Mathlib.TextLemmas.{cons-ne-nil}
use open_managed_agents.Prelude.{
  ℕ, zero, suc, ◌+◌, ◌*◌, ◌≤◌, String, ◌≡◌, refl, ap, sym, ◌∙◌, ◌≢◌, Bool, false, true, Option,
  none, some, [], arith, eqb, if◌then◌else◌, inl, inr, Bool-cases,
}
use open_managed_agents.Json.{Dict, empty}
use open_managed_agents.Runtime.{Runtime}
use open_managed_agents.Db.{Resource, Session, Db, Context, Status, SessionStatus}

abbrev pub push : Bool → Bool → String → String
push true is_even s = ""
push false true s = String.◌∷◌ "0" s
push false false s = String.◌∷◌ "1" s

unfoldable pub bits : ℕ → ℕ → String
bits zero n = ""
bits (suc fuel) n = let rest = bits fuel (n / 2) in push (eqb n 0) (eqb (n % 2) 0) rest

unfoldable pub read_bits : String → Option ℕ
read_bits String.[] = some 0
read_bits (String.◌∷◌ c s) = elim (read_bits s) [
  | none ↦ none
  | some n ↦
      if eqb (code c) 48 then some (2 * n) else if eqb (code c) 49 then some (2 * n + 1) else none
]

unfoldable pub print : ℕ → String
unfolding bits
print t = String.◌∷◌ "T" (bits t t)

unfoldable pub read : String → Option ℕ
unfolding read_bits
read String.[] = none
read (String.◌∷◌ c s) = if eqb (code c) 84 then read_bits s else none

read_bits-push :
    (z is_even : Bool) (n : ℕ) (s : String)
    → eqb n 0 ≡ z
    → eqb (n % 2) 0 ≡ is_even
    → read_bits s ≡ some (n / 2)
    → read_bits (push z is_even s) ≡ some n
unfolding read_bits
read_bits-push true is_even n s ez ee h = let e : 0 ≡ n = ground arith in ap some e
read_bits-push false true n s ez ee h = rw h (let e : 2 * (n / 2) ≡ n = ground arith in ap some e)
read_bits-push false false n s ez ee h =
    rw h (let e : 2 * (n / 2) + 1 ≡ n = ground arith in ap some e)

read_bits-bits : (fuel n : ℕ) → n ≤ fuel → read_bits (bits fuel n) ≡ some n
unfolding bits read_bits
read_bits-bits zero n h = let e : 0 ≡ n = omega arith in ap some e
read_bits-bits (suc fuel) n h = elim (Bool-cases (eqb n 0)) [
  | inl z ↦ rw z (let e : 0 ≡ n = ground arith in ap some e)
  | inr p ↦
      read_bits-push (eqb n 0) (eqb (n % 2) 0) n (bits fuel (n / 2)) refl refl
        (read_bits-bits fuel (n / 2) (ground arith))
]

pub read-print : (t : ℕ) → read (print t) ≡ some t
unfolding read print
read-print t = read_bits-bits t t (omega arith)

pub print-ne : (t : ℕ) → print t ≢ ""
unfolding print
print-ne t h = cons-ne-nil _ (bits t t) h

-- Ids are drawn in order; `str` and `int` of other values are not exercised.
instance abbrev pub sample_runtime : Runtime
sample_runtime = record {
  isoformat = print;
  fromisoformat = read;
  expand_zulu = λ s. s;
  strip = λ s. s;
  lower = λ s. s;
  message_of = λ class. class;
  text_of = λ v. "";
  int_of_text = λ s. none;
  new_id = λ prefix n. prefix ++ "_" ++ bits n n;
  id_before = λ a b. false;
  iso_round = read-print;
  iso_ne = print-ne;
  iso_no_zulu = λ t. refl;
  strip_again = λ s. refl;
  strip_blank = refl;
  strip_slash = λ a b p q. refl;
}

-- `n` letters, as the n-th id.
unfoldable pub tally : ℕ → String
tally zero = ""
tally (suc n) = String.◌∷◌ "x" (tally n)

chars : String → ℕ
chars String.[] = 0
chars (String.◌∷◌ c s) = suc (chars s)

chars-tally : (n : ℕ) → chars (tally n) ≡ n
unfolding tally chars
chars-tally zero = refl
chars-tally (suc n) = ap suc (chars-tally n)

pub tally_injective : (m n : ℕ) → tally m ≡ tally n → m ≡ n
tally_injective m n h = sym (chars-tally m) ∙ ap chars h ∙ chars-tally n

-- The same runtime, where no id is drawn twice.
abbrev pub counting_runtime : Runtime
counting_runtime = record sample_runtime { new_id = λ prefix n. tally n }

abbrev pub blank_resource : String → String → Status → Dict → Resource
blank_resource id type status payload = record {
  id = id;
  workspace_id = "wrkspc_default";
  resource_type = type;
  parent_id = none;
  version = none;
  name = none;
  status = status;
  payload = payload;
  content = none;
  content_type = none;
  filename = none;
  storage_backend = none;
  storage_key = none;
  storage_url = none;
  size_bytes = none;
  sha256 = none;
  archived_at = none;
  deleted_at = none;
  created_at = 1;
  updated_at = 1;
}

abbrev pub blank_session : String → SessionStatus → Option Dict → Session
blank_session id status reason = record {
  id = id;
  workspace_id = "wrkspc_default";
  agent_id = "agent_1";
  agent_version = 1;
  environment_id = "env_1";
  title = none;
  status = status;
  status_details = empty;
  stop_reason = reason;
  run_state = none;
  sandbox_state = none;
  metadata = empty;
  last_event_seq = 0;
  lock_version = 0;
  archived_at = none;
  deleted_at = none;
  created_at = 1;
  updated_at = 1;
}

abbrev pub empty_db : Db
empty_db = record {
  resources = [];
  sessions = [];
  events = [];
  environments = [];
  agents = [];
  agent_versions = [];
  drawn = 0;
}

-- A request in the default workspace.
abbrev pub at : ℕ → Context
at now = record { workspace = none; now = now }

read-print_million : read (print 1000000) ≡ some 1000000
unfolding read print
read-print_million = refl
