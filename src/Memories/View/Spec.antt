-- ===== src/Memories/View/Spec.antt =====
-- What the calls on memories mean for a client, who sees ids and contents under the paths of a store.
use open_managed_agents.Result.{ok}
use open_managed_agents.Memories.View.{false, true, set, none, [], some, List, View}
use open_managed_agents.Prelude.{ℕ, ◌==◌, if◌then◌else◌, ◌⊎◌, ◌∷◌, ◌≡◌, Option, String}
use open_managed_agents.Runtime.{Runtime}
use open_managed_agents.Json.{lookup, empty, is_text, str, get, field, Value, Dict}
use open_managed_agents.Memories.Data.{
  memory_requested_state_matches_current, memory_has_material_change, merge_memory_data,
  content_text, without_actor,
}
use open_managed_agents.Memories.Changes.{without_conditions}
use open_managed_agents.Memories.Paths.{path_key, normalize_memory_path, Unicode}

-- The calls that write memories.
pub data Call : Type 0 where
  creation : String → Option String → Dict → Call
  update : String → String → Option String → Dict → Call
  deletion : String → String → Option String → Call

-- The value that a body gives a key: the last one.
unfoldable pub given_value : String → Dict → Option Value
given_value k empty = none
given_value k (field j v d) = elim (given_value k d) [
  | some w ↦ some w
  | none ↦ if j == k then some v else none
]

-- What an update's body gives the memory, without the conditions and the actor.
abbrev pub fields_of : Dict → Dict
fields_of body = without_actor (without_conditions body)

module _ ⦃r : Runtime⦄ ⦃u : Unicode⦄ where
  -- The key after an update: that of the path that the body gives, if any.
  abbrev pub IsNewKey : Option Value → String → String → Type 0
  IsNewKey none key new_key = new_key ≡ key
  IsNewKey (some v) key new_key =
      (path : String) × (normalize_memory_path v ≡ ok path) × (new_key ≡ path_key path)

  -- The content after an update: what the body gives, as a text. An empty text takes the content
  -- away, and a text is left.
  abbrev pub IsNewContent : Option Value → Value → Value → Type 0
  IsNewContent none old new = new ≡ old
  IsNewContent (some v) old new =
      (new ≡ str (content_text v)) ⊎ ((is_text v "" ≡ true) × ((text : String) × (new ≡ str text)))

  -- The body asks a memory with the dict for nothing that it has not: merging makes no material
  -- change, or the path and the content asked for are there, where a precondition failed.
  abbrev pub IsAsWanted : Dict → Dict → Type 0
  IsAsWanted payload asked =
      ((now : ℕ) × (merged : Dict) × (merge_memory_data now payload asked ≡ ok merged)
        × (memory_has_material_change payload merged ≡ false))
      ⊎ (memory_requested_state_matches_current payload asked ≡ ok true)

  -- A memory under the key with the content has what the body asks for.
  abbrev pub IsKept : Dict → String → Value → Type 0
  IsKept asked key old =
      (payload : Dict) × (get "content" payload ≡ old)
      × (is_text (get "path_key" payload) key ≡ true)
      × IsAsWanted payload asked

  -- What a call does to the view, with the id of the memory that it returns, if it returns: a
  -- creation adds the body's content under the key of its path, which is free; an update leaves the
  -- view as it is, where the memory with the id has what is asked for, or takes that memory from its
  -- key to the new one, which is free or the same; a deletion takes the memory with the id away. A
  -- call that is refused does nothing.
  pub data Does (f g : View) : Call → Option String → Type 0 where
    refuses : (call : Call) → g ≡ f → Does f g call none
    creates :
        (store_id : String) (display : Option String) (body : Dict) (id path : String)
        → normalize_memory_path (get "path" body) ≡ ok path
        → f store_id (path_key path) ≡ none
        → g ≡ set f store_id (path_key path) (some (id, str (content_text (get "content" body))))
        → Does f g (creation store_id display body) (some id)
    keeps :
        (store_id id key : String) (display : Option String) (body : Dict) (old : Value)
        → f store_id key ≡ some (id, old)
        → IsKept (without_conditions body) key old
        → g ≡ f
        → Does f g (update store_id id display body) (some id)
    rewrites :
        (store_id id key new_key : String) (display : Option String) (body : Dict) (old new : Value)
        → f store_id key ≡ some (id, old)
        → IsNewKey (lookup "path" (fields_of body)) key new_key
        → IsNewContent (given_value "content" (fields_of body)) old new
        → (key ≡ new_key) ⊎ (f store_id new_key ≡ none)
        → g ≡ set (set f store_id key none) store_id new_key (some (id, new))
        → Does f g (update store_id id display body) (some id)
    takes_away :
        (store_id id key : String) (sha : Option String) (old : Value)
        → f store_id key ≡ some (id, old)
        → g ≡ set f store_id key none
        → Does f g (deletion store_id id sha) (some id)

  -- What calls and their answers do, one after the other; the last one stands first.
  pub data Replay (f : View) : List (Call × Option String) → View → Type 0 where
    nothing : Replay f [] f
    then_call :
        (call : Call) (answer : Option String) (before : List (Call × Option String)) (g h : View)
        → Replay f before g
        → Does g h call answer
        → Replay f ((call, answer) ∷ before) h
