-- ===== src/Memories/View/Moves.antt =====
-- The writes of an update of a memory, as a change of the view.
use open_managed_agents.Memories.View.Keys.{unless-IsFree}
use open_managed_agents.Memories.Data.{without_actor}
use open_managed_agents.Memories.View.Effects.{add_version_effect, live-IsAt}
use open_managed_agents.Memories.View.Sound.{rows_written, write-IsSound, IsSound}
use open_managed_agents.Memories.View.Finding.{IsFound}
use open_managed_agents.Resources.Writes.{write_row, no_changes, changed, update_resource}
use open_managed_agents.Memories.Changes.{write_memory}
use open_managed_agents.Memories.View.Writes.{after}
use open_managed_agents.Memories.Paths.{Unicode}
use open_managed_agents.Db.{workspace_id_or_default, Db, Context, Resource}
use open_managed_agents.Memories.Calls.{Mapper}
use open_managed_agents.Runtime.{Runtime}
use open_managed_agents.Memories.View.Spec.{given_value, IsNewKey, IsNewContent, IsKept}
use open_managed_agents.Memories.View.{set, Spot, view}
use open_managed_agents.Prelude.{refl, ℤ, ◌⊎◌, ◌≡◌, none, some, true, inr, ℕ, String}
use open_managed_agents.Result.{ok}
use open_managed_agents.Json.{lookup, is_text, get, Value, Dict}

-- What an update that returned has done to the view: nothing, where the memory with the id, which was
-- under the key with the content, has what the body asks for; or that memory is under the key and
-- with the content that the body gives, or those that it had.
abbrev pub HasUpdated :
    ⦃r : Runtime⦄
    → ⦃u : Unicode⦄ → String
    → String
    → String
    → String
    → Value
    → Dict
    → Db
    → Resource
    → Db
    → Type 0
HasUpdated ws store_id id key old update db x db' =
    IsSound ws db'
    × (x.id ≡ id)
    × ((IsKept update key old × (view ws db' ≡ view ws db))
        ⊎ ((new_key : String) × (new : Value) × IsNewKey (lookup "path" (without_actor update)) key
              new_key
            × IsNewContent (given_value "content" (without_actor update)) old new
            × ((key ≡ new_key) ⊎ (view ws db store_id new_key ≡ none))
            × (view ws db'
                ≡ set (set (view ws db) store_id key none) store_id new_key (some (id, new)))))

module _ ⦃r : Runtime⦄ ⦃u : Unicode⦄ where
  -- The key and the content of the merged dict are those that the body asks for.
  abbrev pub IsMerged : Dict → String → Value → String → Dict → Type 0
  IsMerged update old_key old key payload =
      IsNewKey (lookup "path" (without_actor update)) old_key key
      × IsNewContent (given_value "content" (without_actor update)) old (get "content" payload)

  abbrev pub Updated : String → String → Dict → Resource → Context → Db → Resource → Db → Type 0
  Updated store_id key update memory c db x db' =
      HasUpdated (workspace_id_or_default c none) store_id memory.id key
        (get "content" memory.payload) update db x db'

module _ ⦃r : Runtime⦄ ⦃u : Unicode⦄ ⦃m : Mapper⦄
    (unique : (p q : String) (m n : ℕ) → r.new_id p m ≡ r.new_id q n → m ≡ n) where
  -- The write of the merged dict takes the memory to its new key.
  pub write_effect :
      (store_id key : String) (memory : Resource) (payload : Dict) (version : ℤ) (c : Context)
      (db : Db) (x : Resource) (db' : Db)
      → IsSound (workspace_id_or_default c none) db
      → (found : IsFound (workspace_id_or_default c none) store_id memory db)
      → is_text (get "path_key" payload) key ≡ true
      → (found.key ≡ key) ⊎ (view (workspace_id_or_default c none) db store_id key ≡ none)
      → (update : Dict) → IsMerged update found.key (get "content" memory.payload) key payload
      → write_memory memory payload key version c db ≡ ok (x, db')
      → Updated store_id found.key update memory c db x db'
  unfolding write_memory update_resource changed set after
  write_effect store_id key memory payload version c db x db' h found told free update merged done =
      let ws = workspace_id_or_default c none in
      let ch = record no_changes { payload = some payload; name = some key } in
      let row = changed ch c.now memory in
      let stored = record db { resources = write_row row db.resources } in
      let was : Spot = some (store_id, found.key) in
      let spot : Spot = some (store_id, key) in
      let (sound, seen) =
        write-IsSound ws db row was spot memory found.pre found.post h found.rows refl
          (live-IsAt ws store_id found.key memory found.live found.named)
          (live-IsAt ws store_id key row found.live refl) (λ _. (key, refl, told))
          (unless-IsFree (view ws db) store_id found.key key free) in
      let (same, sound', seen') =
        add_version_effect unique "modified" version payload store_id key row c stored x db'
          found.pre found.post was (view ws db) sound
          (rows_written ws db row memory found.pre found.post h found.rows refl) found.live refl
          told seen done in
      (sound', same, inr (key, get "content" payload, merged.0, merged.1, free, seen'))
