-- ===== src/Memories/View.antt =====
-- What a store holds, as a client sees it: the memory's id and content under each path's key,
-- whatever rows and versions keep it.
pub mod Rows
pub mod Writes
pub mod Sound
pub mod Effects
pub mod Finding
pub mod Creation
pub mod Keys
pub mod Merge
pub mod Moves
pub mod Updates
pub mod Deletion
pub mod Spec
pub mod Run
use open_managed_agents.Resources.Queries.{is_named}
use open_managed_agents.Db.{Db, Resource}
use open_managed_agents.Prelude.{
  [], ◌&&◌, ◌∷◌, keep, ◌==◌, if◌then◌else◌, ◌⊎◌, List, Bool, Option, ◌≡◌, String, none, some, true,
  false,
}
use open_managed_agents.Json.{Value, get}

-- The live memories of the workspace under a key: what `_find_memory_by_path` looks through.
abbrev pub matching : String → String → String → List Resource → List Resource
matching ws store_id key rows = keep (is_named "memory" key (some store_id) false ws) rows

-- A memory's id and content.
abbrev pub Entry : Type 0
Entry = String × Value

abbrev pub entry_of : Resource → Entry
entry_of x = (x.id, get "content" x.payload)

-- A store's id and a key lead to a memory.
abbrev pub View : Type 0
View = String → String → Option Entry

abbrev pub content_in : List Resource → Option Entry
content_in [] = none
content_in (x ∷ xs) = some (entry_of x)

unfoldable pub view : String → Db → View
view ws db store_id key = content_in (matching ws store_id key db.resources)

unfoldable pub set : View → String → String → Option Entry → View
set f store_id key v store_id' key' =
    if store_id == store_id' && key == key' then v else f store_id' key'

-- A row that is no live memory of the workspace is nowhere; another one has a store and a key.
abbrev pub Spot : Type 0
Spot = Option (String × String)

abbrev pub at_spot : Spot → String → String → Bool
at_spot none store_id key = false
at_spot (some (s, k)) store_id key = s == store_id && k == key

abbrev pub IsAt : String → Spot → Resource → Type 0
IsAt ws spot x =
    (store_id key : String)
    → is_named "memory" key (some store_id) false ws x ≡ at_spot spot store_id key

abbrev pub pick : Bool → Resource → List Resource
pick b x = if b then x ∷ [] else []
