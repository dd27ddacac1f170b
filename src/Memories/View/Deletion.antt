-- ===== src/Memories/View/Deletion.antt =====
-- A deletion of a memory, as a change of the view.
use open_managed_agents.Memories.View.Effects.{live-IsAt, create_effect, IsLive}
use open_managed_agents.Memories.View.Finding.{
  must_exist-id, must_exist-IsFound, must_exist-IsRead, must_write_memory_store-IsRead, IsFound,
}
use open_managed_agents.Memories.View.Sound.{rows_written, write-IsSound, IsSound}
use open_managed_agents.Memories.Data.{current_version}
use open_managed_agents.Resources.Writes.{
  write_row, no_changes, created, delete_resource, changed, update_resource,
}
use open_managed_agents.Memories.View.{Entry, entry_of, Spot, view, IsAt, at_spot, View}
use open_managed_agents.Memories.Changes.{
  deletion_now, content_failed, delete_noted, sha_differs, delete_with, delete_found, delete_memory,
  deletion_data,
}
use open_managed_agents.Memories.Calls.{must_exist, must_write_memory_store, create_memory_version}
use open_managed_agents.Db.{deleted, workspace_id_or_default, Db, Context, Resource}
use open_managed_agents.Memories.View.Writes.{after}
use open_managed_agents.Resources.Queries.{is_named}
use open_managed_agents.Runtime.{to_str, Runtime}
use mathlib.Core.Path.{subst, sym, ap, fun_ext}
use mathlib.Core.List.{[], List, append_assoc}
use open_managed_agents.Prelude.{
  and_false, ◌∷◌, ◌++◌, ◌∙◌, ℤ, refl, ◌≡◌, if◌then◌else◌, none, some, true, false, ℕ, String,
  Option, Bool,
}
use open_managed_agents.Result.{raise_if, ok, ok_injective, map_ok-eq-ok}
use open_managed_agents.Json.{put, is_text, str, get, Value, Dict}
use open_managed_agents.Memories.View.{set}
use open_managed_agents.Json.Fields.{get-put}
use open_managed_agents.Exec.{check_keeps, bind-eq-ok, check, ◌>>=◌}
use open_managed_agents.Reads.{check-IsRead, read-bind-eq-ok}

gone :
    (here : Bool) (v : Entry) (o : Option Entry)
    → (if here then none else if here then some v else if here then none else o)
      ≡ (if here then none else o)
gone true v o = refl
gone false v o = refl

-- What left its spot, and was there, is not in the view.
after_gone :
    (store_id key : String) (v w : Entry) (f : View)
    → after (some (store_id, key)) none w (after (some (store_id, key)) (some (store_id, key)) v f)
      ≡ set f store_id key none
unfolding after set
after_gone store_id key v w f =
    fun_ext λ s. fun_ext λ k. gone (at_spot (some (store_id, key)) s k) v (f s k)

deleted_nowhere : (ws : String) (now : ℕ) (x : Resource) → x.deleted_at ≡ some now → IsAt ws none x
unfolding is_named
deleted_nowhere ws now x h s k = rw h (and_false _)

module _ ⦃r : Runtime⦄ where
  deletion_data-keeps :
      (now : ℕ) (payload : Dict) (data_and_version : Dict × ℤ)
      → deletion_data now payload ≡ ok data_and_version
      → get "path_key" data_and_version.0 ≡ get "path_key" payload
  unfolding deletion_data
  deletion_data-keeps now payload q h =
      let (version, _, e) = map_ok-eq-ok _ (current_version payload) h in
      ap (λ (x : Dict × ℤ). get "path_key" x.0) (sym e) ∙ simp get-put

  -- What a deletion that returned has done to the view: the memory with the id is out of it.
  abbrev pub HasDeleted : String → String → String → Db → Resource → Db → Type 0
  HasDeleted ws store_id id db x db' =
      IsSound ws db'
      × (x.id ≡ id)
      × (key : String) × (old : Value) × (view ws db store_id key ≡ some (id, old))
      × (view ws db' ≡ set (view ws db) store_id key none)

  module _ (unique : (p q : String) (m n : ℕ) → r.new_id p m ≡ r.new_id q n → m ≡ n) where
    delete_noted_effect :
        (store_id : String) (memory version : Resource) (payload : Dict) (ws key : String)
        (pre post : List Resource) (c : Context) (db : Db) (x : Resource) (db' : Db)
        → IsSound ws db
        → db.resources ≡ pre ++ memory ∷ post
        → IsLive ws store_id memory
        → memory.name ≡ some key
        → is_text (get "path_key" payload) key ≡ true
        → delete_noted memory payload version c db ≡ ok (x, db')
        → IsSound ws db' × (x.id ≡ memory.id) × (view ws db' ≡ set (view ws db) store_id key none)
    unfolding update_resource changed delete_resource
    delete_noted_effect store_id memory version payload ws key pre post c db x db' h e live named
          told done =
        let noted = put "memory_version_id" (str version.id) payload in
        let row = changed (record no_changes { payload = some noted }) c.now memory in
        let row' = record row { deleted_at = some c.now; status = deleted; updated_at = c.now } in
        let stored = record db { resources = write_row row db.resources } in
        let stored' = record stored { resources = write_row row' stored.resources } in
        let spot : Spot = some (store_id, key) in
        let told' =
          ap (λ v. is_text v key) (get-put "path_key" "memory_version_id" (str version.id) payload)
          ∙ told in
        let (sound, seen) =
          write-IsSound ws db row spot spot memory pre post h e refl
            (live-IsAt ws store_id key memory live named) (live-IsAt ws store_id key row live named)
            (λ _. (key, named, told')) (λ s k t p. let q : true ≡ false = sym t ∙ p in absurd cc) in
        let (sound', seen') =
          write-IsSound ws stored row' spot none row pre post sound
            (rows_written ws db row memory pre post h e refl) refl
            (live-IsAt ws store_id key row live named) (deleted_nowhere ws c.now row' refl)
            (λ _. (key, named, told')) (λ s k t p. absurd cc) in
        subst
          (λ (y : Resource × Db).
            IsSound ws y.1
            × (y.0.id ≡ memory.id)
            × (view ws y.1 ≡ set (view ws db) store_id key none))
          (ok_injective done)
          (
            sound',
            refl,
            seen'
                ∙ ap (after spot none (entry_of row')) seen
                ∙ after_gone store_id key (entry_of row) (entry_of row') (view ws db),
          )

    delete_found_effect :
        (store_id : String) (memory : Resource) (sha : Option String) (c : Context) (db : Db)
        (x : Resource) (db' : Db)
        → IsSound (workspace_id_or_default c none) db
        → IsFound (workspace_id_or_default c none) store_id memory db
        → delete_found sha memory c db ≡ ok (x, db')
        → HasDeleted (workspace_id_or_default c none) store_id memory.id db x db'
    unfolding delete_found delete_with create_memory_version created is_named after
    delete_found_effect store_id memory sha c db x db' h found done =
        let ws = workspace_id_or_default c none in
        let (_, _, h1) =
          read-bind-eq-ok (check (raise_if (sha_differs sha memory.payload) content_failed))
            (λ _. deletion_now memory >>= delete_with memory) c db (check-IsRead _) done in
        let ((payload, version), made, h2) =
          read-bind-eq-ok (deletion_now memory) (delete_with memory) c db
            (λ c' db''. check-IsRead (deletion_data c'.now memory.payload) c' db'') h1 in
        let (row, db1, versioned, h3) =
          bind-eq-ok
            (create_memory_version memory version (to_str (get "updated_by" payload)) "deleted"
              payload)
            (delete_noted memory payload) c db h2 in
        let (_, e1, sound, seen) =
          create_effect unique ws _ c db row db1 none h versioned (λ s k. refl) (λ t. absurd cc)
            (λ s k t _. absurd cc) in
        let kept =
          deletion_data-keeps c.now memory.payload (payload, version)
            (check_keeps (deletion_data c.now memory.payload) c db db made).0 in
        let (sound', same, seen') =
          delete_noted_effect store_id memory row payload ws found.key found.pre
            (found.post ++ row ∷ []) c db1 x db' sound
            (e1
              ∙ ap (λ rows. rows ++ row ∷ []) found.rows
              ∙ append_assoc found.pre (memory ∷ found.post) (row ∷ []))
            found.live found.named (ap (λ v. is_text v found.key) kept ∙ found.dict_key) h3 in
        (
          sound',
          same,
          found.key,
          _,
          found.seen,
          seen' ∙ ap (λ f. set f store_id found.key none) seen,
        )

    -- A deletion that returns takes the memory out of its store, and leaves the rest.
    pub delete_memory-HasDeleted :
        (store_id memory_id : String) (sha : Option String) (c : Context) (db : Db) (x : Resource)
        (db' : Db)
        → IsSound (workspace_id_or_default c none) db
        → delete_memory store_id memory_id sha c db ≡ ok (x, db')
        → HasDeleted (workspace_id_or_default c none) store_id memory_id db x db'
    unfolding delete_memory
    delete_memory-HasDeleted store_id memory_id sha c db x db' h done =
        let (_, _, h1) =
          read-bind-eq-ok (must_write_memory_store store_id)
            (λ _. must_exist memory_id "memory" (some store_id) >>= delete_found sha) c db
            (must_write_memory_store-IsRead store_id) done in
        let (memory, there, h2) =
          read-bind-eq-ok (must_exist memory_id "memory" (some store_id)) (delete_found sha) c db
            (must_exist-IsRead memory_id "memory" (some store_id)) h1 in
        subst (λ i. HasDeleted (workspace_id_or_default c none) store_id i db x db')
          (must_exist-id memory_id store_id c db memory there)
          (delete_found_effect store_id memory sha c db x db' h
            (must_exist-IsFound memory_id store_id c db memory h there) h2)
