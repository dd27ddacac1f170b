-- ===== src/Memories/View/Creation.antt =====
-- A creation of a memory, as a change of the view.
use open_managed_agents.Memories.View.Finding.{
  same_text, path_key_of-told, find-IsRead, must_write_memory_store-IsRead, find_free, spot-IsFree,
}
use open_managed_agents.Memories.Data.Payload.{memory_payload_lem}
use open_managed_agents.Memories.Data.{memory_payload, content_text}
use open_managed_agents.Memories.View.Effects.{add_version_effect, live-IsAt, create_effect}
use open_managed_agents.Memories.View.Sound.{IsSound}
use open_managed_agents.Resources.Writes.{create_resource, new_resource, created}
use open_managed_agents.Db.{Db, workspace_id_or_default, Context}
use open_managed_agents.Memories.View.Writes.{after}
use open_managed_agents.Memories.Paths.{path_key, normalize_memory_path, Unicode}
use open_managed_agents.Resources.Queries.{list_resources}
use open_managed_agents.Memories.View.{set, view, Resource, Spot}
use open_managed_agents.Runtime.{Runtime}
use open_managed_agents.Memories.Calls.{
  insert_at, insert_payload, payload_now, create_in_store, normalize_memory_view, insert_new,
  create_memory, add_memory_version, refuse_full, max_memories_per_store, insert_memory, Mapper,
  ensure_memory_store_capacity, find_memory_by_path, path_key_of, must_write_memory_store,
}
use open_managed_agents.Prelude.{
  sym, refl, inl, ◌∙◌, [], ◌+◌, ap, ◌≡◌, none, some, true, false, ℕ, String, Option, pos,
}
use open_managed_agents.Result.{ok}
use open_managed_agents.Json.{is_text, str, get, Dict}
use open_managed_agents.Exec.{check_keeps, bind-eq-ok, check, ◌>>=◌}
use open_managed_agents.Reads.{IsRead, check-IsRead, bind-IsRead, read-bind-eq-ok}

module _ ⦃r : Runtime⦄ where
  capacity-IsRead : (store_id : String) → IsRead (ensure_memory_store_capacity store_id)
  unfolding ensure_memory_store_capacity list_resources
  capacity-IsRead store_id =
      bind-IsRead
        (list_resources "memory" (some store_id) (max_memories_per_store + 1) true false none)
        refuse_full (λ c db. inl (_, refl)) (λ memories. check-IsRead _)

  module _ ⦃u : Unicode⦄ ⦃m : Mapper⦄
      (unique : (p q : String) (m n : ℕ) → r.new_id p m ≡ r.new_id q n → m ≡ n) where
    insert_effect :
        (store_id key : String) (payload : Dict) (c : Context) (db : Db) (x : Resource) (db' : Db)
        → IsSound (workspace_id_or_default c none) db
        → is_text (get "path_key" payload) key ≡ true
        → view (workspace_id_or_default c none) db store_id key ≡ none
        → insert_memory store_id payload key c db ≡ ok (x, db')
        → IsSound (workspace_id_or_default c none) db'
          × (view (workspace_id_or_default c none) db'
              ≡ set
                  (view (workspace_id_or_default c none) db)
                  store_id
                  key
                  (some (x.id, get "content" payload)))
    unfolding insert_memory created set after
    insert_effect store_id key payload c db x db' h told free done =
        let ws = workspace_id_or_default c none in
        let new = record (new_resource "memory") {
          parent_id = some store_id;
          name = some key;
          payload = some payload;
        } in
        let spot : Spot = some (store_id, key) in
        let (y, db1, made, noted) =
          bind-eq-ok (create_resource new) (add_memory_version "created" (pos 1) payload key) c db
            done in
        let (ey, e1, sound, seen) =
          create_effect unique ws new c db y db1 spot h made
            (live-IsAt ws store_id key (created new c db) (refl, refl, refl, refl) refl)
            (λ _. (key, refl, told)) (spot-IsFree none (view ws db) store_id key free) in
        let (same, sound', seen') =
          add_version_effect unique "created" (pos 1) payload store_id key y c db1 x db'
            db.resources [] none (view ws db) sound e1
            (
              ap (λ (z : Resource). z.resource_type) ey,
              ap (λ (z : Resource). z.workspace_id) ey,
              ap (λ (z : Resource). z.parent_id) ey,
              ap (λ (z : Resource). z.deleted_at) ey,
            )
            (ap (λ (z : Resource). z.name) ey) told
            (seen
              ∙ ap (λ v. after none spot (y.id, v) (view ws db))
                  (ap (λ (z : Resource). get "content" z.payload) ey))
            noted in
        (
          sound',
          seen'
              ∙ ap (λ i. set (view ws db) store_id key (some (i, get "content" payload)))
                  (sym same),
        )

    insert_unless_found :
        (store_id key : String) (payload : Dict) (c : Context) (db : Db) (x : Resource) (db' : Db)
        (existing : Option Resource)
        → IsSound (workspace_id_or_default c none) db
        → is_text (get "path_key" payload) key ≡ true
        → find_memory_by_path store_id key c db ≡ ok (existing, db)
        → insert_new store_id payload key existing c db ≡ ok (x, db')
        → (view (workspace_id_or_default c none) db store_id key ≡ none)
          × IsSound (workspace_id_or_default c none) db'
          × (view (workspace_id_or_default c none) db'
              ≡ set
                  (view (workspace_id_or_default c none) db)
                  store_id
                  key
                  (some (x.id, get "content" payload)))
    insert_unless_found store_id key payload c db x db' (some y) h told search done = absurd cc
    insert_unless_found store_id key payload c db x db' none h told search done =
        let free = find_free store_id key c db search in
        let (sound, seen) = insert_effect store_id key payload c db x db' h told free done in
        (free, sound, seen)

    -- A creation that returns adds, under the key of the normalised path, which was free, the id of
    -- the memory that it returns and the body's content as a text, and changes nothing else of what
    -- any store holds.
    pub create_memory-adds :
        (store_id : String) (display : Option String) (body : Dict) (c : Context) (db : Db)
        (x : Resource) (db' : Db)
        → IsSound (workspace_id_or_default c none) db
        → create_memory store_id display body c db ≡ ok (x, db')
        → (path : String) × (normalize_memory_path (get "path" body) ≡ ok path)
          × (view (workspace_id_or_default c none) db store_id (path_key path) ≡ none)
          × (view (workspace_id_or_default c none) db'
              ≡ set
                  (view (workspace_id_or_default c none) db)
                  store_id
                  (path_key path)
                  (some (x.id, str (content_text (get "content" body)))))
          × IsSound (workspace_id_or_default c none) db'
    unfolding create_memory
    create_memory-adds store_id display body c db x db' h done =
        let (_, _, h1) =
          read-bind-eq-ok (check (normalize_memory_view display))
            (λ _. must_write_memory_store store_id >>= create_in_store store_id body) c db
            (check-IsRead (normalize_memory_view display)) done in
        let (_, _, h2) =
          read-bind-eq-ok (must_write_memory_store store_id) (create_in_store store_id body) c db
            (must_write_memory_store-IsRead store_id) h1 in
        let (_, _, h3) =
          read-bind-eq-ok (ensure_memory_store_capacity store_id)
            (λ _. payload_now body >>= insert_payload store_id) c db (capacity-IsRead store_id)
            h2 in
        let (payload, made, h4) =
          read-bind-eq-ok (payload_now body) (insert_payload store_id) c db
            (λ c' db''. check-IsRead (memory_payload c'.now body) c' db'') h3 in
        let (key, told, h5) =
          read-bind-eq-ok (check (path_key_of payload)) (insert_at store_id payload) c db
            (check-IsRead (path_key_of payload)) h4 in
        let (existing, search, h6) =
          read-bind-eq-ok (find_memory_by_path store_id key) (insert_new store_id payload key) c db
            (find-IsRead store_id key) h5 in
        let (path, normal, e, ec) =
          memory_payload_lem c.now body payload (check_keeps _ c db db made).0 in
        let told' =
          path_key_of-told payload key (check_keeps (path_key_of payload) c db db told).0 in
        let same = same_text key (path_key path) (ap (λ v. is_text v key) (sym e) ∙ told') in
        let f = view (workspace_id_or_default c none) db in
        let (free, sound, seen) =
          insert_unless_found store_id key payload c db x db' existing h told' search h6 in
        (
          path,
          normal,
          ap (f store_id) same ∙ free,
          seen
              ∙ ap (λ v. set f store_id key (some (x.id, v))) ec
              ∙ ap (λ k. set f store_id k (some (x.id, str (content_text (get "content" body)))))
                  (sym same),
          sound,
        )
