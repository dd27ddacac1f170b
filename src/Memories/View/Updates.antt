-- ===== src/Memories/View/Updates.antt =====
-- An update of a memory, as a change of the view.
use open_managed_agents.Memories.View.Moves.{write_effect, Updated, HasUpdated, IsMerged}
use open_managed_agents.Memories.View.Keys.{key_free, same_keys}
use open_managed_agents.WorkQueue.Defs.{to_int}
use open_managed_agents.Reads.{check-IsRead, read-bind-eq-ok}
use open_managed_agents.Memories.Data.{
  merge_memory_data, memory_has_material_change, memory_requested_state_matches_current,
}
use open_managed_agents.Memories.View.Sound.{IsSound}
use open_managed_agents.Memories.View.Finding.{
  must_exist-id, must_exist-IsFound, path_key_of-told, must_exist-IsRead, find-IsRead, IsFound,
}
use open_managed_agents.Memories.Changes.{
  expected_sha, without_conditions, expected_version, check_version, merge_now, write_versioned,
  content_differs, write_keyed, merge_and_write, update_memory_found, write_if_changed,
  update_memory, update_checked, write_unless_taken, if_matching, write_at, is_other, write_memory,
}
use open_managed_agents.Memories.Paths.{Unicode}
use open_managed_agents.Db.{workspace_id_or_default, Db, Context, Resource}
use open_managed_agents.Memories.Calls.{
  path_key_of, must_exist, path_exists, normalize_memory_view, Mapper, find_memory_by_path,
}
use open_managed_agents.Runtime.{Runtime}
use open_managed_agents.Memories.View.Spec.{IsAsWanted}
use open_managed_agents.Memories.View.Merge.{merge_memory_data_lem}
use open_managed_agents.Memories.View.{view}
use mathlib.Core.Path.{subst, sym}
use open_managed_agents.Prelude.{
  Bool-cases, refl, ◌∙◌, ℤ, ◌≡◌, none, some, true, false, inl, inr, ℕ, String, Option, Bool,
}
use open_managed_agents.Result.{err, ok_injective, ok}
use open_managed_agents.Json.{is_text, get, Value, Dict}
use open_managed_agents.Exec.{raise, when_false, when_true, ◌>>=◌, check, pure, check_keeps}

module _ ⦃r : Runtime⦄ ⦃u : Unicode⦄ ⦃m : Mapper⦄
    (unique : (p q : String) (m n : ℕ) → r.new_id p m ≡ r.new_id q n → m ≡ n) where
  kept :
      (store_id key : String) (update : Dict) (c : Context) (db : Db) (x : Resource) (db' : Db)
      (memory : Resource)
      → IsSound (workspace_id_or_default c none) db
      → is_text (get "path_key" memory.payload) key ≡ true
      → IsAsWanted memory.payload update
      → pure memory c db ≡ ok (x, db')
      → Updated store_id key update memory c db x db'
  kept store_id key update c db x db' memory h told wanted done =
      subst (λ (y : Resource × Db). Updated store_id key update memory c db y.0 y.1)
        (ok_injective done) (h, refl, inl ((memory.payload, refl, told, wanted), refl))

  matched :
      (matches : Bool) (store_id key : String) (update : Dict) (c : Context) (db : Db)
      (x : Resource) (db' : Db) (memory : Resource)
      → IsSound (workspace_id_or_default c none) db
      → is_text (get "path_key" memory.payload) key ≡ true
      → memory_requested_state_matches_current memory.payload update ≡ ok matches
      → if_matching memory matches c db ≡ ok (x, db')
      → Updated store_id key update memory c db x db'
  matched true store_id key update c db x db' memory h told asked done =
      kept store_id key update c db x db' memory h told (inr asked) done
  matched false store_id key update c db x db' memory h told asked done = absurd cc

  write_unless_taken_effect :
      (store_id key : String) (memory : Resource) (payload : Dict) (version : ℤ) (c : Context)
      (db : Db) (x : Resource) (db' : Db) (existing : Option Resource)
      → IsSound (workspace_id_or_default c none) db
      → (found : IsFound (workspace_id_or_default c none) store_id memory db)
      → is_text (get "path_key" payload) key ≡ true
      → (update : Dict) → IsMerged update found.key (get "content" memory.payload) key payload
      → find_memory_by_path store_id key c db ≡ ok (existing, db)
      → write_unless_taken memory payload key version existing c db ≡ ok (x, db')
      → Updated store_id found.key update memory c db x db'
  write_unless_taken_effect store_id key memory payload version c db x db' existing h found told
        update merged search done =
      elim (Bool-cases (is_other memory.id existing)) [
        | inl t ↦ let q : err path_exists ≡ ok (x, db') = sym (rw t refl) ∙ done in absurd cc
        | inr p ↦
            write_effect unique store_id key memory payload version c db x db' h found told
              (key_free store_id key memory c db existing h found search p) update merged
              (sym (
                  when_false (raise path_exists) (write_memory memory payload key version) c db _ p)
                ∙ done)
      ]

  write_at_effect :
      (store_id key : String) (memory : Resource) (payload : Dict) (version : ℤ) (c : Context)
      (db : Db) (x : Resource) (db' : Db)
      → IsSound (workspace_id_or_default c none) db
      → (found : IsFound (workspace_id_or_default c none) store_id memory db)
      → is_text (get "path_key" payload) key ≡ true
      → (update : Dict) → IsMerged update found.key (get "content" memory.payload) key payload
      → write_at store_id memory payload version key c db ≡ ok (x, db')
      → Updated store_id found.key update memory c db x db'
  unfolding write_at
  write_at_effect store_id key memory payload version c db x db' h found told update merged done =
      let direct = write_memory memory payload key version in
      let search =
        find_memory_by_path store_id key >>= write_unless_taken memory payload key version in
      elim (Bool-cases (is_text (get "path_key" memory.payload) key)) [
        | inl t ↦
            write_effect unique store_id key memory payload version c db x db' h found told
              (inl (same_keys (get "path_key" memory.payload) found.key key found.dict_key t))
              update merged (sym (when_true direct search c db _ t) ∙ done)
        | inr p ↦
            let (existing, read, rest) =
              read-bind-eq-ok (find_memory_by_path store_id key)
                (write_unless_taken memory payload key version) c db (find-IsRead store_id key)
                (sym (when_false direct search c db _ p) ∙ done) in
            write_unless_taken_effect store_id key memory payload version c db x db' existing h
              found told update merged read rest
      ]

  merged_effect :
      (store_id : String) (memory : Resource) (payload : Dict) (c : Context) (db : Db)
      (x : Resource) (db' : Db)
      → IsSound (workspace_id_or_default c none) db
      → (found : IsFound (workspace_id_or_default c none) store_id memory db) → (update : Dict)
      → merge_memory_data c.now memory.payload update ≡ ok payload
      → write_if_changed store_id memory payload c db ≡ ok (x, db')
      → Updated store_id found.key update memory c db x db'
  unfolding write_if_changed
  merged_effect store_id memory payload c db x db' h found update made done =
      elim (Bool-cases (memory_has_material_change memory.payload payload)) [
        | inl t ↦
            let (version, _, h1) =
              read-bind-eq-ok (check (to_int (get "version" payload)))
                (write_keyed store_id memory payload) c db (check-IsRead _)
                (sym (when_true (write_versioned store_id memory payload) (pure memory) c db _ t)
                  ∙ done) in
            let (key, told, h2) =
              read-bind-eq-ok (check (path_key_of payload))
                (write_at store_id memory payload version) c db (check-IsRead _) h1 in
            let is_told =
              path_key_of-told payload key (check_keeps (path_key_of payload) c db db told).0 in
            write_at_effect store_id key memory payload version c db x db' h found is_told update
              (merge_memory_data_lem c.now memory.payload update payload found.key key made
                found.dict_key is_told)
              h2
        | inr p ↦
            kept store_id found.key update c db x db' memory h found.dict_key
              (inl (c.now, payload, made, p))
              (sym (when_false (write_versioned store_id memory payload) (pure memory) c db _ p)
                ∙ done)
      ]

  checked_effect :
      (store_id : String) (memory : Resource) (update : Dict) (sha : Value) (c : Context) (db : Db)
      (x : Resource) (db' : Db)
      → IsSound (workspace_id_or_default c none) db
      → (found : IsFound (workspace_id_or_default c none) store_id memory db)
      → update_checked store_id memory update sha c db ≡ ok (x, db')
      → Updated store_id found.key update memory c db x db'
  unfolding update_checked
  checked_effect store_id memory update sha c db x db' h found done =
      let judged =
        check (memory_requested_state_matches_current memory.payload update)
        >>= if_matching memory in
      let merged = merge_and_write store_id memory update in
      elim (Bool-cases (content_differs sha memory.payload)) [
        | inl t ↦
            let (matches, asked, h1) =
              read-bind-eq-ok (check (memory_requested_state_matches_current memory.payload update))
                (if_matching memory) c db (check-IsRead _)
                (sym (when_true judged merged c db _ t) ∙ done) in
            matched matches store_id found.key update c db x db' memory h found.dict_key
              (check_keeps (memory_requested_state_matches_current memory.payload update) c db db
                asked).0
              h1
        | inr p ↦
            let (payload, made, h1) =
              read-bind-eq-ok (merge_now memory update) (write_if_changed store_id memory) c db
                (λ c' db''. check-IsRead (merge_memory_data c'.now memory.payload update) c' db'')
                (sym (when_false judged merged c db _ p) ∙ done) in
            merged_effect store_id memory payload c db x db' h found update
              (check_keeps (merge_memory_data c.now memory.payload update) c db db made).0 h1
      ]

  -- An update that returns leaves every store as it is, where the memory with the id has what the body
  -- asks for, or moves that memory to the key and the content that the body gives.
  pub update_memory-HasUpdated :
      (store_id memory_id : String) (display : Option String) (body : Dict) (c : Context) (db : Db)
      (x : Resource) (db' : Db)
      → IsSound (workspace_id_or_default c none) db
      → update_memory store_id memory_id display body c db ≡ ok (x, db')
      → (key : String) × (old : Value) × (view (workspace_id_or_default c none) db store_id key
          ≡ some (memory_id, old))
        × HasUpdated
            (workspace_id_or_default c none)
            store_id
            memory_id
            key
            old
            (without_conditions body)
            db
            x
            db'
  unfolding update_memory update_memory_found
  update_memory-HasUpdated store_id memory_id display body c db x db' h done =
      let (_, _, h1) =
        read-bind-eq-ok (check (normalize_memory_view display))
          (λ _. must_exist memory_id "memory" (some store_id) >>= update_memory_found store_id body)
          c db (check-IsRead _) done in
      let (memory, there, h2) =
        read-bind-eq-ok (must_exist memory_id "memory" (some store_id))
          (update_memory_found store_id body) c db
          (must_exist-IsRead memory_id "memory" (some store_id)) h1 in
      let (_, _, h3) =
        read-bind-eq-ok (check (check_version (expected_version body) memory.payload))
          (λ _.
            update_checked store_id memory (without_conditions body)
              (expected_sha (get "precondition" body)))
          c db (check-IsRead _) h2 in
      let found = must_exist-IsFound memory_id store_id c db memory h there in
      subst
        (λ (i : String).
          (key : String) × (old : Value) × (view (workspace_id_or_default c none) db store_id key
            ≡ some (i, old))
          × HasUpdated (workspace_id_or_default c none) store_id i key old (without_conditions body)
              db x db')
        (must_exist-id memory_id store_id c db memory there)
        (
          found.key,
          get "content" memory.payload,
          found.seen,
          checked_effect store_id memory (without_conditions body)
              (expected_sha (get "precondition" body)) c db x db' h found h3,
        )
