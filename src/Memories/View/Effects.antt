-- ===== src/Memories/View/Effects.antt =====
-- What the calls on the rows of a memory do to the view.
use open_managed_agents.Json.Fields.{get-put}
use open_managed_agents.Memories.View.Sound.{write-IsSound, add-IsSound, IsKeyed, IsSound}
use open_managed_agents.Memories.Calls.{
  note_version, create_memory_version, add_memory_version, Mapper,
}
use open_managed_agents.Resources.Writes.{
  write_row, no_changes, changed, update_resource, same_version, created, NewResource,
  create_resource,
}
use open_managed_agents.Memories.View.{entry_of, Entry, view, at_spot, View, IsAt, Spot}
use open_managed_agents.Resources.Queries.{is_named}
use open_managed_agents.Db.{workspace_id_or_default, Db, Context, Resource}
use open_managed_agents.Memories.View.Writes.{IsFree, after}
use open_managed_agents.Runtime.{to_str, Runtime}
use mathlib.Core.Path.{fun_ext, subst, sym, ap}
use mathlib.Core.List.{[], List, append_assoc}
use open_managed_agents.Prelude.{
  suc, any, ◌∙◌, Bool-cases, ◌∷◌, ◌++◌, ℤ, eq_self, arith, refl, ◌≡◌, if◌then◌else◌, none, some,
  true, false, inl, inr, ℕ, String, Option, Bool,
}
use open_managed_agents.Result.{crash, ok, err, ok_injective}
use open_managed_agents.Json.{put, is_text, str, get, Dict}
use open_managed_agents.Exec.{bind-eq-ok}

-- A live memory of a store.
abbrev pub IsLive : String → String → Resource → Type 0
IsLive ws store_id x =
    (x.resource_type ≡ "memory")
    × (x.workspace_id ≡ ws)
    × (x.parent_id ≡ some store_id)
    × (x.deleted_at ≡ none)

pub live-IsAt :
    (ws store_id key : String) (x : Resource)
    → IsLive ws store_id x
    → x.name ≡ some key
    → IsAt ws (some (store_id, key)) x
unfolding is_named
live-IsAt ws store_id key x (et, ew, ep, ed) en s k =
    rw et (rw ew (rw ep (rw ed (rw en (ground (arith, eq_self ws))))))

again :
    (here was : Bool) (v : Entry) (o : Option Entry)
    → (if here
        then some v
        else if here
        then none
        else if here
        then some v
        else if was
        then none
        else o)
      ≡ (if here then some v else if was then none else o)
again true was v o = refl
again false was v o = refl

-- A write to the same spot twice is the last write.
pub after_again :
    (was spot : Spot) (v : Entry) (f : View)
    → after spot spot v (after was spot v f) ≡ after was spot v f
unfolding after
after_again was spot v f =
    fun_ext λ s. fun_ext λ k. again (at_spot spot s k) (at_spot was s k) v (f s k)

module _ ⦃r : Runtime⦄
    (unique : (p q : String) (m n : ℕ) → r.new_id p m ≡ r.new_id q n → m ≡ n) where
  -- A row that is created.
  pub create_effect :
      (ws : String) (new : NewResource) (c : Context) (db : Db) (y : Resource) (db' : Db)
      (spot : Spot)
      → IsSound ws db
      → create_resource new c db ≡ ok (y, db')
      → IsAt ws spot (created new c db)
      → IsKeyed (created new c db)
      → IsFree none spot (view ws db)
      → (y ≡ created new c db)
        × (db'.resources ≡ db.resources ++ y ∷ [])
        × IsSound ws db'
        × (view ws db' ≡ after none spot (entry_of y) (view ws db))
  unfolding create_resource created
  create_effect ws new c db y db' spot h made hy keyed free =
      elim (Bool-cases (any (same_version new) db.resources)) [
        | inl t ↦
            let q : err (crash "IntegrityError") ≡ ok (y, db') = sym (rw t refl) ∙ made in absurd cc
        | inr p ↦
            let row = created new c db in
            let stored = record db { resources = db.resources ++ row ∷ []; drawn = suc db.drawn } in
            let q : ok (row, stored) ≡ ok (y, db') = sym (rw p refl) ∙ made in
            let (sound, seen) = add-IsSound unique ws db row spot _ h refl hy keyed free in
            subst
              (λ (x : Resource × Db).
                (x.0 ≡ row)
                × (x.1.resources ≡ db.resources ++ x.0 ∷ [])
                × IsSound ws x.1
                × (view ws x.1 ≡ after none spot (entry_of x.0) (view ws db)))
              (ok_injective q) (refl, refl, sound, seen)
      ]

  module _ ⦃m : Mapper⦄ where
    -- The second write of a memory, with its version's id.
    note_version_effect :
        (payload : Dict) (store_id key : String) (memory version : Resource) (c : Context) (db : Db)
        (memory' : Resource) (db' : Db) (ws : String) (pre post : List Resource) (was : Spot)
        (f : View)
        → IsSound ws db
        → db.resources ≡ pre ++ memory ∷ post
        → IsLive ws store_id memory
        → memory.name ≡ some key
        → is_text (get "path_key" payload) key ≡ true
        → view ws db ≡ after was (some (store_id, key)) (memory.id, get "content" payload) f
        → note_version memory payload key version c db ≡ ok (memory', db')
        → (memory'.id ≡ memory.id)
          × IsSound ws db'
          × (view ws db' ≡ after was (some (store_id, key)) (memory.id, get "content" payload) f)
    unfolding note_version update_resource changed
    note_version_effect payload store_id key memory version c db memory' db' ws pre post was f h e
          live named keyed seen done =
        let noted = put "memory_version_id" (str version.id) payload in
        let ch = record no_changes { payload = some noted; name = some key } in
        let row = changed ch c.now memory in
        let spot : Spot = some (store_id, key) in
        elim (Bool-cases m.writes_mutated) [
          | inl t ↦
              let (sound, seen') =
                write-IsSound ws db row spot spot memory pre post h e refl
                  (live-IsAt ws store_id key memory live named)
                  (live-IsAt ws store_id key row live refl)
                  (λ _. (
                    key,
                    refl,
                    ap (λ v. is_text v key)
                          (get-put "path_key" "memory_version_id" (str version.id) payload)
                        ∙ keyed,
                  ))
                  (λ s k t p. let q : true ≡ false = sym t ∙ p in absurd cc) in
              let stored = record db { resources = write_row row db.resources } in
              let q : ok (row, stored) ≡ ok (memory', db') = sym (rw t refl) ∙ done in
              subst
                (λ (x : Resource × Db).
                  (x.0.id ≡ memory.id)
                  × IsSound ws x.1
                  × (view ws x.1 ≡ after was spot (memory.id, get "content" payload) f))
                (ok_injective q)
                (
                  refl,
                  sound,
                  seen'
                      ∙ ap (λ v. after spot spot (memory.id, v) (view ws db))
                          (get-put "content" "memory_version_id" (str version.id) payload)
                      ∙ ap (after spot spot (memory.id, get "content" payload)) seen
                      ∙ after_again was spot (memory.id, get "content" payload) f,
                )
          | inr p ↦
              let q : ok (record memory { payload = noted }, db) ≡ ok (memory', db') =
                sym (rw p refl) ∙ done in
              subst
                (λ (x : Resource × Db).
                  (x.0.id ≡ memory.id)
                  × IsSound ws x.1
                  × (view ws x.1 ≡ after was spot (memory.id, get "content" payload) f))
                (ok_injective q) (refl, h, seen)
        ]

    -- The version of a memory that has just been written.
    pub add_version_effect :
        (operation : String) (version : ℤ) (payload : Dict) (store_id key : String)
        (memory : Resource) (c : Context) (db : Db) (memory' : Resource) (db' : Db)
        (pre post : List Resource) (was : Spot) (f : View)
        → IsSound (workspace_id_or_default c none) db
        → db.resources ≡ pre ++ memory ∷ post
        → IsLive (workspace_id_or_default c none) store_id memory
        → memory.name ≡ some key
        → is_text (get "path_key" payload) key ≡ true
        → view (workspace_id_or_default c none) db
          ≡ after was (some (store_id, key)) (memory.id, get "content" payload) f
        → add_memory_version operation version payload key memory c db ≡ ok (memory', db')
        → (memory'.id ≡ memory.id)
          × IsSound (workspace_id_or_default c none) db'
          × (view (workspace_id_or_default c none) db'
              ≡ after was (some (store_id, key)) (memory.id, get "content" payload) f)
    unfolding add_memory_version create_memory_version created is_named after
    add_version_effect operation version payload store_id key memory c db memory' db' pre post was f
          h e live named keyed seen done =
        let ws = workspace_id_or_default c none in
        let (row, db1, made, noted) =
          bind-eq-ok
            (create_memory_version memory version (to_str (get "updated_by" payload)) operation
              payload)
            (note_version memory payload key) c db done in
        let (_, e1, sound, seen1) =
          create_effect ws _ c db row db1 none h made (λ s k. refl) (λ t. absurd cc)
            (λ s k t _. absurd cc) in
        note_version_effect payload store_id key memory row c db1 memory' db' ws pre
          (post ++ row ∷ []) was f sound
          (e1 ∙ ap (λ rows. rows ++ row ∷ []) e ∙ append_assoc pre (memory ∷ post) (row ∷ [])) live
          named keyed (seen1 ∙ seen) noted
