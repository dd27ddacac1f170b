-- ===== src/SessionResources/Release.antt =====
-- The object that a removal deletes is no live file's any more.
mod Counts
use open_managed_agents.SessionResources.Release.Counts.{
  deleted_unstored, only_one, key_known, backend_known, file_stored, IsUnused, given_key,
}
use open_managed_agents.Json.{get}
use open_managed_agents.Resources.Writes.{write_row, delete_resource}
use open_managed_agents.SessionResources.Handlers.{
  is_scoped_to, text_value, release_scoped, release_named, delete_session_resource_file,
  release_counted, Deleted, release_file,
}
use open_managed_agents.SessionResources.Calls.{has_type, is_object_storage_backend}
use open_managed_agents.Runtime.{Runtime}
use mathlib.Core.Path.{subst}
use open_managed_agents.Resources.Queries.{
  one_or_none, get_resource, count_resources_by_storage_key, column_is, is_wanted, is_stored_at,
}
use open_managed_agents.Prelude.{
  leb→le, leb, Bool-cases, ◌&&◌, [], not, if◌then◌else◌, refl, eq_self, ◌∙◌, keep-append, ◌≤◌, sym,
  ap, ◌∷◌, ◌==◌, ◌++◌, arith, or_else, ◌≡◌, keep, none, some, true, false, inl, inr, String, List,
  Bool, length, ℕ, Option,
}
use open_managed_agents.Result.{ok, ok_injective}
use open_managed_agents.Exec.{check_keeps, Action, pure, ◌>>=◌, when_true, when_false}
use open_managed_agents.Reads.{check-IsRead, read-bind-eq-ok}
use open_managed_agents.Db.{deleted, workspace_id_or_default, Resource, Context, Db}
use open_managed_agents.Memories.View.Writes.{split_one, Distinct, ids, write_row-split}
use open_managed_agents.Memories.View.Rows.{alone_among}
use open_managed_agents.Memories.View.Finding.{column_told, one_alone, and_true}

-- The key was a stored file's, and is no live file's of the workspace, in that file's backend, any
-- more.
pub record IsReleased (ws key : String) (db db' : Db) : Type 0 where
  pub file : Resource
  pub pre : List Resource
  pub post : List Resource
  pub rows : db.resources ≡ pre ++ file ∷ post
  pub backend : String
  pub in_backend : file.storage_backend ≡ some backend
  pub under_key : file.storage_key ≡ some key
  pub unused : IsUnused backend key ws db'.resources

module _ ⦃r : Runtime⦄ where
  release_file-IsReleased :
      (id raw key : String) (file : Resource) (pre post : List Resource) (c : Context) (db db' : Db)
      → Distinct (ids db.resources)
      → db.resources ≡ pre ++ file ∷ post
      → is_wanted id (some "file") none false (workspace_id_or_default c (some raw)) file ≡ true
      → release_file file raw c db ≡ ok (some key, db')
      → IsReleased (workspace_id_or_default c (some raw)) key db db'
  unfolding release_file count_resources_by_storage_key delete_resource
  release_file-IsReleased id raw key file pre post c db db' distinct e wanted done =
      let ws = workspace_id_or_default c (some raw) in
      let key' = or_else file.storage_key "" in
      let backend = or_else file.storage_backend "" in
      let gone = record file { deleted_at = some c.now; status = deleted; updated_at = c.now } in
      let search = count_resources_by_storage_key "file" backend key' false (some raw) in
      let plain : Action Deleted = delete_resource file >>= (λ _. pure none) in
      let test = is_stored_at "file" backend key' false ws in
      let b = is_object_storage_backend file.storage_backend && not (key' == "") in
      elim (Bool-cases b) [
        | inr p ↦
            let q =
              ok_injective
                (sym (when_false (search >>= release_counted file key') plain c db b p) ∙ done) in
            let absent : none ≡ some key = ap (λ (x : Deleted × Db). x.0) q in absurd cc
        | inl t ↦
            let (n, counted, rest) =
              read-bind-eq-ok search (release_counted file key') c db (λ c db. inl (_, refl))
                (sym (when_true (search >>= release_counted file key') plain c db b t) ∙ done) in
            let (few, same) =
              given_key (leb n 1) key' key (ap (λ (x : Deleted × Db). x.0) (ok_injective rest)) in
            let (hb, hk) =
              and_true (is_object_storage_backend file.storage_backend) (not (key' == "")) t in
            let stored =
              file_stored id ws backend key' file wanted (backend_known file.storage_backend hb)
                (key_known file.storage_key hk) in
            let count : length (keep test db.resources) ≡ n =
              ap (λ (x : ℕ × Db). x.0) (ok_injective counted) in
            let most : length (keep test (pre ++ file ∷ post)) ≤ 1 =
              subst (λ rows. length (keep test rows) ≤ 1) e
                (subst (λ (m : ℕ). m ≤ 1) (sym count) (leb→le n 1 few)) in
            let unused =
              only_one test pre post file gone stored
                (deleted_unstored ws backend key' c.now gone refl) most in
            let rows : write_row gone db.resources ≡ pre ++ gone ∷ post =
              ap (write_row gone) e
              ∙ write_row-split gone file pre post (subst (λ xs. Distinct (ids xs)) e distinct)
                  refl in
            let left : db'.resources ≡ write_row gone db.resources =
              ap (λ (x : Deleted × Db). x.1.resources) (sym (ok_injective rest)) in
            record {
              file = file;
              pre = pre;
              post = post;
              rows = e;
              backend = backend;
              in_backend =
                  column_told file.storage_backend backend (backend_known file.storage_backend hb);
              under_key =
                  column_told file.storage_key key' (key_known file.storage_key hk) ∙ ap some same;
              unused =
                  subst (λ k. IsUnused backend k ws db'.resources) same
                    (ap (λ xs. length (keep test xs)) (left ∙ rows) ∙ unused);
            }
      ]

  nothing_kept :
      (c : Context) (db db' : Db) (key : String)
      → pure {A = Deleted} none c db ≡ ok (some key, db')
      → ⊥
  nothing_kept c db db' key h =
      let absent : none ≡ some key = ap (λ (x : Deleted × Db). x.0) (ok_injective h) in cc

  release_scoped-IsReleased :
      (row : Resource) (id key : String) (found : Option Resource) (c : Context) (db db' : Db)
      → Distinct (ids db.resources)
      → get_resource id (some "file") none false (some row.workspace_id) c db ≡ ok (found, db)
      → release_scoped row found c db ≡ ok (some key, db')
      → IsReleased (workspace_id_or_default c (some row.workspace_id)) key db db'
  unfolding get_resource
  release_scoped-IsReleased row id key none c db db' distinct read done =
      absurd (nothing_kept c db db' key done)
  release_scoped-IsReleased row id key (some file) c db db' distinct read done =
      let test =
        is_wanted id (some "file") none false (workspace_id_or_default c (some row.workspace_id)) in
      let (pre, post, e, wanted) =
        split_one test db.resources file
          (one_alone _ file (check_keeps (one_or_none (keep test db.resources)) c db db read).0) in
      let release = release_file file row.workspace_id in
      let b = is_scoped_to row.parent_id (get "scope" file.payload) in
      elim (Bool-cases b) [
        | inl t ↦
            release_file-IsReleased id row.workspace_id key file pre post c db db' distinct e wanted
              (sym (when_true release (pure none) c db b t) ∙ done)
        | inr p ↦
            absurd
              (nothing_kept c db db' key (sym (when_false release (pure none) c db b p) ∙ done))
      ]

  release_named-IsReleased :
      (row : Resource) (named : Option String) (key : String) (c : Context) (db db' : Db)
      → Distinct (ids db.resources)
      → release_named row named c db ≡ ok (some key, db')
      → IsReleased (workspace_id_or_default c (some row.workspace_id)) key db db'
  unfolding get_resource
  release_named-IsReleased row none key c db db' distinct done =
      absurd (nothing_kept c db db' key done)
  release_named-IsReleased row (some id) key c db db' distinct done =
      let (found, read, rest) =
        read-bind-eq-ok (get_resource id (some "file") none false (some row.workspace_id))
          (release_scoped row) c db
          (λ c db.
            check-IsRead
              (one_or_none (
                keep
                  (is_wanted id (some "file") none false
                    (workspace_id_or_default c (some row.workspace_id)))
                  db.resources))
              c db)
          done in
      release_scoped-IsReleased row id key found c db db' distinct read rest

  -- Where the ids of the rows are distinct, an object is deleted from the storage with a session's
  -- file only if it was a stored file's, and no live file of the workspace has its key in that file's
  -- backend after the call.
  pub delete_session_resource_file-IsReleased :
      (row : Resource) (key : String) (c : Context) (db db' : Db)
      → Distinct (ids db.resources)
      → delete_session_resource_file row c db ≡ ok (some key, db')
      → IsReleased (workspace_id_or_default c (some row.workspace_id)) key db db'
  unfolding delete_session_resource_file
  delete_session_resource_file-IsReleased row key c db db' distinct done =
      let named = release_named row (text_value (get "file_id" row.payload)) in
      elim (Bool-cases (has_type "file" row)) [
        | inl t ↦
            release_named-IsReleased row (text_value (get "file_id" row.payload)) key c db db'
              distinct (sym (when_true named (pure none) c db _ t) ∙ done)
        | inr p ↦
            absurd (nothing_kept c db db' key (sym (when_false named (pure none) c db _ p) ∙ done))
      ]
