-- ===== src/SessionResources/Release/Counts.antt =====
-- The rows under one key of the object storage, counted.
use open_managed_agents.SessionResources.Calls.{is_object_storage_backend}
use open_managed_agents.Runtime.{Runtime}
use mathlib.Core.Path.{subst}
use open_managed_agents.Resources.Queries.{column_is, is_wanted, is_stored_at}
use open_managed_agents.Prelude.{
  [], not, if◌then◌else◌, refl, eq_self, ◌∙◌, keep-append, ◌≤◌, ap, ◌∷◌, ◌==◌, ◌++◌, arith, or_else,
  ◌≡◌, keep, none, some, true, false, String, List, Bool, length, ℕ, Option,
}
use open_managed_agents.Db.{Resource}
use open_managed_agents.Memories.View.Rows.{alone_among}

-- No live file of the workspace has the key in the backend.
abbrev pub IsUnused : String → String → String → List Resource → Type 0
IsUnused backend key ws rows = length (keep (is_stored_at "file" backend key false ws) rows) ≡ 0

kept_cons :
    (b : Bool) (x : Resource) (rows : List Resource)
    → b ≡ true
    → (if b then x ∷ rows else rows) ≡ x ∷ rows
kept_cons b x rows h = rw h refl

left_out :
    (b : Bool) (x : Resource) (rows : List Resource)
    → b ≡ false
    → (if b then x ∷ rows else rows) ≡ rows
left_out b x rows h = rw h refl

module _ (test : Resource → Bool) where
  pub only_one :
      (pre post : List Resource) (x y : Resource)
      → test x ≡ true
      → test y ≡ false
      → length (keep test (pre ++ x ∷ post)) ≤ 1
      → length (keep test (pre ++ y ∷ post)) ≡ 0
  only_one pre post x y hx hy h =
      let e : keep test (pre ++ x ∷ post) ≡ keep test pre ++ x ∷ keep test post =
        keep-append test pre (x ∷ post)
        ∙ ap (λ (rows : List Resource). keep test pre ++ rows)
            (kept_cons (test x) x (keep test post) hx) in
      let (before, behind) =
        alone_among (keep test pre) (keep test post) x (subst (λ rows. length rows ≤ 1) e h) in
      let e' : keep test (pre ++ y ∷ post) ≡ keep test pre ++ keep test post =
        keep-append test pre (y ∷ post)
        ∙ ap (λ (rows : List Resource). keep test pre ++ rows)
            (left_out (test y) y (keep test post) hy) in
      let none_left : keep test pre ++ keep test post ≡ [] = rw before behind in
      ap (λ (rows : List Resource). length rows) (e' ∙ none_left)

-- A file under a wanted id, at its own backend and key.
pub file_stored :
    (id ws backend key : String) (file : Resource)
    → is_wanted id (some "file") none false ws file ≡ true
    → column_is file.storage_backend backend ≡ true
    → column_is file.storage_key key ≡ true
    → is_stored_at "file" backend key false ws file ≡ true
unfolding is_wanted is_stored_at
file_stored id ws backend key file h hb hk = ground arith

pub deleted_unstored :
    (ws backend key : String) (now : ℕ) (file : Resource)
    → file.deleted_at ≡ some now
    → is_stored_at "file" backend key false ws file ≡ false
unfolding is_stored_at
deleted_unstored ws backend key now file h = rw h (ground arith)

pub backend_known :
    ⦃r : Runtime⦄
    → (o : Option String) → is_object_storage_backend o ≡ true
    → column_is o (or_else o "") ≡ true
unfolding is_object_storage_backend
backend_known none h = absurd cc
backend_known (some b) h = eq_self b

pub key_known :
    (o : Option String) → not (or_else o "" == "") ≡ true → column_is o (or_else o "") ≡ true
key_known none h = absurd cc
key_known (some k) h = eq_self k

pub given_key :
    (b : Bool) (key' key : String)
    → (if b then some key' else none) ≡ some key
    → (b ≡ true) × (key' ≡ key)
given_key true key' key h = (refl, cc)
given_key false key' key h = absurd cc
