-- ===== src/Memories/View/Keys.antt =====
-- When a memory's new key is free.
use open_managed_agents.Memories.View.Sound.{IsSound}
use open_managed_agents.Memories.View.Finding.{
  column_told, row_at, one_alone, and_true, find_free, IsFound, spot-IsFree,
}
use open_managed_agents.Memories.Changes.{is_other}
use open_managed_agents.Memories.View.Writes.{split_one, id_at, ids, IsFree, Distinct}
use open_managed_agents.Resources.Queries.{
  column_is, if_given, one_or_none, is_named, get_resource_by_name,
}
use open_managed_agents.Db.{workspace_id_or_default, Db, Context, Resource}
use open_managed_agents.Memories.Calls.{find_memory_by_path}
use open_managed_agents.Runtime.{Runtime}
use open_managed_agents.Memories.View.{is_named, matching, view, List, View}
use mathlib.Core.Path.{subst, sym, ap}
use open_managed_agents.Prelude.{
  is_none, ◌||◌, ◌==◌, ◌≢◌, not, refl, ◌∙◌, [], All, ◌∷◌, ◌++◌, eq_iff, ◌⊎◌, arith, ◌≡◌, none, some,
  true, false, inl, inr, String, Option, Bool,
}
use open_managed_agents.Result.{ok}
use open_managed_agents.Json.{is_text, str, Value, null, bool, int, arr, obj}
use open_managed_agents.Exec.{check_keeps}

pub same_keys :
    (v : Value) (key key' : String) → is_text v key ≡ true → is_text v key' ≡ true → key ≡ key'
same_keys null key key' h k = absurd cc
same_keys (bool b) key key' h k = absurd cc
same_keys (int z) key key' h k = absurd cc
same_keys (arr vs) key key' h k = absurd cc
same_keys (obj d) key key' h k = absurd cc
same_keys (str s) key key' h k = ground (arith, eq_iff s key, eq_iff s key')

later_differ :
    (x : Resource) (rows : List Resource)
    → All (λ j. x.id ≢ j) (ids rows)
    → All (λ (z : Resource). z.id ≡ x.id → z ≡ x) rows
later_differ x [] h = tt
later_differ x (y ∷ ys) h = (λ e. absurd (h.0 (sym e)), later_differ x ys h.1)

same_row :
    (x : Resource) (pre post : List Resource)
    → Distinct (ids (pre ++ x ∷ post))
    → All (λ (z : Resource). z.id ≡ x.id → z ≡ x) (pre ++ x ∷ post)
same_row x [] post h = (λ _. refl, later_differ x post h.0)
same_row x (p ∷ pre) post h =
    (λ e. absurd (id_at (λ j. p.id ≢ j) x pre post h.0 e), same_row x pre post h.1)

named_key :
    (type key ws : String) (parent : Option String) (include_deleted : Bool) (x : Resource)
    → is_named type key parent include_deleted ws x ≡ true
    → x.name ≡ some key
unfolding is_named
named_key type key ws parent include_deleted x h =
    let (h0, _) = and_true _ (include_deleted || is_none x.deleted_at) h in
    let (h1, _) = and_true _ (if_given parent (λ p. column_is x.parent_id p)) h0 in
    let (h2, _) = and_true _ (x.workspace_id == ws) h1 in
    let (_, name) = and_true (x.resource_type == type) (column_is x.name key) h2 in
    column_told x.name key name

own_id : (i j : String) → not (i == j) ≡ false → i ≡ j
own_id i j h = ground (arith, eq_iff i j)

-- The row that was found under the new key, if any, is another one, unless the key is the old one.
pub key_free :
    ⦃r : Runtime⦄
    → (store_id key : String) (memory : Resource) (c : Context) (db : Db)
      (existing : Option Resource)
    → IsSound (workspace_id_or_default c none) db
    → (found : IsFound (workspace_id_or_default c none) store_id memory db)
    → find_memory_by_path store_id key c db ≡ ok (existing, db)
    → is_other memory.id existing ≡ false
    → (found.key ≡ key) ⊎ (view (workspace_id_or_default c none) db store_id key ≡ none)
unfolding find_memory_by_path get_resource_by_name
key_free store_id key memory c db none h found search own = inr (find_free store_id key c db search)
key_free store_id key memory c db (some y) h found search own =
    let ws = workspace_id_or_default c none in
    let rows = matching ws store_id key db.resources in
    let (pre, post, e, test) =
      split_one (is_named "memory" key (some store_id) false ws) db.resources y
        (one_alone rows y (check_keeps (one_or_none rows) c db db search).0) in
    let same =
      row_at (λ (z : Resource). z.id ≡ memory.id → z ≡ memory) y pre post db.resources e
        (subst (All (λ (z : Resource). z.id ≡ memory.id → z ≡ memory)) (sym found.rows) (
          same_row memory found.pre found.post
            (subst (λ x. Distinct (ids x)) found.rows h.distinct)))
        (own_id y.id memory.id own) in
    let q : some found.key ≡ some key =
      sym found.named
      ∙ ap (λ (z : Resource). z.name) (sym same)
      ∙ named_key "memory" key ws (some store_id) false y test in
    inl cc

pub unless-IsFree :
    (f : View) (store_id old key : String)
    → (old ≡ key) ⊎ (f store_id key ≡ none)
    → IsFree (some (store_id, old)) (some (store_id, key)) f
unless-IsFree f store_id old key (inl e) s k t p = ground (arith, eq_iff old key)
unless-IsFree f store_id old key (inr e) s k t p =
    spot-IsFree (some (store_id, old)) f store_id key e s k t p
