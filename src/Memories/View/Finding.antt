-- ===== src/Memories/View/Finding.antt =====
-- What the searches for a memory find.
use mathlib.Core.Path.{subst}
use open_managed_agents.Memories.View.Effects.{IsLive, live-IsAt}
use open_managed_agents.Memories.View.Sound.{IsKeyed, IsSound}
use open_managed_agents.Db.{Db, workspace_id_or_default, Context}
use open_managed_agents.Memories.View.Writes.{matching-split, split_one, IsFree}
use open_managed_agents.Resources.Queries.{
  column_is, is_wanted, one_or_none, get_resource_by_name, get_resource,
}
use open_managed_agents.Memories.View.{
  entry_of, pick, at_spot, Bool, ◌∷◌, keep, content_in, matching, view, View, Resource, Spot,
}
use open_managed_agents.Runtime.{Runtime}
use open_managed_agents.Memories.Calls.{
  refuse_archived, find_memory_by_path, must_exist, path_key_of, must_write_memory_store,
}
use open_managed_agents.Memories.View.Rows.{alone_among}
use open_managed_agents.Prelude.{
  ◌&&◌, ◌≤◌, is_none, ◌++◌, All, length, eq_iff, arith, joined, refl, eq_self, ◌∙◌, [], ◌==◌, ap,
  ◌≡◌, List, none, some, true, false, ℕ, String, Option,
}
use open_managed_agents.Result.{Error, http, crash, ok, ok_injective, or_raise}
use open_managed_agents.Json.{is_text, as_str, str, get, Value, Dict, null, bool, int, arr, obj}
use open_managed_agents.Exec.{check_keeps, bind-eq-ok, check}
use open_managed_agents.Reads.{IsRead, check-IsRead, bind-IsRead}

pub must_exist-IsRead :
    (id type : String) (parent : Option String) → IsRead (must_exist id type parent)
unfolding must_exist get_resource
must_exist-IsRead id type parent =
    bind-IsRead (get_resource id (some type) parent false none) _
      (λ c db.
        check-IsRead
          (one_or_none (
            keep (is_wanted id (some type) parent false (workspace_id_or_default c none))
              db.resources))
          c db)
      (λ found. check-IsRead (or_raise found (http 404 (joined type " not found"))))

pub must_write_memory_store-IsRead : (store_id : String) → IsRead (must_write_memory_store store_id)
unfolding must_write_memory_store
must_write_memory_store-IsRead store_id =
    bind-IsRead (must_exist store_id "memory_store" none) refuse_archived
      (must_exist-IsRead store_id "memory_store" none) (λ store. check-IsRead _)

pub find-IsRead : (store_id key : String) → IsRead (find_memory_by_path store_id key)
unfolding find_memory_by_path get_resource_by_name
find-IsRead store_id key c db =
    check-IsRead (one_or_none (matching (workspace_id_or_default c none) store_id key db.resources))
      c db

nothing_found : (rows : List Resource) → one_or_none rows ≡ ok none → content_in rows ≡ none
nothing_found [] h = refl
nothing_found (x ∷ []) h = absurd cc
nothing_found (x ∷ y ∷ rows) h = absurd cc

-- Nothing is found under a key that is free.
pub find_free :
    (store_id key : String) (c : Context) (db : Db)
    → find_memory_by_path store_id key c db ≡ ok (none, db)
    → view (workspace_id_or_default c none) db store_id key ≡ none
unfolding find_memory_by_path get_resource_by_name view
find_free store_id key c db h =
    let rows = matching (workspace_id_or_default c none) store_id key db.resources in
    nothing_found rows (check_keeps (one_or_none rows) c db db h).0

pub spot-IsFree :
    (was : Spot) (f : View) (store_id key : String)
    → f store_id key ≡ none
    → IsFree was (some (store_id, key)) f
spot-IsFree was f store_id key h s k t p = ground (arith, eq_iff store_id s, eq_iff key k)

key_told :
    (v : Value) (key : String)
    → or_raise (as_str v) (crash "KeyError") ≡ ok key
    → is_text v key ≡ true
key_told null key h = absurd cc
key_told (bool b) key h = absurd cc
key_told (int z) key h = absurd cc
key_told (arr vs) key h = absurd cc
key_told (obj d) key h = absurd cc
key_told (str s) key h = let e : s ≡ key = ok_injective h in ap (λ t. t == key) e ∙ eq_self key

pub same_text : (key s : String) → (s == key) ≡ true → s ≡ key
same_text key s h = ground (arith, eq_iff s key)

pub path_key_of-told :
    (payload : Dict) (key : String)
    → path_key_of payload ≡ ok key
    → is_text (get "path_key" payload) key ≡ true
unfolding path_key_of
path_key_of-told payload key h = key_told (get "path_key" payload) key h

pub and_true : (a b : Bool) → (a && b) ≡ true → (a ≡ true) × (b ≡ true)
and_true true b h = (refl, h)
and_true false b h = absurd cc

pub column_told : (o : Option String) (s : String) → column_is o s ≡ true → o ≡ some s
column_told none s h = absurd cc
column_told (some t) s h = ap some (same_text s t h)

none_told : (o : Option ℕ) → is_none o ≡ true → o ≡ none
none_told none h = refl
none_told (some n) h = absurd cc

wanted-IsLive :
    (id ws store_id : String) (x : Resource)
    → is_wanted id (some "memory") (some store_id) false ws x ≡ true
    → IsLive ws store_id x
unfolding is_wanted
wanted-IsLive id ws store_id x h =
    let (h0, live) = and_true _ (is_none x.deleted_at) h in
    let (h1, parent) = and_true _ (column_is x.parent_id store_id) h0 in
    let (h2, type) = and_true _ (x.resource_type == "memory") h1 in
    let (_, work) = and_true (x.id == id) (x.workspace_id == ws) h2 in
    (
      same_text "memory" x.resource_type type,
      same_text ws x.workspace_id work,
      column_told x.parent_id store_id parent,
      none_told x.deleted_at live,
    )

wanted_id :
    (id ws store_id : String) (x : Resource)
    → is_wanted id (some "memory") (some store_id) false ws x ≡ true
    → x.id ≡ id
unfolding is_wanted
wanted_id id ws store_id x h =
    let (h0, _) = and_true _ (is_none x.deleted_at) h in
    let (h1, _) = and_true _ (column_is x.parent_id store_id) h0 in
    let (h2, _) = and_true _ (x.resource_type == "memory") h1 in
    same_text id x.id (and_true (x.id == id) (x.workspace_id == ws) h2).0

inside :
    (P : Resource → Type 0) (x : Resource) (pre post : List Resource)
    → All P (pre ++ x ∷ post)
    → P x
inside P x [] post h = h.0
inside P x (p ∷ pre) post h = inside P x pre post h.1

pub row_at :
    (P : Resource → Type 0) (x : Resource) (pre post rows : List Resource)
    → rows ≡ pre ++ x ∷ post
    → All P rows
    → P x
row_at P x pre post rows e h = inside P x pre post (subst (All P) e h)

pub one_alone :
    (rows : List Resource) (x : Resource) → one_or_none rows ≡ ok (some x) → rows ≡ x ∷ []
one_alone [] x h = absurd cc
one_alone (y ∷ []) x h = let e : some y ≡ some x = ok_injective h in cc
one_alone (y ∷ z ∷ rows) x h = absurd cc

present_told :
    (found : Option Resource) (e : Error) (x : Resource) → or_raise found e ≡ ok x → found ≡ some x
present_told none e x h = absurd cc
present_told (some y) e x h = ap some (ok_injective h)

-- Where a memory that was found stands.
pub record IsFound (ws store_id : String) (x : Resource) (db : Db) : Type 0 where
  pub key : String
  pub pre : List Resource
  pub post : List Resource
  pub rows : db.resources ≡ pre ++ x ∷ post
  pub live : IsLive ws store_id x
  pub named : x.name ≡ some key
  pub dict_key : is_text (get "path_key" x.payload) key ≡ true
  pub seen : view ws db store_id key ≡ some (entry_of x)

content_alone :
    (xs ys : List Resource) (x : Resource)
    → length (xs ++ x ∷ ys) ≤ 1
    → content_in (xs ++ x ∷ ys) ≡ some (entry_of x)
content_alone xs ys x h = let (e, e') = alone_among xs ys x h in rw e refl

-- What exists under an id has the id.
pub must_exist-id :
    (memory_id store_id : String) (c : Context) (db : Db) (x : Resource)
    → must_exist memory_id "memory" (some store_id) c db ≡ ok (x, db)
    → x.id ≡ memory_id
unfolding must_exist get_resource
must_exist-id memory_id store_id c db x done =
    let test =
      is_wanted memory_id (some "memory") (some store_id) false (workspace_id_or_default c none) in
    let (found, db1, read, present) =
      bind-eq-ok (get_resource memory_id (some "memory") (some store_id) false none)
        (λ found. check (or_raise found (http 404 (joined "memory" " not found")))) c db done in
    let (alone, _) = check_keeps (one_or_none (keep test db.resources)) c db db1 read in
    let there = present_told found _ x (check_keeps _ c db1 db present).0 in
    let (_, _, _, wanted) = split_one test db.resources x (one_alone _ x (alone ∙ ap ok there)) in
    wanted_id memory_id (workspace_id_or_default c none) store_id x wanted

module _ ⦃r : Runtime⦄ where
  pub must_exist-IsFound :
      (memory_id store_id : String) (c : Context) (db : Db) (x : Resource)
      → IsSound (workspace_id_or_default c none) db
      → must_exist memory_id "memory" (some store_id) c db ≡ ok (x, db)
      → IsFound (workspace_id_or_default c none) store_id x db
  unfolding must_exist get_resource view
  must_exist-IsFound memory_id store_id c db x h done =
      let ws = workspace_id_or_default c none in
      let test = is_wanted memory_id (some "memory") (some store_id) false ws in
      let (found, db1, read, present) =
        bind-eq-ok (get_resource memory_id (some "memory") (some store_id) false none)
          (λ found. check (or_raise found (http 404 (joined "memory" " not found")))) c db done in
      let (alone, _) = check_keeps (one_or_none (keep test db.resources)) c db db1 read in
      let there = present_told found _ x (check_keeps _ c db1 db present).0 in
      let (pre, post, e, wanted) =
        split_one test db.resources x (one_alone _ x (alone ∙ ap ok there)) in
      let live = wanted-IsLive memory_id ws store_id x wanted in
      let (key, named, told) =
        row_at IsKeyed x pre post db.resources e h.keyed (ap (λ s. s == "memory") live.0) in
      let em =
        ap (matching ws store_id key) e
        ∙ matching-split ws store_id key x (some (store_id, key)) pre post
            (live-IsAt ws store_id key x live named) in
      let self : at_spot (some (store_id, key)) store_id key ≡ true =
        rw (eq_self store_id) (eq_self key) in
      let there_alone =
        em
        ∙ ap (λ b. matching ws store_id key pre ++ (pick b x ++ matching ws store_id key post))
            self in
      record {
        key = key;
        pre = pre;
        post = post;
        rows = e;
        live = live;
        named = named;
        dict_key = told;
        seen =
            ap content_in there_alone
            ∙ content_alone _ _ x
                (subst (λ rows. length rows ≤ 1) there_alone (h.single store_id key));
      }
