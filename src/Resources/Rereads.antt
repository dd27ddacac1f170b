-- ===== src/Resources/Rereads.antt =====
-- A row that was read and written is read again.
use mathlib.Core.Path.{subst}
use open_managed_agents.Exec.{check, check_keeps}
use open_managed_agents.Resources.Writes.{write_row}
use open_managed_agents.Result.{ok}
use open_managed_agents.Prelude.{
  refl, arith, ◌≤◌, length, ap, sym, ◌∙◌, keep-append, ◌++◌, some, [], ◌∷◌, none, ◌≡◌, keep, List,
  Option, Bool, String,
}
use open_managed_agents.Resources.Queries.{one_or_none, is_wanted, get_resource}
use open_managed_agents.Db.{workspace_id_or_default, Db, Context, Resource}
use open_managed_agents.Memories.View.Rows.{alone_among}
use open_managed_agents.Memories.View.Finding.{one_alone}
use open_managed_agents.Memories.View.Writes.{split_one, write_row-split, Distinct, ids}

-- What a search found is found again after a write to it that the search does not mind.
keep-write_row :
    (test : Resource → Bool) (rows : List Resource) (x y : Resource)
    → keep test rows ≡ x ∷ []
    → Distinct (ids rows)
    → y.id ≡ x.id
    → test y ≡ test x
    → keep test (write_row y rows) ≡ y ∷ []
keep-write_row test rows x y alone distinct same alike =
    let (pre, post, e, t) = split_one test rows x alone in
    let parts : keep test (pre ++ x ∷ post) ≡ keep test pre ++ x ∷ keep test post =
      keep-append test pre (x ∷ post) ∙ rw t refl in
    let one : keep test pre ++ x ∷ keep test post ≡ x ∷ [] =
      sym parts ∙ ap (keep test) (sym e) ∙ alone in
    let (none_before, none_behind) =
      alone_among (keep test pre) (keep test post) x
        (subst (λ found. length found ≤ 1) (sym one) (omega arith)) in
    ap (λ found. keep test (write_row y found)) e
    ∙ ap (keep test)
        (write_row-split y x pre post (subst (λ found. Distinct (ids found)) e distinct) same)
    ∙ keep-append test pre (y ∷ post)
    ∙ rw (alike ∙ t) (rw (none_before, none_behind) refl)

pub get_resource-write_row :
    (id : String) (type parent : Option String) (include_deleted : Bool) (c : Context) (db : Db)
    (x y : Resource)
    → get_resource id type parent include_deleted none c db ≡ ok (some x, db)
    → Distinct (ids db.resources)
    → y.id ≡ x.id
    → is_wanted id type parent include_deleted (workspace_id_or_default c none) y
      ≡ is_wanted id type parent include_deleted (workspace_id_or_default c none) x
    → get_resource id type parent include_deleted none c
        (record db { resources = write_row y db.resources })
      ≡ ok (some y, record db { resources = write_row y db.resources })
unfolding get_resource
get_resource-write_row id type parent include_deleted c db x y found distinct same alike =
    let test = is_wanted id type parent include_deleted (workspace_id_or_default c none) in
    let alone =
      one_alone (keep test db.resources) x
        (check_keeps (one_or_none (keep test db.resources)) c db db found).0 in
    let after : Db = record db { resources = write_row y db.resources } in
    ap (λ rows. check (one_or_none rows) c after)
      (keep-write_row test db.resources x y alone distinct same alike)
