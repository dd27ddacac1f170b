-- ===== src/Resources/Queries.antt =====
-- The reads of app/db/queries/resources.py.
use open_managed_agents.Prelude.{
  ℕ, String, Bool, true, false, ◌&&◌, ◌||◌, Option, none, some, List, [], ◌∷◌, ◌==◌, eqb, ltb,
  is_none, keep, take, length, first,
}
use open_managed_agents.Prelude.Sort.{sort_by}
use open_managed_agents.Runtime.{Runtime}
use open_managed_agents.Result.{Result, ok, err, crash}
use open_managed_agents.Db.{Resource, workspace_id_or_default}
use open_managed_agents.Exec.{Action}

-- `column == value` in SQL, where a NULL column equals nothing.
abbrev pub column_is : Option String → String → Bool
column_is none v = false
column_is (some w) v = w == v

-- A filter that is put on only if the argument is given.
abbrev pub if_given {ℓ} : {A : Type ℓ} → Option A → (A → Bool) → Bool
if_given none p = true
if_given (some a) p = p a

-- `scalar_one_or_none`
abbrev pub one_or_none : List Resource → Result (Option Resource)
one_or_none [] = ok none
one_or_none (r ∷ []) = ok (some r)
one_or_none (r ∷ s ∷ rs) = err (crash "MultipleResultsFound")

-- The filter of `get_resource`.
unfoldable pub is_wanted : String → Option String → Option String → Bool → String → Resource → Bool
is_wanted id type parent include_deleted ws row =
    row.id == id
    && row.workspace_id == ws
    && if_given type (λ t. row.resource_type == t)
    && if_given parent (λ p. column_is row.parent_id p)
    && (include_deleted || is_none row.deleted_at)

unfoldable pub get_resource :
    String → Option String → Option String → Bool → Option String → Action (Option Resource)
unfolding is_wanted
get_resource id type parent include_deleted ws c db =
    elim (one_or_none (
      keep (is_wanted id type parent include_deleted (workspace_id_or_default c ws))
        db.resources)) [ ok found ↦ ok (found, db) | err e ↦ err e ]

unfoldable pub is_named : String → String → Option String → Bool → String → Resource → Bool
is_named type name parent include_deleted ws row =
    row.resource_type == type
    && column_is row.name name
    && row.workspace_id == ws
    && if_given parent (λ p. column_is row.parent_id p)
    && (include_deleted || is_none row.deleted_at)

unfoldable pub get_resource_by_name :
    String → String → Option String → Bool → Option String → Action (Option Resource)
unfolding is_named
get_resource_by_name type name parent include_deleted ws c db =
    elim (one_or_none (
      keep (is_named type name parent include_deleted (workspace_id_or_default c ws))
        db.resources)) [ ok found ↦ ok (found, db) | err e ↦ err e ]

unfoldable pub has_sha256 : String → String → Bool → String → Resource → Bool
has_sha256 type sha256 include_deleted ws row =
    row.resource_type == type
    && column_is row.sha256 sha256
    && row.workspace_id == ws
    && (include_deleted || is_none row.deleted_at)

-- `.order_by(created_at.asc())` and the first row.
unfoldable pub get_resource_by_sha256 :
    String → String → Bool → Option String → Action (Option Resource)
unfolding has_sha256 sort_by
get_resource_by_sha256 type sha256 include_deleted ws c db = ok (
  first (λ row. true)
      (sort_by (λ a b. ltb a.created_at b.created_at)
        (keep (has_sha256 type sha256 include_deleted (workspace_id_or_default c ws))
          db.resources)),
  db,
)

unfoldable pub is_stored_at : String → String → String → Bool → String → Resource → Bool
is_stored_at type backend key include_deleted ws row =
    row.resource_type == type
    && column_is row.storage_backend backend
    && column_is row.storage_key key
    && row.workspace_id == ws
    && (include_deleted || is_none row.deleted_at)

unfoldable pub count_resources_by_storage_key :
    String → String → String → Bool → Option String → Action ℕ
unfolding is_stored_at
count_resources_by_storage_key type backend key include_deleted ws c db = ok (
  length (
      keep (is_stored_at type backend key include_deleted (workspace_id_or_default c ws))
        db.resources),
  db,
)

unfoldable pub is_version : String → String → ℕ → Bool → String → Resource → Bool
is_version type parent version include_deleted ws row =
    row.resource_type == type
    && column_is row.parent_id parent
    && (elim row.version [ none ↦ false | some v ↦ eqb v version ])
    && row.workspace_id == ws
    && (include_deleted || is_none row.deleted_at)

unfoldable pub get_resource_version :
    String → String → ℕ → Bool → Option String → Action (Option Resource)
unfolding is_version
get_resource_version type parent version include_deleted ws c db =
    elim (one_or_none (
      keep (is_version type parent version include_deleted (workspace_id_or_default c ws))
        db.resources)) [ ok found ↦ ok (found, db) | err e ↦ err e ]

-- The filter of `list_resources`.
unfoldable pub is_listed : String → Option String → Bool → Bool → String → Resource → Bool
is_listed type parent include_archived include_deleted ws row =
    row.resource_type == type
    && row.workspace_id == ws
    && (include_deleted || is_none row.deleted_at)
    && if_given parent (λ p. column_is row.parent_id p)
    && (include_archived || is_none row.archived_at)

-- `.order_by(created_at.desc(), id.desc())`
unfoldable pub is_newer : ⦃r : Runtime⦄ → Resource → Resource → Bool
is_newer ⦃r⦄ a b =
    ltb b.created_at a.created_at || (eqb a.created_at b.created_at && r.id_before b.id a.id)

unfoldable pub list_resources :
    ⦃r : Runtime⦄
    → String
    → Option String
    → ℕ
    → Bool
    → Bool
    → Option String
    → Action (List Resource)
unfolding is_listed is_newer sort_by
list_resources type parent limit include_archived include_deleted ws c db = ok (
  take limit (
      sort_by is_newer (
        keep (is_listed type parent include_archived include_deleted (workspace_id_or_default c ws))
          db.resources)),
  db,
)
