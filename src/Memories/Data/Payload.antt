-- ===== src/Memories/Data/Payload.antt =====
-- What the dict of a created memory tells.
use open_managed_agents.Memories.Data.{
  put_content_metadata, to_str, put_content, enforce_memory_content_limit, put_path, content_text,
  path_key, normalize_memory_path, payload_at, stamped, memory_payload, put_default,
}
use open_managed_agents.Memories.Paths.{Unicode}
use open_managed_agents.Runtime.{Runtime}
use mathlib.Core.Path.{ap, sym}
use open_managed_agents.Prelude.{◌∙◌, ◌==◌, eq_iff, arith, ◌≡◌, false, ℕ, String}
use open_managed_agents.Json.{or_value, str, get, Value, Dict}
use open_managed_agents.Result.{ok, next-eq-ok, map_ok-eq-ok}
use open_managed_agents.Json.Fields.{get-put, get-remove_other}

pub get-put_default :
    (j k : String) (v : Value) (d : Dict) → (k == j) ≡ false → get j (put_default k v d) ≡ get j d
unfolding get
get-put_default j k v d h = ground (arith, get-put j k v d, eq_iff k j)

module _ ⦃r : Runtime⦄ ⦃u : Unicode⦄ where
  stamped_keeps :
      (now : ℕ) (actor : String) (d : Dict)
      → (get "path_key" (stamped now actor d) ≡ get "path_key" d)
        × (get "content" (stamped now actor d) ≡ get "content" d)
  unfolding stamped
  stamped_keeps now actor d = (
    simp (get-put, get-put_default, get-remove_other),
    simp (get-put, get-put_default, get-remove_other),
  )

  pub content_under :
      (path : String) (body : Dict) → get "content" (put_path path body) ≡ get "content" body
  content_under path body = simp get-put

  put_content_keeps :
      (path : String) (body : Dict) (content : String)
      → (get "path_key" (put_content content (put_path path body)) ≡ str (path_key path))
        × (get "content" (put_content content (put_path path body)) ≡ str content)
  unfolding put_content_metadata
  put_content_keeps path body content = (simp get-put, simp get-put)

  -- A creation's dict has the key of the normalised path, and the content as a text.
  pub memory_payload_lem :
      (now : ℕ) (body payload : Dict)
      → memory_payload now body ≡ ok payload
      → (path : String) × (normalize_memory_path (get "path" body) ≡ ok path)
        × (get "path_key" payload ≡ str (path_key path))
        × (get "content" payload ≡ str (content_text (get "content" body)))
  unfolding memory_payload payload_at
  memory_payload_lem now body payload h =
      let (path, normal, h1) =
        next-eq-ok (normalize_memory_path (get "path" body)) (payload_at now body) h in
      let memory = put_path path body in
      let content = content_text (get "content" memory) in
      let (_, _, e) = map_ok-eq-ok _ (enforce_memory_content_limit content) h1 in
      let actor =
        to_str (or_value (or_value (get "actor" body) (get "updated_by" body)) (str "api")) in
      let (key_kept, content_kept) = stamped_keeps now actor (put_content content memory) in
      let (key_put, content_put) = put_content_keeps path body content in
      (
        path,
        normal,
        ap (get "path_key") (sym e) ∙ key_kept ∙ key_put,
        ap (get "content") (sym e)
            ∙ content_kept
            ∙ content_put
            ∙ ap (λ v. str (content_text v)) (content_under path body),
      )
