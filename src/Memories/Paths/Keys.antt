-- ===== src/Memories/Paths/Keys.antt =====
-- A path and its key (`_path_key`), and paths that are normalised again.
use Prim.Native.String.append
use text.Mathlib.TextEquality.{Char-path}
use Prim.Native.Char.{Char, code}
use open_managed_agents.Memories.Paths.Slashes.{
  slash_code, trim_slashes-id, join-split_slashes, not_blank, split_no_slash, any-later,
  drop_slashes-id, split_cons,
}
use mathlib.Core.Path.{subst}
use open_managed_agents.Memories.Paths.{
  ℕ, eqb, to_str, has_prefix, not, without_slash, array_parts, map_ok, path_key, Error,
  normalize_memory_path, raise_first, joined_path, validate_memory_path_text, Unicode, ◌∷◌, Bool,
  trim_slashes, split_slashes, join_slashes,
}
use open_managed_agents.Prelude.{
  arith, ◌&&◌, inr, inl, Bool-cases, if◌then◌else◌, All, ap, ◌∙◌, sym, [], refl, ◌≡◌, ◌==◌, List,
  String, true, false, any, has_part,
}
use open_managed_agents.Result.{◌>>◌, map_ok-eq-ok, Result, err, ok, next-eq-ok}
use open_managed_agents.Json.{Value, null, str, arr, bool, int, obj, items}
use open_managed_agents.Runtime.{Runtime}

raise_first-eq-ok :
    (checks : List (Bool × String))
    → raise_first checks ≡ ok tt
    → All (λ (x : Bool × String). x.0 ≡ false) checks
unfolding raise_first
raise_first-eq-ok [] h = tt
raise_first-eq-ok ((true, detail) ∷ checks) h = absurd cc
raise_first-eq-ok ((false, detail) ∷ checks) h = (refl, raise_first-eq-ok checks h)

slash_told : (n : ℕ) (b : Bool) → not (eqb b'/' n && b) ≡ false → eqb n b'/' ≡ true
slash_told n b h = ground arith

slash_first : (s : String) → not (has_prefix "/" s) ≡ false → s ≡ String.◌∷◌ "/" (without_slash s)
slash_first String.[] h = absurd cc
slash_first (String.◌∷◌ c s) h =
    let e = slash_told (code c) (has_prefix "" s) h in
    rw e (ap (λ (d : Char). String.◌∷◌ d s) (Char-path c "/" (slash_code (code c) e)))

module _ ⦃u : Unicode⦄ where
  no_blank_parts :
      (rest : String)
      → validate_memory_path_text (String.◌∷◌ "/" rest) ≡ ok tt
      → any (λ part. part == "") (split_slashes rest) ≡ false
  unfolding validate_memory_path_text split_slashes
  no_blank_parts rest h = (raise_first-eq-ok _ h).1.1.1.1.0

  raised_for_slash :
      (bad : Bool) (refusal : Error) (checked : Result String) (p : String)
      → (if bad then err refusal else checked) ≡ ok p
      → (bad ≡ false) × (checked ≡ ok p)
  raised_for_slash true refusal checked p h = cc
  raised_for_slash false refusal checked p h = (refl, h)

  -- A path that `joined_path` gives.
  abbrev IsJoined : String → Type 0
  IsJoined p = (rest : String) × (p ≡ String.◌∷◌ "/" rest) × (validate_memory_path_text p ≡ ok tt)

  joined_path-eq-ok :
      (parts : List String) (p : String)
      → joined_path parts ≡ ok p
      → (p ≡ String.◌∷◌ "/" (join_slashes parts)) × (validate_memory_path_text p ≡ ok tt)
  unfolding joined_path
  joined_path-eq-ok [] p h = absurd cc
  joined_path-eq-ok (part ∷ parts) p h =
      let path = String.◌∷◌ "/" (join_slashes (part ∷ parts)) in
      let (_, h1) =
        raised_for_slash (any (has_part "/") (part ∷ parts)) _
          (map_ok (λ _. path) (validate_memory_path_text path)) p h in
      let (_, valid, e) = map_ok-eq-ok (λ _. path) (validate_memory_path_text path) h1 in
      (sym e, subst (λ t. validate_memory_path_text t ≡ ok tt) e valid)

  joined_path-IsJoined : (parts : List String) (p : String) → joined_path parts ≡ ok p → IsJoined p
  joined_path-IsJoined parts p h =
      let (e, valid) = joined_path-eq-ok parts p h in (join_slashes parts, e, valid)

  starts : (s : String) → validate_memory_path_text s ≡ ok tt → s ≡ String.◌∷◌ "/" (without_slash s)
  unfolding validate_memory_path_text
  starts s h = slash_first s (raise_first-eq-ok _ h).0

  joined_again :
      (parts : List String) (part : String) (others : List String) (rest : String)
      → parts ≡ part ∷ others
      → any (has_part "/") parts ≡ false
      → join_slashes parts ≡ rest
      → validate_memory_path_text (String.◌∷◌ "/" rest) ≡ ok tt
      → joined_path parts ≡ ok (String.◌∷◌ "/" rest)
  unfolding joined_path
  joined_again [] part others rest e clean h valid = absurd cc
  joined_again (q ∷ qs) part others rest e clean h valid = rw clean (rw h (rw valid refl))

  -- The parts of a valid path give the path back.
  join-parts :
      (rest : String)
      → validate_memory_path_text (String.◌∷◌ "/" rest) ≡ ok tt
      → joined_path (split_slashes rest) ≡ ok (String.◌∷◌ "/" rest)
  join-parts rest valid =
      let (part, others, e) = split_cons rest in
      joined_again (split_slashes rest) part others rest e (split_no_slash rest)
        (join-split_slashes rest) valid

  key_of_valid :
      (rest : String)
      → validate_memory_path_text (String.◌∷◌ "/" rest) ≡ ok tt
      → path_key (String.◌∷◌ "/" rest) ≡ rest
  unfolding path_key trim_slashes
  key_of_valid rest valid =
      let parts = no_blank_parts rest valid in
      rw (drop_slashes-id rest (any-later _ (split_slashes rest) parts))
        (rw (not_blank rest parts) (trim_slashes-id rest parts))

  again :
      (s p rest : String)
      → s ≡ p
      → p ≡ String.◌∷◌ "/" rest
      → validate_memory_path_text (String.◌∷◌ "/" rest) ≡ ok tt
      → (validate_memory_path_text s >> joined_path (split_slashes (without_slash s))) ≡ ok p
  again s p rest e q valid = rw e (rw q (rw valid (join-parts rest valid)))

  module _ ⦃r : Runtime⦄ where
    normalized-IsJoined : (v : Value) (p : String) → normalize_memory_path v ≡ ok p → IsJoined p
    unfolding normalize_memory_path
    normalized-IsJoined null p h = absurd cc
    normalized-IsJoined (bool b) p h = absurd cc
    normalized-IsJoined (int z) p h = absurd cc
    normalized-IsJoined (obj d) p h = absurd cc
    normalized-IsJoined (arr vs) p h = joined_path-IsJoined (array_parts (items vs)) p h
    normalized-IsJoined (str s) p h =
        let (_, _, h1) =
          next-eq-ok (validate_memory_path_text (r.strip s))
            (λ _. joined_path (split_slashes (without_slash (r.strip s)))) h in
        joined_path-IsJoined (split_slashes (without_slash (r.strip s))) p h1

    -- A path that passes is a slash and its key.
    pub path_key-normalize_memory_path :
        (v : Value) (p : String) → normalize_memory_path v ≡ ok p → p ≡ String.◌∷◌ "/" (path_key p)
    path_key-normalize_memory_path v p h =
        let (rest, e, valid) = normalized-IsJoined v p h in
        let k = key_of_valid rest (subst (λ t. validate_memory_path_text t ≡ ok tt) e valid) in
        e ∙ ap (λ t. String.◌∷◌ "/" t) (sym (ap path_key e ∙ k))

    stripped_join :
        (parts : List String)
        → All (λ part. r.strip part ≡ part) parts
        → r.strip (join_slashes parts) ≡ join_slashes parts
    unfolding join_slashes
    stripped_join [] h = r.strip_blank
    stripped_join (part ∷ []) h = h.0
    stripped_join (part ∷ other ∷ parts) h =
        r.strip_slash part (join_slashes (other ∷ parts)) h.0 (stripped_join (other ∷ parts) h.1)

    stripped_parts : (vs : List Value) → All (λ part. r.strip part ≡ part) (array_parts vs)
    unfolding array_parts
    stripped_parts [] = tt
    stripped_parts (v ∷ vs) = elim (Bool-cases (r.strip (to_str v) == "")) [
      | inl t ↦ rw t (stripped_parts vs)
      | inr p ↦ rw p (r.strip_again (to_str v), stripped_parts vs)
    ]

    stripped_path :
        (rest : String) → r.strip rest ≡ rest → r.strip (String.◌∷◌ "/" rest) ≡ String.◌∷◌ "/" rest
    stripped_path rest h =
        subst (λ t. r.strip t ≡ t) (append.nil (String.◌∷◌ "/" rest))
          (r.strip_slash "" rest r.strip_blank h)

    -- No whitespace is left around a path that passes.
    normalized-stripped : (v : Value) (p : String) → normalize_memory_path v ≡ ok p → r.strip p ≡ p
    unfolding normalize_memory_path
    normalized-stripped null p h = absurd cc
    normalized-stripped (bool b) p h = absurd cc
    normalized-stripped (int z) p h = absurd cc
    normalized-stripped (obj d) p h = absurd cc
    normalized-stripped (arr vs) p h =
        let parts = array_parts (items vs) in
        subst (λ t. r.strip t ≡ t) (sym (joined_path-eq-ok parts p h).0)
          (stripped_path (join_slashes parts) (stripped_join parts (stripped_parts (items vs))))
    normalized-stripped (str s) p h =
        let text = r.strip s in
        let (_, valid, h1) =
          next-eq-ok (validate_memory_path_text text)
            (λ _. joined_path (split_slashes (without_slash text))) h in
        let e : p ≡ text =
          (joined_path-eq-ok (split_slashes (without_slash text)) p h1).0
          ∙ ap (λ t. String.◌∷◌ "/" t) (join-split_slashes (without_slash text))
          ∙ sym (starts text valid) in
        subst (λ t. r.strip t ≡ t) (sym e) (r.strip_again s)

    -- A path that passes, given as a text or as an array, is read back from a slash and its key, and
    -- is not changed by passing again.
    pub normalize_memory_path_round :
        (v : Value) (p : String)
        → normalize_memory_path v ≡ ok p
        → normalize_memory_path (str (String.◌∷◌ "/" (path_key p))) ≡ ok p
    unfolding normalize_memory_path
    normalize_memory_path_round v p h =
        let e = normalized-stripped v p h in
        let (rest, q, valid) = normalized-IsJoined v p h in
        let k = path_key-normalize_memory_path v p h in
        again _ p rest (ap r.strip (sym k) ∙ e) q
          (subst (λ t. validate_memory_path_text t ≡ ok tt) q valid)
