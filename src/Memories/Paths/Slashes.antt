-- ===== src/Memories/Paths/Slashes.antt =====
-- Texts split at the slashes, and trimmed of them.
use open_managed_agents.Memories.Paths.{
  ℕ, ◌∷◌, eqb, later, Bool, push_char, trim_slashes, split_slashes, join_slashes,
}
use Prim.Native.String.append
use text.Mathlib.TextLemmas.{cons-ne-nil}
use text.Mathlib.TextEquality.{Char-path}
use Prim.Native.Char.{Char, code}
use open_managed_agents.Prelude.{
  and_false, ne→not-eq, ap, ◌∙◌, sym, Bool-cases, arith, [], refl, ◌≡◌, ◌==◌, List, String, true,
  false, inl, inr, any, drop_slashes, has_part, ◌&&◌,
}

pub any-later :
    (test : String → Bool) (parts : List String)
    → any test parts ≡ false
    → any test (later parts) ≡ false
any-later test [] h = h
any-later test (part ∷ parts) h = ground arith

later-push_char : (c : Char) (parts : List String) → later (push_char c parts) ≡ later parts
later-push_char c [] = refl
later-push_char c (part ∷ parts) = refl

pub not_blank :
    (s : String) → any (λ part. part == "") (split_slashes s) ≡ false → (s == "") ≡ false
unfolding split_slashes
not_blank String.[] h = absurd cc
not_blank (String.◌∷◌ c s) h = ne→not-eq (String.◌∷◌ c s) "" (cons-ne-nil c s)

and_blank : (a b : Bool) → b ≡ false → (a && b) ≡ false
and_blank a b h = rw h (and_false a)

-- A text whose parts behind the first one are not empty does not end in a slash, unless it is one.
pub drop_slashes-id :
    (s : String) → any (λ part. part == "") (later (split_slashes s)) ≡ false → drop_slashes s ≡ s
unfolding split_slashes
drop_slashes-id String.[] h = refl
drop_slashes-id (String.◌∷◌ c s) h = elim (Bool-cases (eqb (code c) b'/')) [
  | inl e ↦
      let q : any (λ part. part == "") (split_slashes s) ≡ false = sym (rw e refl) ∙ h in
      rw (drop_slashes-id s (any-later _ (split_slashes s) q)) (rw (not_blank s q) refl)
  | inr e ↦
      let q : any (λ part. part == "") (later (push_char c (split_slashes s))) ≡ false =
        sym (rw e refl) ∙ h in
      let k = drop_slashes-id s (rw (sym (later-push_char c (split_slashes s))) q) in
      rw (and_blank (drop_slashes s == "") (eqb (code c) b'/') e) (ap (λ t. String.◌∷◌ c t) k)
]

-- A text whose first part is not empty does not start with a slash.
pub trim_slashes-id :
    (s : String) → any (λ part. part == "") (split_slashes s) ≡ false → trim_slashes s ≡ s
unfolding split_slashes trim_slashes
trim_slashes-id String.[] h = refl
trim_slashes-id (String.◌∷◌ c s) h = elim (Bool-cases (eqb (code c) b'/')) [
  | inl e ↦
      let q : any (λ part. part == "") ("" ∷ split_slashes s) ≡ false = sym (rw e refl) ∙ h in
      absurd cc
  | inr e ↦ rw e refl
]

push_no_slash :
    (c : Char) (parts : List String)
    → eqb (code c) b'/' ≡ false
    → any (has_part "/") parts ≡ false
    → any (has_part "/") (push_char c parts) ≡ false
push_no_slash c [] e h = ground arith
push_no_slash c (part ∷ parts) e h = ground arith

-- No part of a text split at the slashes has one.
pub split_no_slash : (s : String) → any (has_part "/") (split_slashes s) ≡ false
unfolding split_slashes
split_no_slash String.[] = refl
split_no_slash (String.◌∷◌ c s) = elim (Bool-cases (eqb (code c) b'/')) [
  | inl e ↦ rw e (split_no_slash s)
  | inr e ↦ rw e (push_no_slash c (split_slashes s) e (split_no_slash s))
]

join-push_char :
    (c : Char) (parts : List String)
    → join_slashes (push_char c parts) ≡ String.◌∷◌ c (join_slashes parts)
unfolding join_slashes
join-push_char c [] = refl
join-push_char c (part ∷ []) = refl
join-push_char c (part ∷ other ∷ parts) =
    append.cons c part (String.◌∷◌ "/" (join_slashes (other ∷ parts)))

push_cons :
    (c : Char) (ps : List String)
    → (part : String) × (parts : List String) × (push_char c ps ≡ part ∷ parts)
push_cons c [] = (_, _, refl)
push_cons c (part ∷ parts) = (_, _, refl)

pub split_cons :
    (s : String) → (part : String) × (parts : List String) × (split_slashes s ≡ part ∷ parts)
unfolding split_slashes
split_cons String.[] = ("", [], refl)
split_cons (String.◌∷◌ c s) = elim (Bool-cases (eqb (code c) b'/')) [
  | inl e ↦ ("", split_slashes s, rw e refl)
  | inr e ↦ rw e (push_cons c (split_slashes s))
]

pub slash_code : (n : ℕ) → eqb n b'/' ≡ true → n ≡ b'/'
slash_code n h = ground arith

join-blank :
    (parts : List String) (part : String) (others : List String) (s : String)
    → parts ≡ part ∷ others
    → join_slashes parts ≡ s
    → join_slashes ("" ∷ parts) ≡ String.◌∷◌ "/" s
unfolding join_slashes
join-blank [] part others s e h = absurd cc
join-blank (q ∷ qs) part others s e h =
    append.nil (String.◌∷◌ "/" (join_slashes (q ∷ qs))) ∙ ap (λ t. String.◌∷◌ "/" t) h

-- The parts of a text, joined, are the text.
pub join-split_slashes : (s : String) → join_slashes (split_slashes s) ≡ s
unfolding split_slashes join_slashes
join-split_slashes String.[] = refl
join-split_slashes (String.◌∷◌ c s) = elim (Bool-cases (eqb (code c) b'/')) [
  | inl e ↦
      let (part, others, q) = split_cons s in
      rw e (
        join-blank (split_slashes s) part others s q (join-split_slashes s)
        ∙ ap (λ (d : Char). String.◌∷◌ d s) (sym (Char-path c "/" (slash_code (code c) e))))
  | inr e ↦
      rw e (join-push_char c (split_slashes s) ∙ ap (λ t. String.◌∷◌ c t) (join-split_slashes s))
]
