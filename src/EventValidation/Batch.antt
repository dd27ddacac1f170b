-- ===== src/EventValidation/Batch.antt =====
-- Which batches of events pass the rule on system messages.
use mathlib.Core.Path.{sym, subst}
use mathlib.Core.List.{append_assoc, head-eq_of_cons-eq}
use open_managed_agents.Prelude.{
  ◌↔◌, ◌<◌, ◌-◌, ◌∙◌, refl, ap, eq_iff, inr, ◌+◌, Bool-cases, inl, arith, true, ◌∷◌, ◌++◌, ◌==◌,
  ◌≡◌, ◌⊎◌, All, length-append,
}
use open_managed_agents.EventValidation.{
  ok, validate_system_message_batch, judge_system, suc, length, ℕ, indexes_of, type_at, one_of, [],
  false, String, List, system_message_predecessors,
}

-- No system message among the types.
abbrev pub HasNoSystem : List String → Type 0
HasNoSystem types = All (λ t. (t == "system.message") ≡ false) types

-- Either no system message, or one, at the end, right behind one of its predecessors.
abbrev pub IsWellPlaced : List String → Type 0
IsWellPlaced types =
    HasNoSystem types
    ⊎ ((before : List String) × (p : String) × (types ≡ before ++ p ∷ "system.message" ∷ [])
        × HasNoSystem before
        × (one_of p system_message_predecessors ≡ true))

abbrev system : String
system = "system.message"

no_index : (i : ℕ) (types : List String) → indexes_of system i types ≡ [] → HasNoSystem types
unfolding indexes_of
no_index i [] h = tt
no_index i (x ∷ xs) h = elim (Bool-cases (x == system)) [
  | inl e ↦ cc (rw e at h)
  | inr e ↦ (e, no_index (suc i) xs (rw e at h))
]

-- The one position that was found, and the types around it.
abbrev Around : ℕ → List String → ℕ → Type 0
Around i types j =
    (before : List String) × (after : List String) × (types ≡ before ++ system ∷ after)
    × HasNoSystem before
    × HasNoSystem after
    × (j ≡ i + length before)

one_index :
    (i : ℕ) (types : List String) (j : ℕ) → indexes_of system i types ≡ j ∷ [] → Around i types j
unfolding indexes_of
one_index i [] j h = cc
one_index i (x ∷ xs) j h = elim (Bool-cases (x == system)) [
  | inl e ↦
      let h' : i ∷ indexes_of system (suc i) xs ≡ j ∷ [] = rw e at h in
      (
        [],
        xs,
        ap (λ t. t ∷ xs) ((eq_iff x system).0 e),
        tt,
        no_index (suc i) xs (cc h'),
        omega (arith, head-eq_of_cons-eq h'),
      )
  | inr e ↦
      let (before, after, same, no_before, no_after, at_j) = one_index (suc i) xs j (rw e at h) in
      (x ∷ before, after, ap (◌∷◌ x) same, (e, no_before), no_after, omega (arith, at_j))
]

index_of_none : (i : ℕ) (types : List String) → HasNoSystem types → indexes_of system i types ≡ []
unfolding indexes_of
index_of_none i [] h = refl
index_of_none i (x ∷ xs) h = rw h.0 (index_of_none (suc i) xs h.1)

index_of_last :
    (i : ℕ) (before : List String) (p : String)
    → HasNoSystem before
    → (p == system) ≡ false
    → indexes_of system i (before ++ p ∷ system ∷ []) ≡ (i + length before + 1) ∷ []
unfolding indexes_of
index_of_last i [] p h e =
    rw e (let q : suc i ≡ i + 0 + 1 = omega arith in ap (λ (k : ℕ). k ∷ []) q)
index_of_last i (x ∷ xs) p h e = rw h.0 (
    index_of_last (suc i) xs p h.1 e
    ∙ (let q : suc i + length xs + 1 ≡ i + suc (length xs) + 1 = omega arith in
        ap (λ (k : ℕ). k ∷ []) q))

type_at-append :
    (before : List String) (p : String) (after : List String)
    → type_at (before ++ p ∷ after) (length before) ≡ p
type_at-append [] p after = refl
type_at-append (x ∷ xs) p after = type_at-append xs p after

-- A list is empty, or a front and a last element.
abbrev LastSplit : List String → Type 0
LastSplit types = (types ≡ []) ⊎ ((front : List String) × (p : String) × (types ≡ front ++ p ∷ []))

last_split : (types : List String) → LastSplit types
last_split [] = inl refl
last_split (x ∷ xs) = elim (last_split xs) [
  | inl e ↦ inr ([], x, ap (◌∷◌ x) e)
  | inr (front, p, e) ↦ inr (x ∷ front, p, ap (◌∷◌ x) e)
]

predecessor_not_system :
    (p : String) → one_of p system_message_predecessors ≡ true → (p == system) ≡ false
predecessor_not_system p h = ground (
  arith,
  eq_iff p system,
  eq_iff p "user.custom_tool_result",
  eq_iff p "user.message",
  eq_iff p "user.tool_result",
  eq_iff system "user.custom_tool_result",
  eq_iff system "user.message",
  eq_iff system "user.tool_result",
)

judge_one :
    (types : List String) (j : ℕ)
    → judge_system types (j ∷ []) ≡ ok tt
    → (j ≡ length types - 1)
      × (0 < j)
      × (one_of (type_at types (j - 1)) system_message_predecessors ≡ true)
unfolding judge_system
judge_one types j h = ground arith

last_type :
    (front : List String) (p : String) (j : ℕ)
    → j ≡ length (front ++ p ∷ [])
    → type_at ((front ++ p ∷ []) ++ system ∷ []) (j - 1) ≡ p
last_type front p j e =
    let at_p : j - 1 ≡ length front = omega (arith, length-append front (p ∷ [])) in
    rw (at_p, append_assoc front (p ∷ []) (system ∷ [])) (type_at-append front p (system ∷ []))

HasNoSystem-front :
    (front : List String) (p : String) → HasNoSystem (front ++ p ∷ []) → HasNoSystem front
HasNoSystem-front [] p h = tt
HasNoSystem-front (x ∷ xs) p h = (h.0, HasNoSystem-front xs p h.1)

placed :
    (before after : List String) (j : ℕ)
    → HasNoSystem before
    → j ≡ length before
    → j ≡ length (before ++ system ∷ after) - 1
    → 0 < j
    → one_of (type_at (before ++ system ∷ after) (j - 1)) system_message_predecessors ≡ true
    → IsWellPlaced (before ++ system ∷ after)
placed before (x ∷ xs) j nb e last pos_j ok_p =
    absurd (omega (arith, length-append before (system ∷ x ∷ xs)))
placed before [] j nb e last pos_j ok_p = elim (last_split before) [
  | inl none_before ↦ absurd (omega (arith, ap length none_before))
  | inr (front, p, split) ↦ inr (
    front,
    p,
    ap (λ b. b ++ system ∷ []) split ∙ append_assoc front (p ∷ []) (system ∷ []),
    HasNoSystem-front front p (subst HasNoSystem split nb),
    subst (λ t. one_of t system_message_predecessors ≡ true)
        (ap (λ b. type_at (b ++ system ∷ []) (j - 1)) split
          ∙ last_type front p j (e ∙ ap length split))
        ok_p,
  )
]

sound_at :
    (types : List String) (js : List ℕ)
    → indexes_of system 0 types ≡ js
    → judge_system types js ≡ ok tt
    → IsWellPlaced types
unfolding judge_system
sound_at types [] e h = inl (no_index 0 types e)
sound_at types (j ∷ k ∷ js) e h = cc
sound_at types (j ∷ []) e h =
    let (before, after, same, nb, na, at_j) = one_index 0 types j e in
    let (last, pos_j, ok_p) = judge_one types j h in
    subst IsWellPlaced (sym same) (
      placed before after j nb (omega arith) (last ∙ ap (λ t. length t - 1) same) pos_j
        (subst (λ t. one_of (type_at t (j - 1)) system_message_predecessors ≡ true) same ok_p))

judge_last :
    (types : List String) (j : ℕ)
    → j ≡ length types - 1
    → 0 < j
    → one_of (type_at types (j - 1)) system_message_predecessors ≡ true
    → judge_system types (j ∷ []) ≡ ok tt
unfolding judge_system
judge_last types j last pos_j ok_p = ground arith

judged :
    (before : List String) (p : String)
    → one_of p system_message_predecessors ≡ true
    → judge_system (before ++ p ∷ system ∷ []) ((0 + length before + 1) ∷ []) ≡ ok tt
judged before p ok_p =
    let at_p : 0 + length before + 1 - 1 ≡ length before = omega arith in
    judge_last (before ++ p ∷ system ∷ []) (0 + length before + 1)
      (omega (arith, length-append before (p ∷ system ∷ []))) (omega arith)
      (rw (at_p, type_at-append before p (system ∷ [])) ok_p)

judge_none : (types : List String) → judge_system types [] ≡ ok tt
unfolding judge_system
judge_none types = refl

complete : (types : List String) → IsWellPlaced types → validate_system_message_batch types ≡ ok tt
unfolding validate_system_message_batch
complete types (inl h) = rw (index_of_none 0 types h) (judge_none types)
complete types (inr (before, p, same, nb, ok_p)) =
    rw same
      (rw (index_of_last 0 before p nb (predecessor_not_system p ok_p)) (judged before p ok_p))

-- A batch passes exactly if it holds no system message, or one, at its end and right behind a user
-- message, a tool result or a custom tool result.
pub validate_system_message_batch_iff :
    (types : List String) → (validate_system_message_batch types ≡ ok tt) ↔ IsWellPlaced types
unfolding validate_system_message_batch
validate_system_message_batch_iff types =
    (sound_at types (indexes_of system 0 types) refl, complete types)
