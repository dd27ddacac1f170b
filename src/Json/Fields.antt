-- ===== src/Json/Fields.antt =====
-- The laws of reading a dict after writing or removing one key.
use mathlib.Core.Path.{subst}
use open_managed_agents.Prelude.{
  ◌∙◌, inr, inl, Bool-cases, ◌≡◌, refl, ◌≢◌, String, some, false, arith, ◌==◌, eq_iff,
  if◌then◌else◌,
}
use open_managed_agents.Json.{none, Value, Dict, empty, field, get, lookup, put, remove}

-- What a key reads after a write.
pub lookup-put :
    (j k : String) (v : Value) (d : Dict)
    → lookup j (put k v d) ≡ (if k == j then some v else lookup j d)
unfolding lookup put
lookup-put j k v empty = refl
lookup-put j k v (field i w d) =
    ground (arith, eq_iff k j, eq_iff i k, eq_iff i j, lookup-put j k v d)

-- Removing one key leaves every other key as it was.
pub lookup-remove_ne : (j k : String) (d : Dict) → j ≢ k → lookup j (remove k d) ≡ lookup j d
unfolding lookup remove
lookup-remove_ne j k empty h = refl
lookup-remove_ne j k (field i w d) h =
    ground (arith, eq_iff i k, eq_iff i j, eq_iff k j, lookup-remove_ne j k d h)

-- No key stands twice in the dict, as in every dict of Python.
abbrev pub HasDistinctKeys : Dict → Type 0
HasDistinctKeys empty = Unit
HasDistinctKeys (field k v d) = (lookup k d ≡ none) × HasDistinctKeys d

pub put-HasDistinctKeys :
    (k : String) (v : Value) (d : Dict) → HasDistinctKeys d → HasDistinctKeys (put k v d)
unfolding lookup put
put-HasDistinctKeys k v empty h = (refl, tt)
put-HasDistinctKeys k v (field j w d) h = elim (Bool-cases (j == k)) [
  | inl t ↦ rw t h
  | inr p ↦ rw p (
    (let e : lookup j (put k v d) ≡ lookup j d =
          lookup-put j k v d
          ∙ (let q : (k == j) ≡ false = ground (arith, eq_iff k j, eq_iff j k) in rw q refl) in
        e ∙ h.0),
    put-HasDistinctKeys k v d h.1,
  )
]

-- A key that was removed is not there.
pub lookup-remove_self : (k : String) (d : Dict) → HasDistinctKeys d → lookup k (remove k d) ≡ none
unfolding lookup remove
lookup-remove_self k empty h = refl
lookup-remove_self k (field j w d) h = elim (Bool-cases (j == k)) [
  | inl t ↦
      rw t (let e : j ≡ k = ground (arith, eq_iff j k) in subst (λ i. lookup i d ≡ none) e h.0)
  | inr p ↦ rw p (rw p (lookup-remove_self k d h.1))
]

-- The same for `get`.
pub get-put :
    (j k : String) (v : Value) (d : Dict) → get j (put k v d) ≡ (if k == j then v else get j d)
unfolding get
get-put j k v d = ground (arith, lookup-put j k v d)

-- A removal leaves another key.
pub get-remove_other : (j k : String) (d : Dict) → (k == j) ≡ false → get j (remove k d) ≡ get j d
unfolding get
get-remove_other j k d h =
    let q : j ≢ k = ground (arith, eq_iff k j) in ground (arith, lookup-remove_ne j k d q)
