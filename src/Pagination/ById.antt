-- ===== src/Pagination/ById.antt =====
-- app/pagination.py: `paginate_by_id`, pages that start behind or end before an item.
use open_managed_agents.WorkQueue.Defs.{given}
use open_managed_agents.Pagination.{ok, http, map_ok, page_limit}
use open_managed_agents.Prelude.{
  inr, inl, ◌∙◌, eq_iff, ap, Bool-cases, length-append, refl, [], if◌then◌else◌, arith, ◌<◌, ◌-◌,
  ◌∷◌, ◌++◌, ◌≢◌, ◌+◌, ◌≤◌, ltb, take, length, ◌≡◌, any, ℤ, ◌==◌, drop, ℕ, String, Bool, Option,
  List, none, some, zero, suc, true, false,
}
use open_managed_agents.Result.{err, Result}

-- A page without a cursor.
pub record Slice {ℓ} (A : Type ℓ) : Type ℓ where
  pub sliced : List A
  pub has_more : Bool

module _ {ℓ} {A : Type ℓ} (id_of : A → Option String) where
  abbrev pub has_id : String → A → Bool
  has_id id item = elim (id_of item) [ none ↦ false | some i ↦ i == id ]

  unfoldable pub index_of : List A → String → Result ℕ
  index_of [] id = err (http 400 "Invalid pagination cursor")
  index_of (x ∷ xs) id = let rest = index_of xs id in if has_id id x then ok 0 else map_ok suc rest

  -- The offset of the page. An empty id is none.
  unfoldable pub offset_by_id : List A → ℕ → Option String → Option String → Result ℕ
  offset_by_id items size (some after) (some before) =
      err (http 400 "Only one of after_id or before_id may be provided")
  offset_by_id items size (some after) none = map_ok suc (index_of items after)
  offset_by_id items size none (some before) = map_ok (λ i. i - size) (index_of items before)
  offset_by_id items size none none = ok 0

  abbrev pub slice_at : List A → ℕ → ℕ → Slice A
  slice_at items size offset = record {
    sliced = take size (drop offset items);
    has_more = ltb (offset + size) (length items);
  }

  unfoldable pub paginate_by_id :
      List A → Option ℤ → Option String → Option String → ℕ → Result (Slice A)
  paginate_by_id items limit after_id before_id most =
      let size = page_limit limit most in
      map_ok (slice_at items size) (offset_by_id items size (given after_id) (given before_id))

  index_of-first :
      (xs : List A) (x : A) (ys : List A) (id : String)
      → any (has_id id) xs ≡ false
      → has_id id x ≡ true
      → index_of (xs ++ x ∷ ys) id ≡ ok (length xs)
  unfolding index_of
  index_of-first [] x ys id free its = rw its refl
  index_of-first (z ∷ xs) x ys id free its = elim (Bool-cases (has_id id z)) [
    | inl t ↦ absurd (ground (arith, t, free))
    | inr p ↦ rw (p, index_of-first xs x ys id (ground (arith, p, free)) its) refl
  ]

  drop-behind : (xs : List A) (x : A) (ys : List A) → drop (suc (length xs)) (xs ++ x ∷ ys) ≡ ys
  drop-behind [] x ys = refl
  drop-behind (z ∷ xs) x ys = drop-behind xs x ys

  more_behind :
      (xs : List A) (x : A) (ys : List A) (size : ℕ)
      → ltb (suc (length xs) + size) (length (xs ++ x ∷ ys)) ≡ ltb size (length ys)
  more_behind xs x ys size = ground (arith, length-append xs (x ∷ ys))

  take-short :
      (n : ℕ) (xs ys : List A) → length xs ≤ n → take n (xs ++ ys) ≡ xs ++ take (n - length xs) ys
  take-short n [] ys h = let e : n ≡ n - 0 = omega arith in ap (λ (k : ℕ). take k ys) e
  take-short zero (x ∷ xs) ys h = absurd (omega arith)
  take-short (suc n) (x ∷ xs) ys h =
      let e : n - length xs ≡ suc n - suc (length xs) = omega arith in
      ap (λ l. x ∷ l) (take-short n xs ys (omega arith) ∙ ap (λ (k : ℕ). xs ++ take k ys) e)

  -- The page behind the first item with the id has the items that follow it, as many as the page may
  -- have, and tells whether there are more.
  pub paginate_by_id_after :
      (xs : List A) (x : A) (ys : List A) (limit : Option ℤ) (id : String) (most : ℕ)
      → any (has_id id) xs ≡ false
      → has_id id x ≡ true
      → id ≢ ""
      → paginate_by_id (xs ++ x ∷ ys) limit (some id) none most
        ≡ ok (record {
          sliced = take (page_limit limit most) ys;
          has_more = ltb (page_limit limit most) (length ys);
        })
  unfolding paginate_by_id offset_by_id
  paginate_by_id_after xs x ys limit id most free its named =
      let p : (id == "") ≡ false = ground (arith, named, eq_iff id "") in
      rw
        (
          p,
          index_of-first xs x ys id free its,
          drop-behind xs x ys,
          more_behind xs x ys (page_limit limit most),
        )
        refl

  -- The page before the first item with the id has, where fewer items precede it than the page may
  -- have, the item itself behind them, and those that follow it until the page is full.
  pub paginate_by_id_before :
      (xs : List A) (x : A) (ys : List A) (limit : Option ℤ) (id : String) (most : ℕ)
      → any (has_id id) xs ≡ false
      → has_id id x ≡ true
      → id ≢ ""
      → length xs < page_limit limit most
      → (page : Slice A) × (paginate_by_id (xs ++ x ∷ ys) limit none (some id) most ≡ ok page)
        × (page.sliced ≡ xs ++ x ∷ take (page_limit limit most - suc (length xs)) ys)
  unfolding paginate_by_id offset_by_id
  paginate_by_id_before xs x ys limit id most free its named few =
      let size : ℕ = page_limit limit most in
      let items : List A = xs ++ x ∷ ys in
      let p : (id == "") ≡ false = ground (arith, named, eq_iff id "") in
      let start : length xs - size ≡ 0 = omega arith in
      let fits : size - length xs ≡ suc (size - suc (length xs)) = omega arith in
      (
        slice_at items size (length xs - size),
        rw (p, index_of-first xs x ys id free its) refl,
        ap (λ (k : ℕ). take size (drop k items)) start
            ∙ take-short size xs (x ∷ ys) (omega arith)
            ∙ ap (λ (k : ℕ). xs ++ take k (x ∷ ys)) fits,
      )
