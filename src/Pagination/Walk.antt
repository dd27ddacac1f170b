-- ===== src/Pagination/Walk.antt =====
-- A client that follows the cursors reads every item once.
use open_managed_agents.Pagination.{
  eqb, ltb, negsuc, cursor_at, pos, err, false, some, page_cursor_ttl, none, ok, cursor_expires_at,
  Result, read_cursor, String, after_prefix, page_at, read_payload, decode_page, ℤ, paginate, ℕ,
  encode_page, Page, Cursors, Option, page_limit,
}
use open_managed_agents.Runtime.{Runtime}
use mathlib.Core.List.{append-nil}
use text.Mathlib.TextLemmas.{cons-append, nil-append}
use Prim.Native.Char.{code}
use open_managed_agents.Prelude.{
  ltb→lt, ◌∙◌, sym, true, ap, take-append-drop, drop, take, length, List, [], ◌∷◌, ℕ,
}
use open_managed_agents.Json.{obj, get, lookup}
use open_managed_agents.WorkQueue.Defs.{to_int}
use open_managed_agents.Result.{crash, ◌>>=◌, map_ok}
use open_managed_agents.Prelude.{
  inr, inl, refl, zero, lt→ltb, Bool-cases, ne→not-eq, drop-drop, suc, none, ◌≤◌, arith, ◌+◌, ◌≡◌,
  ◌==◌, ◌<◌, ◌++◌,
}

page_limit_pos : (limit : Option ℤ) (most : ℕ) → 0 < page_limit limit most
unfolding page_limit
page_limit_pos none most = omega arith
page_limit_pos (some (pos n)) most = ground arith
page_limit_pos (some (negsuc n)) most = omega arith

eqb_self : (n : ℕ) → eqb n n ≡ true
eqb_self n = ground arith

after_prefix-append : (p s : String) → after_prefix p (Prim.Native.String.◌++◌ p s) ≡ some s
unfolding after_prefix
after_prefix-append String.[] s = ap some (nil-append s)
after_prefix-append (String.◌∷◌ a p) s =
    rw (cons-append a p s) (rw (eqb_self (code a)) (after_prefix-append p s))

nothing_behind : (t : String) → after_prefix "page_" "" ≡ some t → ⊥
unfolding after_prefix
nothing_behind t h = cc

module _ ⦃r : Runtime⦄ ⦃cursors : Cursors⦄ where
  behind_prefix :
      (offset now : ℕ)
      → after_prefix "page_" (encode_page offset now) ≡ some (cursors.encode (cursor_at offset now))
  unfolding encode_page
  behind_prefix offset now = after_prefix-append "page_" (cursors.encode (cursor_at offset now))

  not_blank : (offset now : ℕ) → (encode_page offset now == "") ≡ false
  not_blank offset now =
      ne→not-eq (encode_page offset now) ""
        (λ e. nothing_behind _ (ap (after_prefix "page_") (sym e) ∙ behind_prefix offset now))

  read_own :
      (offset now later : ℕ)
      → later < now + page_cursor_ttl
      → read_payload (some (obj (cursor_at offset now))) later ≡ ok offset
  unfolding read_payload read_cursor cursor_expires_at get lookup to_int
  read_own offset now later h = rw (lt→ltb later (now + page_cursor_ttl) h)

  decode_page-encode_page :
      (offset now later : ℕ)
      → later < now + page_cursor_ttl
      → decode_page (some (encode_page offset now)) later ≡ ok offset
  unfolding decode_page
  decode_page-encode_page offset now later h =
      rw
        (
          not_blank offset now,
          behind_prefix offset now,
          cursors.decode-encode offset (now + page_cursor_ttl),
        )
        (read_own offset now later h)

  module _ {ℓ} {A : Type ℓ} where
    -- What a client makes of a page: its items, and those of the next pages.
    unfoldable pub follow : Page A → (String → Result (List A)) → Result (List A)
    follow this ask = elim this.next_page [
      | none ↦ ok this.sliced
      | some next ↦ map_ok (λ rest. this.sliced ++ rest) (ask next)
    ]

    -- The client, with the number of requests it may make.
    unfoldable pub read_all : ℕ → List A → Option ℤ → Option String → ℕ → ℕ → Result (List A)
    read_all zero items limit page most now = err (crash "no more requests")
    read_all (suc fuel) items limit page most now = paginate items limit page most now >>= λ this.
        follow this (λ next. read_all fuel items limit (some next) most now)

    drop_all : (n : ℕ) (xs : List A) → length xs ≤ n → drop n xs ≡ []
    drop_all zero [] h = refl
    drop_all (suc n) [] h = refl
    drop_all zero (x ∷ xs) h = absurd (omega (arith, h))
    drop_all (suc n) (x ∷ xs) h = drop_all n xs (omega (arith, h))

    slice : (n o : ℕ) (xs : List A) → take n (drop o xs) ++ drop (o + n) xs ≡ drop o xs
    slice n o xs = rw⁻¹ (drop-drop o n xs) (take-append-drop n (drop o xs))

    paginated :
        (items : List A) (limit : Option ℤ) (page : Option String) (most now o : ℕ)
        → decode_page page now ≡ ok o
        → paginate items limit page most now ≡ ok (page_at items (page_limit limit most) o now)
    unfolding paginate
    paginated items limit page most now o d = rw d

    last_page :
        (items : List A) (n o now : ℕ) (ask : String → Result (List A))
        → ltb (o + n) (length items) ≡ false
        → follow (page_at items n o now) ask ≡ ok (drop o items)
    unfolding follow page_at
    last_page items n o now ask last =
        let nothing_left : drop (o + n) items ≡ [] = drop_all (o + n) items (ground arith) in
        let rest : take n (drop o items) ≡ drop o items =
          sym (append-nil (take n (drop o items)))
          ∙ ap (λ ys. take n (drop o items) ++ ys) (sym nothing_left)
          ∙ slice n o items in
        rw last (ap (λ ys. ok ys) rest)

    more_page :
        (items : List A) (n o now : ℕ) (ask : String → Result (List A))
        → ltb (o + n) (length items) ≡ true
        → ask (encode_page (o + n) now) ≡ ok (drop (o + n) items)
        → follow (page_at items n o now) ask ≡ ok (drop o items)
    unfolding follow page_at
    more_page items n o now ask more answer =
        rw more (rw answer (ap (λ ys. ok ys) (slice n o items)))

    from_offset :
        (fuel : ℕ) (items : List A) (limit : Option ℤ) (page : Option String) (most now o : ℕ)
        → decode_page page now ≡ ok o
        → o ≤ length items
        → length items + 1 ≤ o + fuel
        → read_all fuel items limit page most now ≡ ok (drop o items)
    unfolding read_all
    from_offset zero items limit page most now o d le enough = absurd (omega (arith, le, enough))
    from_offset (suc fuel) items limit page most now o d le enough =
        let n = page_limit limit most in
        let pos_n : 0 < n = page_limit_pos limit most in
        let ask : String → Result (List A) =
          λ next. read_all fuel items limit (some next) most now in
        elim (Bool-cases (ltb (o + n) (length items))) [
          | inl more ↦
              let inside : o + n < length items = ltb→lt (o + n) (length items) more in
              rw (paginated items limit page most now o d) (
                more_page items n o now ask more (
                  from_offset fuel items limit (some (encode_page (o + n) now)) most now (o + n)
                    (decode_page-encode_page (o + n) now now (omega arith)) (omega (arith, inside))
                    (omega (arith, inside, pos_n, enough))))
          | inr last ↦
              rw (paginated items limit page most now o d) (last_page items n o now ask last)
        ]

    -- A client that starts without a cursor and follows each page's next one, at one moment, gets
    -- every item once and in order, whatever the limit it asks for, if it may make more requests
    -- than there are items.
    pub read_all_complete :
        (fuel : ℕ) (items : List A) (limit : Option ℤ) (most now : ℕ)
        → length items < fuel
        → read_all fuel items limit none most now ≡ ok items
    unfolding decode_page
    read_all_complete fuel items limit most now enough =
        from_offset fuel items limit none most now 0 refl (omega arith) (omega (arith, enough))
