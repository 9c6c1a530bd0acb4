-- ===== src/AvlTree/Cursor/Keys.antt =====
-- The walks of two trees side by side, `has_any_key` and `has_all_keys` in
-- include/smashtable/basic_avl_tree.hpp.
use smash_table.Base.{
  ℕ, zero, suc, ◌+◌, ◌<◌, ◌≡◌, refl, sym, ◌∙◌, ap, arith, Bool, true, false, inl, inr, none, some,
  List, [], ◌∷◌, ◌++◌, not, ◌&&◌, length, keep, keep_none, keep_congr, All-imp, All-of, Bool-cases,
  is_nil, if◌then◌else◌,
}
use smash_table.Order.{Entry, ◌≺◌, le_lt_trans}
use smash_table.Sorted.{IsSorted, matches}
use smash_table.AvlTree.{Tree, null, node, fruit?, to_list}
use smash_table.AvlTree.Cursor.{Parents, Cursor, begin, increment, next_of}
use smash_table.AvlTree.Cursor.Order.{after, ahead, ahead_at, ahead-next_of, ahead-begin}

module _ {V : Type 0} ⦃e : Entry V⦄ where
  -- the loops, on fuel; `it1` runs through this tree and `it2` through the other
  unfoldable pub any_key_loop : ℕ → Cursor V → Cursor V → Bool
  any_key_loop zero it1 it2 = false
  any_key_loop (suc fuel) it1 it2 =
      let on_first = any_key_loop fuel (increment it1) it2 in
      let on_second = any_key_loop fuel it1 (increment it2) in
      elim (fruit? it1.at) [
        | none ↦ false
        | some x ↦ elim (fruit? it2.at) [
          | none ↦ false
          | some y ↦
              if e.less (e.key x) (e.key y)
              then on_first
              else (if e.less (e.key y) (e.key x) then on_second else true)
        ]
      ]

  unfoldable pub has_any_key : ℕ → Tree V → Tree V → Bool
  unfolding any_key_loop
  has_any_key fuel t other = any_key_loop fuel (begin t) (begin other)

  unfoldable pub all_keys_loop : ℕ → Cursor V → Cursor V → Bool
  all_keys_loop zero it1 it2 = false
  all_keys_loop (suc fuel) it1 it2 =
      let on_first = all_keys_loop fuel (increment it1) it2 in
      let on_both = all_keys_loop fuel (increment it1) (increment it2) in
      elim (fruit? it2.at) [
        | none ↦ true
        | some y ↦ elim (fruit? it1.at) [
          | none ↦ false
          | some x ↦
              if e.less (e.key x) (e.key y)
              then on_first
              else (if e.less (e.key y) (e.key x) then false else on_both)
        ]
      ]

  unfoldable pub has_all_keys : ℕ → Tree V → Tree V → Bool
  unfolding all_keys_loop
  has_all_keys fuel t other = all_keys_loop fuel (begin t) (begin other)

  -- whether the key of an entry is found in a sequence
  abbrev pub found_in : List V → V → Bool
  found_in ys x = not (is_nil (keep (matches (e.key x)) ys))

  abbrev pub missing_in : List V → V → Bool
  missing_in ys x = is_nil (keep (matches (e.key x)) ys)

  -- a key below all of a sorted sequence
  below_tail :
      (x y : V) (ys : List V) → x ≺ y → IsSorted (y ∷ ys) → keep (matches (e.key x)) ys ≡ []
  below_tail x y ys a o = keep_none (matches (e.key x)) ys (
      All-imp
        (λ z b. ap (λ c. not c && not (e.less (e.key z) (e.key x))) (e.order.less_trans _ _ _ a b))
        ys o.0)

  below_all :
      (x y : V) (ys : List V) → x ≺ y → IsSorted (y ∷ ys) → keep (matches (e.key x)) (y ∷ ys) ≡ []
  below_all x y ys a o = rw a (below_tail x y ys a o)

  -- an entry below another is not found by its key
  beyond :
      (y x : V) (ys : List V)
      → y ≺ x
      → keep (matches (e.key x)) (y ∷ ys) ≡ keep (matches (e.key x)) ys
  beyond y x ys a = ground (arith, a)

  found_beyond :
      (y x : V) (xs ys : List V)
      → y ≺ x
      → IsSorted (x ∷ xs)
      → keep (found_in (y ∷ ys)) (x ∷ xs) ≡ keep (found_in ys) (x ∷ xs)
  found_beyond y x xs ys a o =
      let same = λ (z : V) (b : y ≺ z). ap (λ zs. not (is_nil zs)) (beyond y z ys b) in
      keep_congr (found_in (y ∷ ys)) (found_in ys) (x ∷ xs)
        (same x a, All-imp (λ z b. same z (e.order.less_trans _ _ _ a b)) xs o.0)

  missing_beyond :
      (x y : V) (xs ys : List V)
      → x ≺ y
      → IsSorted (y ∷ ys)
      → keep (missing_in (x ∷ xs)) (y ∷ ys) ≡ keep (missing_in xs) (y ∷ ys)
  missing_beyond x y xs ys a o =
      let same = λ (z : V) (b : x ≺ z). ap is_nil (beyond x z xs b) in
      keep_congr (missing_in (x ∷ xs)) (missing_in xs) (y ∷ ys)
        (same y a, All-imp (λ z b. same z (e.order.less_trans _ _ _ a b)) ys o.0)

  found_nil : (xs : List V) → keep (found_in []) xs ≡ []
  found_nil xs = keep_none (found_in []) xs (All-of _ xs (λ x. refl))

  any_key_loop_lem :
      (fuel : ℕ) (t : Tree V) (up : Parents V) (t' : Tree V) (up' : Parents V)
      → IsSorted (ahead_at t up)
      → IsSorted (ahead_at t' up')
      → length (ahead_at t up) + length (ahead_at t' up') < fuel
      → any_key_loop fuel (record { at = t; parents = up }) (record { at = t'; parents = up' })
        ≡ not (is_nil (keep (found_in (ahead_at t' up')) (ahead_at t up)))
  unfolding any_key_loop increment
  any_key_loop_lem zero t up t' up' o o' f = absurd (omega arith)
  any_key_loop_lem (suc fuel) null up t' up' o o' f = refl
  any_key_loop_lem (suc fuel) (node l x h r) up null up' o o' f =
      rw (found_nil (to_list r ++ after up)) refl
  any_key_loop_lem (suc fuel) (node l x h r) up (node l' y h' r') up' o o' f =
      let c = next_of (node l x h r) up in
      let c' = next_of (node l' y h' r') up' in
      let next = ahead-next_of l x h r up in
      let next' = ahead-next_of l' y h' r' up' in
      let xs = to_list r ++ after up in
      let ys = to_list r' ++ after up' in
      let it1 : Cursor V = record { at = node l x h r; parents = up } in
      let it2 : Cursor V = record { at = node l' y h' r'; parents = up' } in
      let shorter = ap length next in
      let shorter' = ap length next' in
      elim (Bool-cases (e.less (e.key x) (e.key y))) [
        | inl a ↦
            let drop : keep (found_in (y ∷ ys)) (x ∷ xs) ≡ keep (found_in (y ∷ ys)) xs =
              rw (below_all x y ys a o') refl in
            let go : any_key_loop (suc fuel) it1 it2 ≡ any_key_loop fuel c it2 = rw a refl in
            go
            ∙ any_key_loop_lem fuel c.at c.parents (node l' y h' r') up' (rw next o.1) o'
                (omega arith)
            ∙ ap (λ zs. not (is_nil (keep (found_in (y ∷ ys)) zs))) next
            ∙ sym (ap (λ zs. not (is_nil zs)) drop)
        | inr a ↦ elim (Bool-cases (e.less (e.key y) (e.key x))) [
          | inl b ↦
              let go : any_key_loop (suc fuel) it1 it2 ≡ any_key_loop fuel it1 c' =
                rw (a, b) refl in
              go
              ∙ any_key_loop_lem fuel (node l x h r) up c'.at c'.parents o (rw next' o'.1)
                  (omega arith)
              ∙ ap (λ zs. not (is_nil (keep (found_in zs) (x ∷ xs)))) next'
              ∙ sym (ap (λ zs. not (is_nil zs)) (found_beyond y x xs ys b o))
          | inr b ↦ rw (a, b) refl
        ]
      ]

  -- For two sorted trees, the walk having a round for each entry of either and one more, `has_any_key`
  -- is whether some entry of this tree is found in the other.
  pub has_any_key_lem :
      (fuel : ℕ) (t other : Tree V)
      → IsSorted (to_list t)
      → IsSorted (to_list other)
      → length (to_list t) + length (to_list other) < fuel
      → has_any_key fuel t other ≡ not (is_nil (keep (found_in (to_list other)) (to_list t)))
  unfolding has_any_key
  has_any_key_lem fuel t other o o' f =
      let c = begin t in
      let c' = begin other in
      let all = ahead-begin t in
      let all' = ahead-begin other in
      let number = ap length all in
      let number' = ap length all' in
      any_key_loop_lem fuel c.at c.parents c'.at c'.parents (rw all o) (rw all' o') (omega arith)
      ∙ ap (λ xs. not (is_nil (keep (found_in (ahead c')) xs))) all
      ∙ ap (λ ys. not (is_nil (keep (found_in ys) (to_list t)))) all'

  all_keys_loop_lem :
      (fuel : ℕ) (t : Tree V) (up : Parents V) (t' : Tree V) (up' : Parents V)
      → IsSorted (ahead_at t up)
      → IsSorted (ahead_at t' up')
      → length (ahead_at t up) + length (ahead_at t' up') < fuel
      → all_keys_loop fuel (record { at = t; parents = up }) (record { at = t'; parents = up' })
        ≡ is_nil (keep (missing_in (ahead_at t up)) (ahead_at t' up'))
  unfolding all_keys_loop increment
  all_keys_loop_lem zero t up t' up' o o' f = absurd (omega arith)
  all_keys_loop_lem (suc fuel) t up null up' o o' f = refl
  all_keys_loop_lem (suc fuel) null up (node l' y h' r') up' o o' f = refl
  all_keys_loop_lem (suc fuel) (node l x h r) up (node l' y h' r') up' o o' f =
      let c = next_of (node l x h r) up in
      let c' = next_of (node l' y h' r') up' in
      let next = ahead-next_of l x h r up in
      let next' = ahead-next_of l' y h' r' up' in
      let xs = to_list r ++ after up in
      let ys = to_list r' ++ after up' in
      let it1 : Cursor V = record { at = node l x h r; parents = up } in
      let it2 : Cursor V = record { at = node l' y h' r'; parents = up' } in
      let shorter = ap length next in
      let shorter' = ap length next' in
      elim (Bool-cases (e.less (e.key x) (e.key y))) [
        | inl a ↦
            let go : all_keys_loop (suc fuel) it1 it2 ≡ all_keys_loop fuel c it2 = rw a refl in
            go
            ∙ all_keys_loop_lem fuel c.at c.parents (node l' y h' r') up' (rw next o.1) o'
                (omega arith)
            ∙ ap (λ zs. is_nil (keep (missing_in zs) (y ∷ ys))) next
            ∙ sym (ap is_nil (missing_beyond x y xs ys a o'))
        | inr a ↦ elim (Bool-cases (e.less (e.key y) (e.key x))) [
          | inl b ↦ rw (a, b, below_tail y x xs b o) refl
          | inr b ↦
              let rest : keep (missing_in (x ∷ xs)) ys ≡ keep (missing_in xs) ys =
                keep_congr (missing_in (x ∷ xs)) (missing_in xs) ys (
                  All-imp (λ z d. ap is_nil (beyond x z xs (le_lt_trans e.order _ _ _ b d))) ys
                    o'.0) in
              rw (a, b, rest)
                (all_keys_loop_lem fuel c.at c.parents c'.at c'.parents (rw next o.1)
                    (rw next' o'.1) (omega arith)
                  ∙ ap (λ zs. is_nil (keep (missing_in zs) (ahead c'))) next
                  ∙ ap (λ zs. is_nil (keep (missing_in xs) zs)) next')
        ]
      ]

  -- For two sorted trees, the walk having a round for each entry of either and one more, `has_all_keys`
  -- is whether no entry of the other tree is missing from this one.
  pub has_all_keys_lem :
      (fuel : ℕ) (t other : Tree V)
      → IsSorted (to_list t)
      → IsSorted (to_list other)
      → length (to_list t) + length (to_list other) < fuel
      → has_all_keys fuel t other ≡ is_nil (keep (missing_in (to_list t)) (to_list other))
  unfolding has_all_keys
  has_all_keys_lem fuel t other o o' f =
      let c = begin t in
      let c' = begin other in
      let all = ahead-begin t in
      let all' = ahead-begin other in
      let number = ap length all in
      let number' = ap length all' in
      all_keys_loop_lem fuel c.at c.parents c'.at c'.parents (rw all o) (rw all' o') (omega arith)
      ∙ ap (λ xs. is_nil (keep (missing_in xs) (ahead c'))) all
      ∙ ap (λ ys. is_nil (keep (missing_in (to_list t)) ys)) all'
