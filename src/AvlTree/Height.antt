-- ===== src/AvlTree/Height.antt =====
-- How high the tree of an AVL container gets, include/smashtable/basic_avl_tree.hpp.
use native.Mathlib.Numerals.{towards_suc}
use smash_table.Base.{
  ℕ, zero, suc, ◌+◌, ◌*◌, ◌/◌, ◌^◌, ◌≤◌, ◌≡◌, arith, Bool, List, [], ◌∷◌, length, length-append,
  inl, inr, Bool-cases, ltb, ltb→lt, ltb-eq-false, ◌∙◌,
}
use smash_table.AvlTree.{Tree, null, node, get_height, to_list, IsValid}
use smash_table.Order.{Entry}
use smash_table.AvlTree.Container.{Container, empty, upsert, insert_if_missing, erase}
use smash_table.AvlTree.Container.Sound.{IsSound, empty-IsSound}
use smash_table.AvlTree.Container.Updates.{upsert-Holds, insert_if_missing_lem, erase-Holds}
use smash_table.AvlTree.Rotate.Heavy.{IsValid-left, IsValid-right}

-- the least number of nodes of a tree of a height
least_size : ℕ → ℕ
least_size zero = 0
least_size (suc zero) = 1
least_size (suc (suc h)) = least_size (suc h) + least_size h + 1

least_size_step : (h : ℕ) → least_size h ≤ least_size (suc h)
unfolding least_size
least_size_step zero = omega arith
least_size_step (suc h) = omega arith

least_size_node :
    (a b : ℕ) → b ≤ a → a ≤ b + 1 → least_size (suc a) ≤ least_size a + least_size b + 1
unfolding least_size
least_size_node zero b x y = omega arith
least_size_node (suc a) b x y = ground (arith, least_size_step a)

two_levels : (k h : ℕ) → 2 * k ≤ h → 2 ^ k ≤ least_size h + 1
unfolding least_size
two_levels zero h b = simp towards_suc (omega arith)
two_levels (suc k) zero b = absurd (omega arith)
two_levels (suc k) (suc zero) b = absurd (omega arith)
two_levels (suc k) (suc (suc h)) b =
    let lower = two_levels k h (omega arith) in
    let step = least_size_step h in simp towards_suc (omega arith)

module _ {V : Type 0} where
  least_size-le : (t : Tree V) → IsValid t → least_size (get_height t) ≤ length (to_list t)
  unfolding least_size
  least_size-le null w = omega arith
  least_size-le (node l v h r) w =
      let on_left = least_size-le l (IsValid-left w) in
      let on_right = least_size-le r (IsValid-right w) in
      let b = w.balanced in
      let number = length-append (to_list l) (v ∷ to_list r) in
      elim (Bool-cases (ltb (get_height l) (get_height r))) [
        | inl t ↦
            let lower = ltb→lt _ _ t in
            let least = least_size_node (get_height r) (get_height l) (omega arith) (omega arith) in
            let top : h ≡ suc (get_height r) = rw t at w.measured.0 ∙ omega arith in
            rw top (omega arith)
        | inr t ↦
            let lower = ltb-eq-false _ _ t in
            let least = least_size_node (get_height l) (get_height r) (omega arith) (omega arith) in
            let top : h ≡ suc (get_height l) = rw t at w.measured.0 ∙ omega arith in
            rw top (omega arith)
      ]

  height_bound :
      (t : Tree V) (k : ℕ) → IsValid t → 2 * k ≤ get_height t → 2 ^ k ≤ length (to_list t) + 1
  height_bound t k w b = omega (arith, two_levels k (get_height t) b, least_size-le t w)

-- a call of the container, with what the allocator would answer
pub data Command (V K : Type 0) : Type 0 where
  upserts inserts : V → Bool → Command V K
  erases : K → Command V K

module _ {V : Type 0} ⦃e : Entry V⦄ where
  -- the calls one after another
  pub run : Container V → List (Command V e.Key) → Container V
  run c [] = c
  run c (upserts w can_allocate ∷ calls) = run (upsert c w can_allocate).0 calls
  run c (inserts w can_allocate ∷ calls) = run (insert_if_missing c w can_allocate).0 calls
  run c (erases q ∷ calls) = run (erase c q).0 calls

  run-IsSound :
      (c : Container V) (calls : List (Command V e.Key)) → IsSound c → IsSound (run c calls)
  unfolding run
  run-IsSound c [] h = h
  run-IsSound c (upserts w can_allocate ∷ calls) h =
      run-IsSound (upsert c w can_allocate).0 calls (upsert-Holds c w can_allocate h).0.sound
  run-IsSound c (inserts w can_allocate ∷ calls) h =
      run-IsSound (insert_if_missing c w can_allocate).0 calls
        (insert_if_missing_lem c w can_allocate h).0.sound
  run-IsSound c (erases q ∷ calls) h = run-IsSound (erase c q).0 calls (erase-Holds c q h).0.sound

  -- After any sequence of upserts, insertions of missing keys and erasures of an empty container,
  -- whatever the allocator answers, half the height of its tree is at most the logarithm of its size and
  -- one: it has at least 2 ^ (height / 2) - 1 entries.
  pub run-height :
      (calls : List (Command V e.Key))
      → 2 ^ (get_height (run empty calls).root / 2) ≤ (run empty calls).size + 1
  run-height calls =
      let h = run-IsSound empty calls empty-IsSound in
      let t = (run empty calls).root in
      omega (arith, h.counted, height_bound t (get_height t / 2) h.valid (omega arith))
