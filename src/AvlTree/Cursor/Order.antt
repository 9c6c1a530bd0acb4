-- ===== src/AvlTree/Cursor/Order.antt =====
-- Where the iterators of the AVL tree stand, include/smashtable/basic_avl_tree.hpp: what lies
-- behind and ahead of a position in the sequence of the tree.
use smash_table.Base.{
  ℕ, ◌≡◌, refl, sym, ◌∙◌, inl, inr, List, [], ◌∷◌, ◌++◌, append_assoc, append-nil, Bool-cases, keep,
}
use smash_table.Order.{Entry, less_asymm}
use smash_table.Sorted.{
  IsSorted, IsSorted-split, not_below, keep-not_below_left, keep-not_below_right,
}
use smash_table.AvlTree.{Tree, null, node, to_list}
use smash_table.AvlTree.Cursor.{
  Parents, Cursor, top, left_of, right_of, find_min_at, climb_from_left, next_of, begin,
  lower_bound_at,
}

module _ {V : Type 0} where
  -- the entries after the subtree that hangs at a path, and before it
  abbrev pub after : Parents V → List V
  after top = []
  after (left_of v _ r up) = v ∷ to_list r ++ after up
  after (right_of _ _ _ up) = after up

  abbrev pub before : Parents V → List V
  before top = []
  before (left_of _ _ _ up) = before up
  before (right_of l v _ up) = before up ++ to_list l ++ v ∷ []

  -- the entries from a position on
  abbrev pub ahead_at : Tree V → Parents V → List V
  ahead_at null up = []
  ahead_at (node _ v _ r) up = v ∷ to_list r ++ after up

  abbrev pub ahead : Cursor V → List V
  ahead c = ahead_at c.at c.parents

  -- the tree around a position
  abbrev pub whole : Tree V → Parents V → Tree V
  whole t top = t
  whole t (left_of v h r up) = whole (node t v h r) up
  whole t (right_of l v h up) = whole (node l v h t) up

  ahead-find_min_at :
      (l : Tree V) (v : V) (h : ℕ) (r : Tree V) (up : Parents V)
      → ahead (find_min_at (node l v h r) up) ≡ to_list (node l v h r) ++ after up
  unfolding find_min_at
  ahead-find_min_at null v h r up = refl
  ahead-find_min_at (node ll lv lh lr) v h r up =
      ahead-find_min_at ll lv lh lr (left_of v h r up) ∙ sym (append_assoc _ (v ∷ to_list r) _)

  ahead-climb_from_left : (t : Tree V) (up : Parents V) → ahead (climb_from_left t up) ≡ after up
  unfolding climb_from_left
  ahead-climb_from_left t top = refl
  ahead-climb_from_left t (left_of v h r up) = refl
  ahead-climb_from_left t (right_of l v h up) = ahead-climb_from_left (node l v h t) up

  -- An increment leaves the entry of its node behind.
  pub ahead-next_of :
      (l : Tree V) (v : V) (h : ℕ) (r : Tree V) (up : Parents V)
      → ahead (next_of (node l v h r) up) ≡ to_list r ++ after up
  unfolding next_of
  ahead-next_of l v h null up = ahead-climb_from_left (node l v h null) up
  ahead-next_of l v h (node rl rv rh rr) up = ahead-find_min_at rl rv rh rr (right_of l v h up)

  pub ahead-begin : (t : Tree V) → ahead (begin t) ≡ to_list t
  unfolding begin
  ahead-begin null = refl
  ahead-begin (node l v h r) = ahead-find_min_at l v h r top ∙ append-nil _

module _ {V : Type 0} ⦃e : Entry V⦄ where
  pub ahead-lower_bound_at :
      (t : Tree V) (up : Parents V) (q : e.Key) (successor : Cursor V)
      → IsSorted (to_list t)
      → ahead successor ≡ after up
      → ahead (lower_bound_at t up q successor) ≡ keep (not_below q) (to_list t) ++ after up
  unfolding lower_bound_at
  ahead-lower_bound_at null up q successor o a = a
  ahead-lower_bound_at (node l v h r) up q successor o a =
      let p = IsSorted-split (to_list l) v (to_list r) o in
      let here : Cursor V = record { at = node l v h r; parents = up } in
      elim (Bool-cases (e.less q (e.key v))) [
        | inl t ↦
            rw (t, keep-not_below_left q (to_list l) v (to_list r) p (less_asymm e.order _ _ t))
              (ahead-lower_bound_at l (left_of v h r up) q here p.left_sorted refl
                ∙ sym (append_assoc _ (v ∷ to_list r) _))
        | inr t ↦ elim (Bool-cases (e.less (e.key v) q)) [
          | inl u ↦
              rw (t, u, keep-not_below_right q (to_list l) v (to_list r) p u)
                (ahead-lower_bound_at r (right_of l v h up) q successor p.right_sorted a)
          | inr u ↦
              rw (t, u, keep-not_below_left q (to_list l) v (to_list r) p u)
                (ahead-lower_bound_at l (left_of v h r up) q here p.left_sorted refl
                  ∙ sym (append_assoc _ (v ∷ to_list r) _))
        ]
      ]
