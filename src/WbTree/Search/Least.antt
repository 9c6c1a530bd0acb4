-- ===== src/WbTree/Search/Least.antt =====
-- The leftmost node of a tree, include/smashtable/basic_wb_tree.hpp `find_min`.
use smash_table.Base.{ℕ, ◌≡◌, refl, ap, List, ◌∷◌, ◌++◌, All}
use smash_table.Order.{Entry, ◌≺◌}
use smash_table.Sorted.{IsSorted, IsSorted-split}
use smash_table.WbTree.{Tree, null, node, to_list}
use smash_table.WbTree.Search.{find, find_min}

module _ {V : Type 0} where
  pub record Least (t : Tree V) : Type 0 where
    pub fruit : V
    pub size : ℕ
    pub augmented_size : ℕ
    pub right : Tree V
    pub rest : List V
    pub found : find_min t ≡ node null fruit size augmented_size right
    pub first : to_list t ≡ fruit ∷ rest

  pub least_of : (l : Tree V) (v : V) (s a : ℕ) (r : Tree V) → Least (node l v s a r)
  unfolding find_min
  least_of null v s a r = record {
    fruit = v;
    size = s;
    augmented_size = a;
    right = r;
    rest = to_list r;
    found = refl;
    first = refl;
  }
  least_of (node ll lv ls la lr) v s a r =
      let m = least_of ll lv ls la lr in
      record {
        fruit = m.fruit;
        size = m.size;
        augmented_size = m.augmented_size;
        right = m.right;
        rest = m.rest ++ v ∷ to_list r;
        found = m.found;
        first = ap (λ xs. xs ++ v ∷ to_list r) m.first;
      }

module _ {V : Type 0} ⦃e : Entry V⦄ where
  -- In a sorted tree the search for the least key finds the leftmost node.
  pub find-find_min :
      (l : Tree V) (v : V) (s a : ℕ) (r : Tree V)
      → IsSorted (to_list (node l v s a r))
      → find (node l v s a r) (e.key (least_of l v s a r).fruit) ≡ find_min (node l v s a r)
  unfolding find find_min least_of
  find-find_min null v s a r h = rw (e.order.less_irrefl (e.key v))
  find-find_min (node ll lv ls la lr) v s a r h =
      let p = IsSorted-split (to_list (node ll lv ls la lr)) v (to_list r) h in
      let m = least_of ll lv ls la lr in
      let low : All (λ x. x ≺ v) (m.fruit ∷ m.rest) = rw m.first at p.left_below in
      rw (low.0) (find-find_min ll lv ls la lr p.left_sorted)
