-- ===== src/AvlTree/Search/Least.antt =====
-- The leftmost node of a tree, include/smashtable/basic_avl_tree.hpp `find_min`.
use smash_table.Base.{ℕ, ◌≡◌, refl, ap, List, ◌∷◌, ◌++◌, All}
use smash_table.Order.{Entry, ◌≺◌}
use smash_table.Sorted.{IsSorted, IsSorted-split}
use smash_table.AvlTree.{Tree, null, node, to_list}
use smash_table.AvlTree.Search.{find, find_min}

module _ {V : Type 0} where
  pub record Least (t : Tree V) : Type 0 where
    pub fruit : V
    pub height : ℕ
    pub right : Tree V
    pub rest : List V
    pub found : find_min t ≡ node null fruit height right
    pub first : to_list t ≡ fruit ∷ rest

  pub least_of : (l : Tree V) (v : V) (h : ℕ) (r : Tree V) → Least (node l v h r)
  unfolding find_min
  least_of null v h r = record {
    fruit = v;
    height = h;
    right = r;
    rest = to_list r;
    found = refl;
    first = refl;
  }
  least_of (node ll lv lh lr) v h r =
      let m = least_of ll lv lh lr in
      record {
        fruit = m.fruit;
        height = m.height;
        right = m.right;
        rest = m.rest ++ v ∷ to_list r;
        found = m.found;
        first = ap (λ xs. xs ++ v ∷ to_list r) m.first;
      }

module _ {V : Type 0} ⦃e : Entry V⦄ where
  -- In a sorted tree the search for the least key finds the leftmost node.
  pub find-find_min :
      (l : Tree V) (v : V) (h : ℕ) (r : Tree V)
      → IsSorted (to_list (node l v h r))
      → find (node l v h r) (e.key (least_of l v h r).fruit) ≡ find_min (node l v h r)
  unfolding find find_min least_of
  find-find_min null v h r o = rw (e.order.less_irrefl (e.key v))
  find-find_min (node ll lv lh lr) v h r o =
      let p = IsSorted-split (to_list (node ll lv lh lr)) v (to_list r) o in
      let m = least_of ll lv lh lr in
      let low : All (λ x. x ≺ v) (m.fruit ∷ m.rest) = rw m.first at p.left_below in
      rw (low.0) (find-find_min ll lv lh lr p.left_sorted)
