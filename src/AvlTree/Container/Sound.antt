-- ===== src/AvlTree/Container/Sound.antt =====
-- The invariant of the AVL container, and what its search finds,
-- include/smashtable/basic_avl_tree.hpp.
use smash_table.Base.{
  ◌≡◌, refl, sym, ◌∙◌, ap, false, not, length, keep, is_nil, is_some, is_some-first_or, arith, List,
  [], ◌∷◌,
}
use smash_table.Order.{Entry}
use smash_table.Sorted.{IsSorted, matches}
use smash_table.AvlTree.{Tree, null, node, is_node, fruit?, to_list, IsValid}
use smash_table.AvlTree.Search.{find}
use smash_table.AvlTree.Search.Sequence.{find_lem}
use smash_table.AvlTree.Container.{Container, empty}

module _ {V : Type 0} ⦃e : Entry V⦄ where
  -- balanced, with right heights, in ascending order of keys, and as large as it says
  pub record IsSound (c : Container V) : Type 0 where
    pub valid : IsValid c.root
    pub sorted : IsSorted (to_list c.root)
    pub counted : c.size ≡ length (to_list c.root)

  pub empty-IsSound : IsSound empty
  empty-IsSound = record {
    valid = record { measured = tt; balanced = tt };
    sorted = tt;
    counted = refl;
  }

  is_some-fruit? : (t : Tree V) → is_some (fruit? t) ≡ is_node t
  is_some-fruit? null = refl
  is_some-fruit? (node l v h r) = refl

  -- the search finds a node exactly where the sequence has an entry of an equivalent key
  pub is_node-find :
      (t : Tree V) (q : e.Key)
      → IsSorted (to_list t)
      → is_node (find t q) ≡ not (is_nil (keep (matches q) (to_list t)))
  is_node-find t q o =
      sym (is_some-fruit? (find t q))
      ∙ ap is_some (find_lem t q o)
      ∙ is_some-first_or (keep (matches q) (to_list t))

  is_nil-eq : (xs : List V) → not (is_nil xs) ≡ false → xs ≡ []
  is_nil-eq [] h = refl
  is_nil-eq (x ∷ xs) h = ground arith

  pub find_missing :
      (t : Tree V) (q : e.Key)
      → IsSorted (to_list t)
      → is_node (find t q) ≡ false
      → keep (matches q) (to_list t) ≡ []
  find_missing t q o h = is_nil-eq (keep (matches q) (to_list t)) (sym (is_node-find t q o) ∙ h)
