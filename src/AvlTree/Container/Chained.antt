-- ===== src/AvlTree/Container/Chained.antt =====
-- Containers all of whose keys are on one side of another's, in the merge of
-- include/smashtable/basic_avl_tree.hpp that assumes unique keys.
use smash_table.Base.{
  ◌≡◌, refl, sym, ◌∙◌, arith, true, inl, inr, length-append, List, [], ◌∷◌, ◌++◌, keep-append,
  All-append, All-imp, append-nil, some, first_or, last_or, none,
}
use smash_table.Order.{Entry, ◌≺◌}
use smash_table.Sorted.{IsSorted, matches}
use smash_table.Sorted.Union.{Apart, Unites, Apart-cases}
use smash_table.AvlTree.{Tree, null, node, fruit?, to_list}
use smash_table.AvlTree.Search.{find_min, find_max}
use smash_table.AvlTree.Search.Sequence.{find_min_lem, find_max_lem}
use smash_table.AvlTree.Container.{Container, ends_before}
use smash_table.AvlTree.Container.Sound.{IsSound}
use smash_table.AvlTree.Container.Linked.{Holds}

module _ {V : Type 0} ⦃e : Entry V⦄ where
  -- The result of a merge of containers without a common key.
  pub record Combines (c other : Container V) (result : Container V × Container V) : Type 1 where
    pub sound : IsSound result.0
    pub union : Unites (to_list c.root) (to_list other.root) (to_list result.0.root)
    pub emptied : Holds result.1 []

  pub chain_after :
      (d : V) (xs : List V) (y : V) (ys : List V) (a : V)
      → IsSorted (d ∷ xs)
      → IsSorted (y ∷ ys)
      → last_or xs (some d) ≡ some a
      → a ≺ y
      → IsSorted (d ∷ (xs ++ y ∷ ys))
  chain_after d [] y ys a ox oy la lt =
      let same : d ≡ a = cc la in
      let near : d ≺ y = rw same lt in
      ((near, All-imp (λ z b. e.order.less_trans _ _ _ near b) ys oy.0), oy)
  chain_after d (x ∷ xs) y ys a ox oy la lt =
      let rest = chain_after x xs y ys a ox.1 oy la lt in
      ((ox.0.0, All-imp (λ z b. e.order.less_trans _ _ _ ox.0.0 b) (xs ++ y ∷ ys) rest.0), rest)

  -- one sequence after the other, the last entry of the first before the first entry of the second
  pub chain :
      (xs ys : List V) (a b : V)
      → IsSorted xs
      → IsSorted ys
      → last_or xs none ≡ some a
      → first_or ys none ≡ some b
      → a ≺ b
      → IsSorted (xs ++ ys)
  chain [] ys a b ox oy la fb lt = oy
  chain (x ∷ xs) [] a b ox oy la fb lt = rw append-nil ox
  chain (x ∷ xs) (y ∷ ys) a b ox oy la fb lt =
      let same : b ≡ y = cc fb in chain_after x xs y ys a ox oy la (rw same at lt)

  pub ends_before_lem :
      (s t : Tree V)
      → ends_before s t ≡ true
      → (a : V) × (b : V) × (fruit? s ≡ some a) × (fruit? t ≡ some b) × (a ≺ b)
  ends_before_lem (node _ a _ _) (node _ b _ _) h = (a, b, refl, refl, h)
  ends_before_lem (node _ a _ _) null h = absurd (ground (arith, h))
  ends_before_lem null t h = absurd (ground (arith, h))

  pub chain_trees :
      (s t : Tree V)
      → IsSorted (to_list s)
      → IsSorted (to_list t)
      → ends_before (find_max s) (find_min t) ≡ true
      → IsSorted (to_list s ++ to_list t)
  chain_trees s t os ot h =
      let (a, b, at_end, at_begin, lt) = ends_before_lem (find_max s) (find_min t) h in
      chain (to_list s) (to_list t) a b os ot (sym (find_max_lem s) ∙ at_end)
        (sym (find_min_lem t) ∙ at_begin) lt

  pub Unites-append : (xs ys : List V) → IsSorted (xs ++ ys) → Unites xs ys (xs ++ ys)
  Unites-append xs ys o = record {
    sorted = o;
    number = length-append xs ys;
    from_both = λ P hx hy. All-append P xs ys hx hy;
    finds = λ q. keep-append (matches q) xs ys;
  }

  pub Unites-swap : (xs ys zs : List V) → Apart xs ys → Unites ys xs zs → Unites xs ys zs
  Unites-swap xs ys zs a u = record {
    sorted = u.sorted;
    number = omega (arith, u.number);
    from_both = λ P hx hy. u.from_both P hy hx;
    finds = λ q. u.finds q ∙ elim (Apart-cases q xs ys a) [
      | inl n ↦ rw n (simp append-nil)
      | inr n ↦ rw n (simp append-nil)
    ];
  }
