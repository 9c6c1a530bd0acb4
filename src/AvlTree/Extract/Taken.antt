-- ===== src/AvlTree/Extract/Taken.antt =====
-- The node that an extraction takes out, include/smashtable/basic_avl_tree.hpp.
use smash_table.Base.{ℕ, ◌≡◌, refl, arith, false, ◌∙◌, ap}
use smash_table.Order.{Entry}
use smash_table.Sorted.{IsSorted}
use smash_table.AvlTree.{Tree, null, node, is_node, to_list}
use smash_table.AvlTree.Search.{find}
use smash_table.AvlTree.Search.Least.{least_of, find-find_min}
use smash_table.AvlTree.Extract.{ExtractResult, extract_root, extract}

module _ {V : Type 0} ⦃e : Entry V⦄ where
  -- a found node, alone
  abbrev pub detached : Tree V → Tree V
  detached null = null
  detached (node _ v _ _) = node null v 1 null

  pub extracted-extract_root :
      (l : Tree V) (v : V) (h : ℕ) (r : Tree V) (from_right : e.Key → ExtractResult V)
      → (extract_root (node l v h r) from_right).extracted ≡ node null v 1 null
  unfolding extract_root
  extracted-extract_root null v h null f = refl
  extracted-extract_root (node ll lv lh lr) v h null f = refl
  extracted-extract_root null v h (node rl rv rh rr) f = refl
  extracted-extract_root (node ll lv lh lr) v h (node rl rv rh rr) f =
      rw ((least_of rl rv rh rr).found, extract_root)

  -- It is the node that the search finds, with its links cleared; none where none is found.
  pub extracted-extract : (t : Tree V) (q : e.Key) → (extract t q).extracted ≡ detached (find t q)
  unfolding extract find
  extracted-extract null q = refl
  extracted-extract (node l v h r) q = ground (
    arith,
    extracted-extract l q,
    extracted-extract r q,
    extracted-extract_root l v h r (extract r),
  )

  -- where nothing is taken out the tree stays as it is
  pub extract-missing :
      (t : Tree V) (q : e.Key) → is_node (extract t q).extracted ≡ false → (extract t q).root ≡ t
  unfolding extract
  extract-missing null q m = refl
  extract-missing (node l v h r) q m =
      ground (
        arith,
        extract-missing l q,
        extract-missing r q,
        extracted-extract_root l v h r (extract r),
      )

  -- the least entry of a sorted tree, taken out
  pub extracted_least :
      (l : Tree V) (v : V) (h : ℕ) (r : Tree V)
      → IsSorted (to_list (node l v h r))
      → (extract (node l v h r) (e.key (least_of l v h r).fruit)).extracted
        ≡ node null (least_of l v h r).fruit 1 null
  extracted_least l v h r o =
      extracted-extract (node l v h r) (e.key (least_of l v h r).fruit)
      ∙ ap detached (find-find_min l v h r o ∙ (least_of l v h r).found)
