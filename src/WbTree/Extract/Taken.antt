-- ===== src/WbTree/Extract/Taken.antt =====
-- The node that an extraction takes out, include/smashtable/basic_wb_tree.hpp.
use smash_table.Base.{ℕ, ◌≡◌, refl, arith, false}
use smash_table.Order.{Entry}
use smash_table.WbTree.{Tree, null, node, is_node, reset_to_leaf}
use smash_table.WbTree.Search.{find}
use smash_table.WbTree.Search.Least.{least_of}
use smash_table.WbTree.Extract.{ExtractResult, extract_root, extract}

module _ {V : Type 0} ⦃e : Entry V⦄ where
  -- a found node, alone
  abbrev pub detached : Tree V → Tree V
  detached null = null
  detached (node _ v s a _) = reset_to_leaf (node null v s a null)

  pub extracted-extract_root :
      (l : Tree V) (v : V) (s a : ℕ) (r : Tree V) (from_right : e.Key → ExtractResult V)
      → (extract_root (node l v s a r) from_right).extracted ≡ reset_to_leaf (node null v s a null)
  unfolding extract_root
  extracted-extract_root null v s a null f = refl
  extracted-extract_root (node ll lv ls la lr) v s a null f = refl
  extracted-extract_root null v s a (node rl rv rs ra rr) f = refl
  extracted-extract_root (node ll lv ls la lr) v s a (node rl rv rs ra rr) f =
      rw ((least_of rl rv rs ra rr).found, extract_root)

  -- It is the node that the search finds, with its links cleared; none where none is found.
  pub extracted-extract : (t : Tree V) (q : e.Key) → (extract t q).extracted ≡ detached (find t q)
  unfolding extract find
  extracted-extract null q = refl
  extracted-extract (node l v s a r) q = ground (
    arith,
    extracted-extract l q,
    extracted-extract r q,
    extracted-extract_root l v s a r (extract r),
  )

  -- where nothing is taken out the tree stays as it is
  pub extract-missing :
      (t : Tree V) (q : e.Key) → is_node (extract t q).extracted ≡ false → (extract t q).root ≡ t
  unfolding extract
  extract-missing null q m = refl
  extract-missing (node l v s a r) q m = ground (
    arith,
    extract-missing l q,
    extract-missing r q,
    extracted-extract_root l v s a r (extract r),
  )
