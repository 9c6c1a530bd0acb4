-- ===== src/AvlTree/Container.antt =====
-- `basic_avl_tree`, include/smashtable/basic_avl_tree.hpp: the root and the number of entries, and
-- the operations of the container. `can_allocate` says whether the allocator has a node to give.
-- Nodes are freed by going out of the model, and a link to a parent is where a node stands.
pub mod Sound
pub mod Linked
pub mod Updates
pub mod Ranges
pub mod Merging
pub mod Chained
pub mod Unique
pub mod Bulk
use smash_table.Base.{
  ℕ, ◌+◌, ◌-◌, ◌*◌, ◌&&◌, Bool, true, false, Option, none, some, if◌then◌else◌, ◌==◌, ltb,
}
use smash_table.Order.{Entry}
use smash_table.Placement.{NodePlacement, refused, matched, made, is_made}
use smash_table.AvlTree.{Tree, null, node, is_node, fruit?}
use smash_table.AvlTree.Search.{find, find_min, find_max}
use smash_table.AvlTree.Insert
use smash_table.AvlTree.Extract
use smash_table.AvlTree.Join
use smash_table.AvlTree.Merge.{merge_split_based, merge_dsw}

-- `root_`, `size_`
pub record Container (V : Type 0) : Type 0 where
  pub root : Tree V
  pub size : ℕ

-- what an insertion reports, `upserted_node_t` and `inserted_iterator_t`
pub record Placed (V : Type 0) : Type 0 where
  pub match : Option V
  pub placement : NodePlacement

-- the outcomes of `insert`
pub data InsertStatus : Type 0 where
  inserted key_already_exists out_of_memory_heap : InsertStatus

abbrev pub to_nat : Bool → ℕ
to_nat true = 1
to_nat false = 0

-- the number of entries from which trees of like sizes are merged by flattening
abbrev pub dsw_threshold_k : ℕ
dsw_threshold_k = 10000

abbrev pub size_ratio_threshold_k : ℕ
size_ratio_threshold_k = 3

abbrev pub smaller_of : ℕ → ℕ → ℕ
smaller_of a b = if ltb b a then b else a

-- whether two trees of these sizes are merged by flattening
unfoldable pub prefers_dsw : ℕ → ℕ → Bool
prefers_dsw size other_size =
    let min_size = smaller_of size other_size in
    let max_size = if ltb size other_size then other_size else size in
    ltb dsw_threshold_k min_size && ltb max_size (min_size * size_ratio_threshold_k)

module _ {V : Type 0} where
  -- a tree that was cleared or moved from
  abbrev pub empty : Container V
  empty = record { root = null; size = 0 }

  -- `for_each_bottom_up`, its callback a function of the state that it writes to
  unfoldable pub for_each_bottom_up : {S : Type 0} → Tree V → (V → S → S) → S → S
  for_each_bottom_up null callback s = s
  for_each_bottom_up (node l v _ r) callback s =
      callback v (for_each_bottom_up r callback (for_each_bottom_up l callback s))

  -- the callback's state and the number of the entries that it saw
  abbrev pub counted_callback : {S : Type 0} → (V → S → S) → V → S × ℕ → S × ℕ
  counted_callback callback v (s, n) = (callback v s, n + 1)

module _ {V : Type 0} ⦃e : Entry V⦄ where
  -- a node of the allocator with its entry, linked into the tree
  unfoldable pub link_new : Container V → V → Container V × Placed V
  link_new c w =
      let result = Insert.insert c.root (node null w 0 null) in
      (
        record { root = result.root; size = c.size + to_nat (is_made result.placement) },
        record { match = result.match; placement = result.placement },
      )

  unfoldable pub insert_if_missing : Container V → V → Bool → Container V × Placed V
  unfolding link_new
  insert_if_missing c w can_allocate =
      let existing = find c.root (e.key w) in
      if is_node existing
      then (c, record { match = fruit? existing; placement = matched })
      else (if can_allocate
          then link_new c w
          else (c, record { match = none; placement = refused }))

  -- The insertion that the probe allows makes a node.
  unfoldable pub insert : Container V → V → Bool → Container V × InsertStatus
  insert c w can_allocate =
      let linked = link_new c w in
      if is_node (find c.root (e.key w))
      then (c, key_already_exists)
      else (if can_allocate
          then (
            linked.0,
            elim linked.1.placement [
              | refused ↦ out_of_memory_heap
              | matched ↦ key_already_exists
              | made ↦ inserted
            ],
          )
          else (c, out_of_memory_heap))

  -- `*existing = …`, the entry of the node that the key finds
  unfoldable pub assign : Tree V → e.Key → V → Tree V
  assign null q w = null
  assign (node l v h r) q w =
      if e.less q (e.key v)
      then node (assign l q w) v h r
      else (if e.less (e.key v) q then node l v h (assign r q w) else node l w h r)

  unfoldable pub upsert : Container V → V → Bool → Container V × Placed V
  unfolding link_new assign
  upsert c w can_allocate =
      if is_node (find c.root (e.key w))
      then (
        record c { root = assign c.root (e.key w) w },
        record { match = some w; placement = matched },
      )
      else (if can_allocate
          then link_new c w
          else (c, record { match = none; placement = refused }))

  unfoldable pub contains : Container V → e.Key → Bool
  contains c q = is_node (find c.root q)

  unfoldable pub count : Container V → e.Key → ℕ
  count c q = to_nat (is_node (find c.root q))

  unfoldable pub extract : Container V → e.Key → Container V × Tree V
  extract c q =
      let result = Extract.extract c.root q in
      (
        record { root = result.root; size = c.size - to_nat (is_node result.extracted) },
        result.extracted,
      )

  unfoldable pub erase : Container V → e.Key → Container V × Bool
  unfolding extract
  erase c q = let extracted = extract c q in (extracted.0, is_node extracted.1)

  unfoldable pub erase_if : Container V → (V → Bool) → Container V × ℕ
  erase_if c predicate =
      let result = Join.erase_if c.root predicate in
      (record { root = result.root; size = result.count }, c.size - result.count)

  unfoldable pub erase_range :
      {S : Type 0} → (V → S → S) → Container V → e.Key → e.Key → S → Container V × S
  unfolding for_each_bottom_up
  erase_range callback c lower upper s =
      let split1 = Join.split c.root lower in
      let split2 = Join.split split1.right upper in
      let deleted = for_each_bottom_up split2.left (counted_callback callback) (s, 0) in
      if is_node c.root
      then (
        record { root = Join.join split1.left split2.right; size = c.size - deleted.1 },
        deleted.0,
      )
      else (c, s)

  unfoldable pub clear : Container V → Container V
  clear c = empty

  -- `merge(extract_result_t)`
  unfoldable pub merge_node : Container V → Tree V → Container V
  merge_node c extracted =
      let result = Insert.insert c.root extracted in
      if is_node extracted
      then record { root = result.root; size = c.size + to_nat (is_made result.placement) }
      else c

  -- the callback of `merge(basic_avl_tree &)`, on a node of the other tree
  unfoldable pub merge_entry : V → Container V → Container V
  merge_entry v c =
      let result = Insert.insert c.root (node null v 0 null) in
      record { root = result.root; size = c.size + to_nat (is_made result.placement) }

  unfoldable pub merge : Container V → Container V → Container V × Container V
  unfolding merge_entry for_each_bottom_up
  merge c other = (for_each_bottom_up other.root merge_entry c, empty)

  -- the callback of `merge_with_upsert`: an entry whose key is here takes the place of the one here
  unfoldable pub upsert_entry : V → Container V → Container V
  unfolding assign
  upsert_entry v c =
      let result = Insert.insert c.root (node null v 0 null) in
      let root : Tree V = elim result.placement [
        | refused ↦ result.root
        | matched ↦ assign result.root (e.key v) v
        | made ↦ result.root
      ] in
      record { root = root; size = c.size + to_nat (is_made result.placement) }

  unfoldable pub merge_with_upsert : Container V → Container V → Container V × Container V
  unfolding upsert_entry for_each_bottom_up
  merge_with_upsert c other =
      if other.size == 0
      then (c, other)
      else (if c.size == 0
          then (other, empty)
          else (for_each_bottom_up other.root upsert_entry c, empty))

  -- the entry of one node is before that of another
  abbrev pub ends_before : Tree V → Tree V → Bool
  ends_before (node _ a _ _) (node _ b _ _) = e.less (e.key a) (e.key b)
  ends_before (node _ a _ _) null = false
  ends_before null b = false

  -- `merge(basic_avl_tree &, assume_unique_t)`; `none` if the fuel of the flattening ran out
  unfoldable pub merge_unique : ℕ → Container V → Container V → Option (Container V × Container V)
  merge_unique fuel c other =
      let flattened : Option (Container V × Container V) = elim (merge_dsw fuel c.root other.root) [
        | none ↦ none
        | some (root, size) ↦ some (record { root = root; size = size }, empty)
      ] in
      let small = if ltb c.size other.size then c.root else other.root in
      let large = if ltb c.size other.size then other.root else c.root in
      let joined : Tree V → Option (Container V × Container V) =
        λ root. some (record { root = root; size = c.size + other.size }, empty) in
      if other.size == 0
      then some (c, other)
      else (if c.size == 0
          then some (other, empty)
          else (if ends_before (find_max c.root) (find_min other.root)
              then joined (Join.join c.root other.root)
              else (if ends_before (find_max other.root) (find_min c.root)
                  then joined (Join.join other.root c.root)
                  else (if prefers_dsw c.size other.size
                      then flattened
                      else joined (merge_split_based small large)))))

  -- `for_each_left_right` with a callback that counts
  unfoldable pub count_nodes : Tree V → ℕ
  count_nodes null = 0
  count_nodes (node l _ _ r) = count_nodes l + 1 + count_nodes r

  unfoldable pub split : Container V → e.Key → Container V × Container V
  unfolding count_nodes
  split c q =
      let halves = Join.split c.root q in
      (
        record { root = halves.left; size = count_nodes halves.left },
        record { root = halves.right; size = count_nodes halves.right },
      )

  unfoldable pub join : Container V → Container V → Container V × Container V
  join c other = (record { root = Join.join c.root other.root; size = c.size + other.size }, empty)
