-- ===== src/WbTree/Container.antt =====
-- `basic_wb_tree`, include/smashtable/basic_wb_tree.hpp: the root and the number of entries, and
-- the operations of the container. Nodes are freed by going out of the model.
pub mod Sound
pub mod Updates
pub mod Ranges
pub mod Merging
pub mod Unique
use smash_table.Base.{
  ℕ, zero, suc, ◌+◌, ◌-◌, Bool, true, false, Option, none, some, if◌then◌else◌, ◌==◌, not,
}
use smash_table.Order.{Entry}
use smash_table.WbTree.{Tree, null, node, is_node, fruit?, get_size}
use smash_table.WbTree.Search.{find, find_min, find_max}
use smash_table.WbTree.Walk.{for_each_bottom_up}
use smash_table.WbTree.Extract
use smash_table.WbTree.Insert.{NodePlacement, matched, is_made}
use smash_table.WbTree.Insert
use smash_table.WbTree.Join

-- `root_`, `size_`
pub record Container (V : Type 0) : Type 0 where
  pub root : Tree V
  pub size : ℕ

-- what an insertion reports, `upserted_node_t`
pub record UpsertedNode (V : Type 0) : Type 0 where
  pub match : Option V
  pub placement : NodePlacement

abbrev pub to_nat : Bool → ℕ
to_nat true = 1
to_nat false = 0

module _ {V : Type 0} where
  -- a tree that was cleared or moved from
  abbrev pub empty : Container V
  empty = record { root = null; size = 0 }

module _ {V : Type 0} ⦃e : Entry V⦄ where
  unfoldable pub insert : Container V → V → Bool → Container V × UpsertedNode V
  insert c w can_allocate =
      let existing = find c.root (e.key w) in
      let result = Insert.upsert c.root w can_allocate in
      if is_node existing then (c, record { match = fruit? existing; placement = matched }) else (
        record { root = result.root; size = c.size + to_nat (is_made result.placement) },
        record { match = result.match; placement = result.placement },
      )

  -- `insert_or_assign`, of which the method `upsert` is an alias
  unfoldable pub insert_or_assign : Container V → V → Bool → Container V × UpsertedNode V
  insert_or_assign c w can_allocate =
      let result = Insert.upsert c.root w can_allocate in
      (
        record { root = result.root; size = c.size + to_nat (is_made result.placement) },
        record { match = result.match; placement = result.placement },
      )

  unfoldable pub contains : Container V → e.Key → Bool
  contains c q = is_node (find c.root q)

  unfoldable pub count : Container V → e.Key → ℕ
  unfolding contains
  count c q = if contains c q then 1 else 0

  -- the tree without the key, and the node that was taken out
  unfoldable pub extract : Container V → e.Key → Container V × Tree V
  extract c q =
      let result = Extract.extract c.root q in
      (
        record { root = result.root; size = c.size - to_nat (is_node result.extracted) },
        result.extracted,
      )

  unfoldable pub erase : Container V → e.Key → Container V × Bool
  unfolding extract
  erase c q = let (c', taken) = extract c q in (c', is_node taken)

  -- the number returned is that of the entries that went
  unfoldable pub erase_if : Container V → (V → Bool) → Container V × ℕ
  erase_if c predicate =
      let result = Join.erase_if c.root predicate in
      (record { root = result.root; size = result.count }, c.size - result.count)

  -- the callback writes to a state `S`; each erased entry is handed to it once
  unfoldable pub erase_range :
      {S : Type 0} → Container V → e.Key → e.Key → (V → S → S) → S → Container V × S
  erase_range c lower upper callback s =
      let below = Join.split c.root lower in
      let within = Join.split below.right upper in
      let (s', deleted) =
        for_each_bottom_up within.left (λ v r. (callback v r.0, r.1 + 1)) (s, 0) in
      if is_node c.root
      then (record { root = Join.join below.left within.right; size = c.size - deleted }, s')
      else (c, s)

  -- `merge` of an extracted node; one with a key that is present is dropped
  unfoldable pub merge_node : Container V → Tree V → Container V
  merge_node c null = c
  merge_node c (node l v s a r) =
      let result = Insert.insert c.root (node l v s a r) in
      record { root = result.root; size = c.size + to_nat (is_made result.placement) }

  -- the loop of `merge`; the second tree is the one that is emptied
  unfoldable pub merge_loop : ℕ → Container V → Container V → Container V × Container V
  unfolding extract merge_node
  merge_loop zero c other = (c, other)
  merge_loop (suc fuel) c other =
      let next = λ (v : V).
        let (other', taken) = extract other (e.key v) in
        merge_loop fuel (if is_node taken then merge_node c taken else c) other' in
      if other.size == 0
      then (c, other)
      else elim other.root [ null ↦ (c, other) | node _ v _ _ _ ↦ next v ]

  unfoldable pub merge : Container V → Container V → Container V × Container V
  unfolding merge_loop
  merge c other = merge_loop (other.size + 1) c other

  -- `join(other)`: the entries of this tree come before those of the other
  unfoldable pub join : Container V → Container V → Container V × Container V
  join c other =
      if not (is_node other.root)
      then (c, other)
      else (if not (is_node c.root)
          then (other, empty)
          else (record { root = Join.join c.root other.root; size = c.size + other.size }, empty))

  -- `merge(other, assume_unique)` of two trees that have entries, by the largest here and the
  -- smallest there: joined where every key here is below every key there
  unfoldable pub merge_apart :
      Container V → Container V → Tree V → Tree V → Container V × Container V
  unfolding merge
  merge_apart c other null other_min = (c, other)
  merge_apart c other (node _ _ _ _ _) null = (c, other)
  merge_apart c other (node _ this_max _ _ _) (node _ other_min _ _ _) =
      if e.less (e.key this_max) (e.key other_min)
      then (record { root = Join.join c.root other.root; size = c.size + other.size }, empty)
      else merge c other

  unfoldable pub merge_unique : Container V → Container V → Container V × Container V
  unfolding merge_apart
  merge_unique c other =
      if other.size == 0
      then (c, other)
      else (if c.size == 0
          then (other, empty)
          else merge_apart c other (find_max c.root) (find_min other.root))

  -- both parts; the tree itself is left empty
  unfoldable pub split : Container V → e.Key → Container V × Container V
  split c q =
      let result = Join.split c.root q in
      (
        record { root = result.left; size = get_size result.left },
        record { root = result.right; size = get_size result.right },
      )
