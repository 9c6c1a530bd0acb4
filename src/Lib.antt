-- ===== src/Lib.antt =====
-- A verification library for SmashTable: a model of its ordered containers and the theorems that
-- make them correct.
--
-- The program is a header-only C++ library. `basic_wb_tree` (include/smashtable/basic_wb_tree.hpp)
-- is its ordered container: a weight-balanced tree with order statistics and an optional second
-- count per subtree, the augmentation. `basic_avl_tree` (include/smashtable/basic_avl_tree.hpp) is
-- the other ordered container, balanced by heights, with iterators. `monotonic_store`
-- (include/smashtable/monotonic_store.hpp)
-- keeps a chain of versions under each key of such a container, or of a hash table, and lets
-- transactions stage their changes invisibly, and then publish them at once or take them back. The
-- vocabulary of versions, stamps and watches is in include/smashtable/shared.hpp.
--
-- Which file models which part:
-- Base and its children hold the helpers on lists, numbers and Booleans. Order is the comparator,
--   the key of an entry (`mapping_key_or_itself`) and the augmentation policy, all parameters.
--   Sorted is the abstract view of a container: sequences of entries in ascending order of keys,
--   with `place` and `without` as what an insertion and a removal mean; Sorted/Union is the union of two
--   of them without a common key.
-- WbTree is `basic_wb_node`: the node, its two stored counts, weights. Its children follow the
--   regions of the class: Search, Statistics, Walk, Rotate, Extract, Insert, Join. Their own
--   children hold the theorems. WbTree/Container is `basic_wb_tree`.
-- AvlTree is `basic_avl_node`: the node and its height. Its children are Search, Rotate, Insert,
--   Extract, Join (`join`, `split`, `erase_if`), Merge (both merges of trees without a common key),
--   Cursor (iterators and what walks with them) and Height (sequences of calls). AvlTree/Container is
--   `basic_avl_tree`.
--   Placement is `node_placement_t`, which both trees have.
-- HashTable is `basic_hash_table` (include/smashtable/basic_hash_table.hpp) over `hash_storage`
--   (include/smashtable/hash_layout.hpp). HashTable/Sizes has the slot counts, HashTable/Probes the
--   three probes, HashTable/Growth the memory, HashTable/Updates the calls and HashTable/Runs sequences
--   of them against the finite map of Monotonic/Index, which the stores take their container to be.
--   HashTable/Sound is the invariant.
-- Monotonic is the vocabulary. Monotonic/Index is what a store needs of its container: a finite map
--   under an equality of keys, for which the two kinds of container stand. Monotonic/Chain is one
--   key's chain of versions, Monotonic/Store the store with its reads and direct writes,
--   Monotonic/Transaction a transaction up to `stage`, and Monotonic/Commit its ends. Their children
--   hold the theorems, most of them key by key.
-- Tests holds concrete trees, containers and stores, at which the theorems are applied.
--
-- How code and model correspond: a node pointer is the subtree that it roots, `null` is nullptr; a
-- function that rewires nodes in place and returns the new root is a function from trees to trees.
-- Every function of the class takes the links of a node apart before it makes new ones, so that no
-- node is reachable twice. Sizes are unbounded naturals for `size_t`: a count never exceeds the
-- number of nodes in memory. A node allocator is a Boolean that says whether it has a node to give;
-- an insertion asks once at most. A callback is a function of the state that it writes to. Loops are
-- recursion on the tree; `merge_loop` alone takes fuel, one more than the number of entries to move.
--
-- The hash table is the map, whose slots hold a key and a value. Its buffer is a function from offsets,
-- of which those below the slot count are used; masking by a power of two less one is the remainder.
-- The hash is a parameter that equal keys share, `size_t` has 64 bits, and an allocation is a Boolean.
-- What `rehash` and `reserve_more` compute of their argument wraps at 64 bits; `slots_count * 3` in
-- `make` would only at 2 ^ 63 slots, more than memory holds, and is the true product.
-- The bounded probes count down their slots. The one loop without a bound, that of `probe_to_find`, is
-- on fuel for a round of the table, and is shown to end within it.
--
-- The AVL tree: a node with its parent pointer is a cursor, the subtree and the path from it to the
-- root; functions that do not read the parent pointers are modelled on plain trees. A spine, a tree
-- of right links, is the list of its entries. The loop of `tree_to_spine` has fuel for two rounds a
-- node and one more, and the walks of iterators for a round an entry and one more; the theorems show
-- that this is enough.
--
-- The store: generations and stamps are unbounded naturals for `int64_t`, with the sentinel
-- `uncommitted_k` at its value; theorems on visibility suppose that the clock of commits is below
-- it. A chain has its inline version and the list of overflow nodes. Each allocation that may fail is
-- a Boolean of a record such as `StagingMemory`. The loop of `unmask_and_compact_` is on fuel, the
-- number of versions of the chain, as every round takes one out or is the last. One thread at a time
-- calls a store, as the code asks for.
--
-- Not modelled: freeing of nodes, sampling, iterators of the weight-balanced tree, insertions of ranges
-- said to be sorted into the AVL tree and of ranges into the hash table, hash sets,
-- iterators and copies of hash tables, bulk and ranged
-- operations of the store, its merged ordered reads, the other stores, the atomic hash table and the
-- Python bindings.
pub mod Base
pub mod Order
pub mod Sorted
pub mod Placement
pub mod HashTable
pub mod WbTree
pub mod AvlTree
pub mod Monotonic
pub mod Tests
