-- ===== src/Tests/TreeExamples.antt =====
-- The theorems on the operations of nodes, include/smashtable/basic_wb_tree.hpp, at the sample tree.
use smash_table.Base.{ℕ, ◌+◌, ◌≡◌, refl, arith, true, keep, length, get_elem?}
use smash_table.Sorted.{below}
use smash_table.Tests.{pair_entry, sample, sample-IsSorted, sample-IsValid}
use smash_table.WbTree.{Tree, null, node, fruit?, to_list, get_size, IsCounted, IsBalanced}
use smash_table.WbTree.Search.{find}
use smash_table.WbTree.Statistics.{select, rank, assign, refresh_augmentation}
use smash_table.WbTree.Statistics.Counts.{select_lem, rank_lem}
use smash_table.WbTree.Statistics.Refresh.{refresh-assign}
use smash_table.WbTree.Rotate.{rebalance}
use smash_table.WbTree.Rotate.Balance.{rebalance-IsBalanced}
use smash_table.WbTree.Rotate.Update.{IsValid}
use smash_table.WbTree.Join.{join_with_root}
use smash_table.WbTree.Join.Root.{join_with_root_lem}

select_lem_example : fruit? (select sample 2) ≡ get_elem? (to_list sample) 2
select_lem_example = select_lem sample 2 sample-IsValid.counted

rank_lem_example : rank sample 3 ≡ length (keep (below 3) (to_list sample))
rank_lem_example = rank_lem sample 3 sample-IsValid.counted sample-IsSorted

-- the entry of the key 2 is overwritten
refresh-assign_example :
    IsCounted (refresh_augmentation (assign sample 2 (2, 40)) 2).0
    × (get_size (refresh_augmentation (assign sample 2 (2, 40)) 2).0 ≡ get_size sample)
    × ((refresh_augmentation (assign sample 2 (2, 40)) 2).1 ≡ true)
unfolding find
refresh-assign_example = refresh-assign 2 (2, 40) refl refl sample sample-IsValid.counted refl

-- the right side of a node that has to be rotated
abbrev heavy_right : Tree (ℕ × ℕ)
heavy_right = node (node null (2, 21) 1 1 null) (3, 30) 3 1 (node null (4, 40) 1 0 null)

rebalance-IsBalanced_example : IsBalanced (rebalance (node null (1, 10) 4 1 heavy_right))
rebalance-IsBalanced_example =
    rebalance-IsBalanced null (1, 10) 4 1 heavy_right
      (refl, refl, tt, (refl, refl, (refl, refl, tt, tt), (refl, refl, tt, tt))) tt (omega arith)
      (omega arith) (omega arith)

join_with_root_lem_example :
    IsValid (join_with_root sample (node null (9, 9) 1 1 null) null)
    × (get_size (join_with_root sample (node null (9, 9) 1 1 null) null) ≡ 1 + 3 + 0)
join_with_root_lem_example =
    join_with_root_lem sample null (9, 9) 1 1 null null sample-IsValid
      (record { counted = tt; balanced = tt })
