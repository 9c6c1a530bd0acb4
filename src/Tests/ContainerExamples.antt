-- ===== src/Tests/ContainerExamples.antt =====
-- The theorems on `basic_wb_tree`, include/smashtable/basic_wb_tree.hpp, at sample containers.
use smash_table.WbTree.Container.Unique.{merge_unique_lem}
use smash_table.WbTree.Container.Merging.{Merges}
use smash_table.Sorted.Place.{place, without}
use smash_table.Base.{
  ℕ, ◌+◌, ◌≡◌, refl, arith, true, keep, total, length, ltb, ◌==◌, not, ◌&&◌, ◌||◌, if◌then◌else◌,
}
use smash_table.Tests.{pair_entry, sample, sample-IsSorted, sample-IsValid}
use smash_table.WbTree.{null, node, is_node, to_list}
use smash_table.WbTree.Search.{find}
use smash_table.WbTree.Insert.{matched, made, refused}
use smash_table.WbTree.Container.{
  Container, insert, insert_or_assign, erase, erase_if, erase_range, merge_unique,
}
use smash_table.WbTree.Container.Sound.{IsSound}
use smash_table.WbTree.Container.Updates.{insert_or_assign_lem, insert_lem, erase_lem}
use smash_table.WbTree.Container.Ranges.{erase_if-container, erase_range-container}

abbrev pairs : Container (ℕ × ℕ)
pairs = record { root = sample; size = 3 }

pairs-IsSound : IsSound pairs
pairs-IsSound = record { valid = sample-IsValid; sorted = sample-IsSorted; counted = refl }

-- a container whose keys follow those of `pairs`
abbrev later : Container (ℕ × ℕ)
later = record { root = node null (7, 70) 1 0 null; size = 1 }

later-IsSound : IsSound later
later-IsSound = record {
  valid = record { counted = (refl, refl, tt, tt); balanced = omega arith };
  sorted = (tt, tt);
  counted = refl;
}

insert_or_assign_lem_example :
    IsSound (insert_or_assign pairs (4, 7) true).0
    × (to_list (insert_or_assign pairs (4, 7) true).0.root ≡ (
        if is_node (find sample 4) || true then place (4, 7) (to_list sample) else to_list sample))
    × ((insert_or_assign pairs (4, 7) true).1.placement
        ≡ (if is_node (find sample 4) then matched else (if true then made else refused)))
insert_or_assign_lem_example = insert_or_assign_lem pairs (4, 7) true pairs-IsSound

insert_lem_example :
    IsSound (insert pairs (2, 7) true).0
    × (to_list (insert pairs (2, 7) true).0.root ≡ (
        if not (is_node (find sample 2)) && true
        then place (2, 7) (to_list sample)
        else to_list sample))
    × ((insert pairs (2, 7) true).1.placement
        ≡ (if is_node (find sample 2) then matched else (if true then made else refused)))
insert_lem_example = insert_lem pairs (2, 7) true pairs-IsSound

erase_lem_example :
    IsSound (erase pairs 2).0
    × (to_list (erase pairs 2).0.root ≡ without 2 (to_list sample))
    × ((erase pairs 2).1 ≡ is_node (find sample 2))
erase_lem_example = erase_lem pairs 2 pairs-IsSound

erase_if-container_example :
    IsSound (erase_if pairs (λ v. v.0 == 2)).0
    × (to_list (erase_if pairs (λ v. v.0 == 2)).0.root
        ≡ keep (λ (v : ℕ × ℕ). not (v.0 == 2)) (to_list sample))
    × ((erase_if pairs (λ v. v.0 == 2)).1
        ≡ length (keep (λ (v : ℕ × ℕ). v.0 == 2) (to_list sample)))
erase_if-container_example = erase_if-container pairs (λ v. v.0 == 2) pairs-IsSound

erase_range-container_example :
    IsSound (erase_range pairs 2 3 (λ v n. v.1 + n) 0).0
    × (to_list (erase_range pairs 2 3 (λ v n. v.1 + n) 0).0.root
        ≡ keep (λ (v : ℕ × ℕ). not (ltb v.0 3 && not (ltb v.0 2))) (to_list sample))
    × ((erase_range pairs 2 3 (λ v n. v.1 + n) 0).1
        ≡ total (λ v. v.1) (keep (λ (v : ℕ × ℕ). ltb v.0 3 && not (ltb v.0 2)) (to_list sample)))
erase_range-container_example = erase_range-container pairs 2 3 (λ v. v.1) pairs-IsSound

-- another container, with a key of `pairs` and a new one
abbrev overlapping : Container (ℕ × ℕ)
overlapping = record { root = node null (3, 33) 2 2 (node null (7, 71) 1 1 null); size = 2 }

overlapping-IsSound : IsSound overlapping
overlapping-IsSound = record {
  valid = record { counted = (refl, refl, tt, (refl, refl, tt, tt)); balanced = omega arith };
  sorted = ((refl, tt), (tt, tt));
  counted = refl;
}

merge_unique_lem_example :
    Merges pairs later (merge_unique pairs later).0 (merge_unique pairs later).1
merge_unique_lem_example = merge_unique_lem pairs later pairs-IsSound later-IsSound
