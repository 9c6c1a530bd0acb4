-- ===== src/Tests/AvlExamples.antt =====
-- The theorems on the AVL tree, include/smashtable/basic_avl_tree.hpp, at sample trees and containers.
use smash_table.Base.{
  ℕ, ◌+◌, ◌/◌, ◌^◌, ◌≤◌, ◌≡◌, List, [], ◌∷◌, refl, arith, Bool, true, false, some, keep, total, ltb,
  ◌==◌, not, ◌&&◌, ◌||◌, if◌then◌else◌, or_else,
}
use smash_table.Sorted.{IsSorted, matches}
use smash_table.Sorted.Place.{place, without}
use smash_table.Placement.{matched, made, refused}
use smash_table.Tests.{pair_entry}
use smash_table.WbTree.Walk.{resume, walk}
use smash_table.AvlTree.{Tree, null, node, is_node, get_height, to_list, IsValid}
use smash_table.AvlTree.Search.{find}
use smash_table.AvlTree.Join
use smash_table.AvlTree.Height.{Command, upserts, inserts, erases, run, run-height}
use smash_table.AvlTree.Cursor.{top, right_of, increment, decrement, range}
use smash_table.AvlTree.Cursor.Steps.{range-walk, decrement-increment}
use smash_table.AvlTree.Container.{
  Container, empty, upsert, erase, erase_if, erase_range, merge_with_upsert, merge_unique,
}
use smash_table.AvlTree.Container.Sound.{IsSound}
use smash_table.AvlTree.Container.Updates.{upsert-Holds, erase-Holds}
use smash_table.AvlTree.Container.Linked.{Holds}
use smash_table.AvlTree.Container.Ranges.{erase_range-Holds}
use smash_table.AvlTree.Container.Merging.{merge_with_upsert-Merges}
use smash_table.AvlTree.Container.Unique.{merge_unique-Combines}
use smash_table.AvlTree.Container.Chained.{Combines}
use smash_table.AvlTree.Container.Bulk.{RangeStatus, insert_range, upsert_range, update_range}
use smash_table.AvlTree.Container.Bulk.Whole.{
  InsertsRange, UpsertsRange, UpdatesRange, insert_range-finds, upsert_range-finds,
  update_range-finds,
}

-- a tree of four entries, as high on its right side as the balance allows
abbrev right_side : Tree (ℕ × ℕ)
right_side = node null (3, 30) 2 (node null (4, 41) 1 null)

abbrev avl_sample : Tree (ℕ × ℕ)
avl_sample = node (node null (1, 10) 1 null) (2, 21) 3 right_side

avl_sample-IsValid : IsValid avl_sample
avl_sample-IsValid = record {
  measured = (refl, (refl, tt, tt), (refl, tt, (refl, tt, tt)));
  balanced = omega arith;
}

avl_sample-IsSorted : IsSorted (to_list avl_sample)
avl_sample-IsSorted = ((refl, (refl, (refl, tt))), ((refl, (refl, tt)), ((refl, tt), (tt, tt))))

abbrev fours : Container (ℕ × ℕ)
fours = record { root = avl_sample; size = 4 }

fours-IsSound : IsSound fours
fours-IsSound = record { valid = avl_sample-IsValid; sorted = avl_sample-IsSorted; counted = refl }

upsert-Holds_example :
    Holds (upsert fours (5, 7) true).0 (
      if is_node (find avl_sample 5) || true
      then place (5, 7) (to_list avl_sample)
      else to_list avl_sample)
    × ((upsert fours (5, 7) true).1.placement
        ≡ (if is_node (find avl_sample 5) then matched else (if true then made else refused)))
upsert-Holds_example = upsert-Holds fours (5, 7) true fours-IsSound

erase-Holds_example :
    Holds (erase fours 2).0 (without 2 (to_list avl_sample))
    × ((erase fours 2).1 ≡ is_node (find avl_sample 2))
erase-Holds_example = erase-Holds fours 2 fours-IsSound

erase_range-Holds_example :
    Holds
      (erase_range (λ v n. v.1 + n) fours 2 4 0).0
      (keep (λ (v : ℕ × ℕ). not (ltb v.0 4 && not (ltb v.0 2))) (to_list avl_sample))
    × ((erase_range (λ v n. v.1 + n) fours 2 4 0).1
        ≡ total
            (λ v. v.1)
            (keep (λ (v : ℕ × ℕ). ltb v.0 4 && not (ltb v.0 2)) (to_list avl_sample)))
erase_range-Holds_example = erase_range-Holds fours 2 4 (λ v. v.1) fours-IsSound

-- a container with a key of `fours` and a new one
abbrev mixed : Container (ℕ × ℕ)
mixed = record { root = node null (3, 33) 2 (node null (7, 71) 1 null); size = 2 }

mixed-IsSound : IsSound mixed
mixed-IsSound = record {
  valid = record { measured = (refl, tt, (refl, tt, tt)); balanced = omega arith };
  sorted = ((refl, tt), (tt, tt));
  counted = refl;
}

merge_with_upsert-Merges_example :
    IsSound (merge_with_upsert fours mixed).0
    × Holds (merge_with_upsert fours mixed).1 []
    × ((q : ℕ)
        → keep (matches q) (to_list (merge_with_upsert fours mixed).0.root)
          ≡ or_else (keep (matches q) (to_list mixed.root)) (keep (matches q) (to_list avl_sample)))
merge_with_upsert-Merges_example = merge_with_upsert-Merges fours mixed fours-IsSound mixed-IsSound

-- a container with keys between those of `fours`
abbrev between : Container (ℕ × ℕ)
between = record { root = node null (0, 9) 2 (node null (7, 71) 1 null); size = 2 }

between-IsSound : IsSound between
between-IsSound = record {
  valid = record { measured = (refl, tt, (refl, tt, tt)); balanced = omega arith };
  sorted = ((refl, tt), (tt, tt));
  counted = refl;
}

merge_unique-Combines_example :
    (result : Container (ℕ × ℕ) × Container (ℕ × ℕ)) × (merge_unique 13 fours between ≡ some result)
    × Combines fours between result
merge_unique-Combines_example =
    merge_unique-Combines 13 fours between fours-IsSound between-IsSound
      (refl, (refl, (refl, (refl, tt)))) (omega arith)

-- keys in ascending order, one of them erased again
abbrev ascending : List (Command (ℕ × ℕ) ℕ)
ascending =
    upserts (1, 10) true
    ∷ upserts (2, 20) true
    ∷ inserts (3, 30) true
    ∷ inserts (4, 40) false
    ∷ erases 1
    ∷ []

run-height_example :
    2 ^ (get_height (run empty ascending).root / 2) ≤ (run empty ascending).size + 1
run-height_example = run-height ascending

range-walk_example :
    range (λ v (n : ℕ). (v.1 + n, resume)) 5 avl_sample 2 4 0
    ≡ walk
        (keep (λ (v : ℕ × ℕ). ltb v.0 4 && not (ltb v.0 2)) (to_list avl_sample))
        (λ v n. (v.1 + n, resume))
        0
range-walk_example =
    range-walk (λ v n. (v.1 + n, resume)) 5 avl_sample 2 4 0 avl_sample-IsSorted (omega arith)

decrement-increment_example :
    decrement avl_sample (
      increment
        (record { at = right_side; parents = right_of (node null (1, 10) 1 null) (2, 21) 3 top }))
    ≡ record { at = right_side; parents = right_of (node null (1, 10) 1 null) (2, 21) 3 top }
decrement-increment_example =
    decrement-increment null (3, 30) 2 (node null (4, 41) 1 null)
      (right_of (node null (1, 10) 1 null) (2, 21) 3 top)

-- After `erase_if` took out the left side, the right one is two higher.
erase_if_unbalanced : (erase_if fours (λ v. v.0 == 1)).0.root ≡ node null (2, 21) 3 right_side
unfolding erase_if Join.erase_if
erase_if_unbalanced = refl

-- a new key twice, and a key of `fours`
abbrev new_range : List ((ℕ × ℕ) × Bool)
new_range = ((6, 60), true) ∷ ((6, 61), true) ∷ []

abbrev known_range : List ((ℕ × ℕ) × Bool)
known_range = ((3, 33), true) ∷ []

insert_range-finds_example :
    (result : Container (ℕ × ℕ) × RangeStatus) × (insert_range 13 fours new_range ≡ some result)
    × InsertsRange fours new_range 6 result
insert_range-finds_example = insert_range-finds 13 fours new_range 6 fours-IsSound (omega arith)

upsert_range-finds_example : UpsertsRange fours new_range 6 (upsert_range fours new_range)
upsert_range-finds_example = upsert_range-finds fours new_range 6 fours-IsSound

update_range-finds_example : UpdatesRange fours known_range 3 (update_range 6 fours known_range)
update_range-finds_example = update_range-finds 6 fours known_range 3 fours-IsSound (omega arith)
