-- ===== src/Tests.antt =====
-- Concrete entries and containers, on which the theorems are applied.
mod TreeExamples
mod ContainerExamples
mod StoreExamples
mod AvlExamples
mod HashExamples
use smash_table.Base.{ℕ, ◌%◌, ◌≤◌, ◌≡◌, ◌⊎◌, refl, inl, inr, true, false, arith, ltb, Bool-cases}
use smash_table.Order.{Comparator, Entry}
use smash_table.Sorted.{IsSorted}
use smash_table.WbTree.{Tree, null, node, to_list}
use smash_table.WbTree.Rotate.Update.{IsValid}

pub ltb_irrefl : (a : ℕ) → ltb a a ≡ false
ltb_irrefl a = ground arith

pub ltb_trans : (a b c : ℕ) → ltb a b ≡ true → ltb b c ≡ true → ltb a c ≡ true
ltb_trans a b c h k = ground arith

pub ltb_cotrans : (a b c : ℕ) → ltb a c ≡ true → (ltb a b ≡ true) ⊎ (ltb b c ≡ true)
ltb_cotrans a b c h = elim (Bool-cases (ltb a b)) [ inl t ↦ inl t | inr t ↦ inr (ground arith) ]

pub odd_le_one : (v : ℕ × ℕ) → v.1 % 2 ≤ 1
odd_le_one v = omega arith

abbrev pub ascending : Comparator ℕ
ascending = record {
  less = ltb;
  less_irrefl = ltb_irrefl;
  less_trans = ltb_trans;
  less_cotrans = ltb_cotrans;
}

-- A key with a number; the policy counts the odd numbers.
instance abbrev pub pair_entry : Entry (ℕ × ℕ)
pair_entry = record {
  Key = ℕ;
  key = λ v. v.0;
  augmented_count = λ v. v.1 % 2;
  augmented_count-le_one = odd_le_one;
  order = ascending;
}

-- A tree of three entries that leans to the right as far as the weights allow.
abbrev pub sample : Tree (ℕ × ℕ)
sample = node null (1, 10) 3 1 (node null (2, 21) 2 1 (node null (3, 30) 1 0 null))

pub sample-IsValid : IsValid sample
sample-IsValid = record {
  counted = (refl, refl, tt, (refl, refl, tt, (refl, refl, tt, tt)));
  balanced = omega arith;
}

pub sample-IsSorted : IsSorted (to_list sample)
sample-IsSorted = ((refl, (refl, tt)), ((refl, tt), (tt, tt)))
