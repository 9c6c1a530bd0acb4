-- ===== src/HashTable/Updates/Erased.antt =====
-- An erasure from the hash table is one from a finite map, include/smashtable/basic_hash_table.hpp.
use smash_table.Base.{
  ℕ, ◌+◌, ◌-◌, ◌<◌, ◌≤◌, ◌≡◌, refl, sym, ◌∙◌, ap, arith, true, false, ◌==◌, none, some,
  if◌then◌else◌, inl, inr, Bool-cases, Option-cases, is_some,
}
use smash_table.Monotonic.{KeyEquality}
use smash_table.Monotonic.Index.{same_sym, same_right}
use smash_table.HashTable.{deleted, populated, Storage, Hashing, is_populated}
use smash_table.HashTable.Sound.{IsSound, Misses, one_if, tally_one}
use smash_table.HashTable.Sound.Written.{written-IsSound, written-Reads}
use smash_table.HashTable.Probes.{probe_to_find}
use smash_table.HashTable.Probes.Found.{Finds, probe_to_find_lem}
use smash_table.HashTable.Updates.{at, erase, erase_slot}
use smash_table.HashTable.Updates.Reading.{at-Reads, at_of_Reads}

module _ {K V : Type 0} ⦃e : KeyEquality K⦄ ⦃h : Hashing K⦄ where
  missing_at :
      (t : Storage K V) (q p : K)
      → IsSound t
      → Misses t q
      → at t p ≡ (if e.same q p then none else at t p)
  missing_at t q p w misses = elim (Bool-cases (e.same q p)) [
    | inl s ↦
        let gone : Misses t p = λ i k v b x. sym (same_right k q p s) ∙ misses i k v b x in
        rw s (at_of_Reads t p none w gone)
    | inr s ↦ rw s refl
  ]

  erase_slot-at :
      (t : Storage K V) (i : ℕ) (k q p : K) (v : V)
      → IsSound t
      → i < t.slots_count
      → t.slots i ≡ populated k v
      → e.same k q ≡ true
      → IsSound (erase_slot t i)
        × (at (erase_slot t i) p ≡ (if e.same q p then none else at t p))
        × ((erase_slot t i).populated_count + 1 ≡ t.populated_count)
  unfolding erase_slot
  erase_slot-at t i k q p v w b holds same =
      let one = tally_one is_populated t.slots t.slots_count i b (rw holds refl) in
      let positive : 1 ≤ t.populated_count = omega (arith, one, w.populated_right) in
      let sound =
        written-IsSound t i deleted (t.populated_count - 1) (t.deleted_count + 1) w b
          (rw holds (omega (arith, positive))) (rw holds (omega arith)) refl
          (λ k v x. absurd (cc x)) in
      (
        sound,
        elim (Bool-cases (e.same q p)) [
          | inl s ↦
              let alike : e.same k p ≡ true = e.same_congr k q p same ∙ s in
              let gone : Misses (erase_slot t i) p = λ j k' v' c x. elim (Bool-cases (j == i)) [
                | inl y ↦
                    let never : deleted ≡ populated k' v' =
                      sym (ap (λ z. if z then deleted else t.slots j) y) ∙ x in
                    absurd (cc never)
                | inr y ↦
                    let there : t.slots j ≡ populated k' v' =
                      sym (ap (λ z. if z then deleted else t.slots j) y) ∙ x in
                    elim (Bool-cases (e.same k' p)) [
                      | inl m ↦
                          let both = e.same_congr k' p k m ∙ same_sym k p alike in
                          let here = w.unique j i k' k v' v c b there holds both in
                          absurd (ground (arith, here, y))
                      | inr m ↦ m
                    ]
              ] in
              rw s (at_of_Reads (erase_slot t i) p none sound gone)
          | inr s ↦
              let apart : e.same k p ≡ false = e.same_congr k q p same ∙ s in
              let read =
                written-Reads t i deleted (t.populated_count - 1) (t.deleted_count + 1) p (at t p)
                  (λ k v x. absurd (cc x))
                  (λ k' v' x. let it : k' ≡ k = let both = sym holds ∙ x in cc both in rw it apart)
                  (at-Reads t p w) in
              rw s (at_of_Reads (erase_slot t i) p (at t p) sound read)
        ],
        omega (arith, positive),
      )

  -- An erasure from a sound table leaves it sound and smaller by one where the key was there, which it
  -- reports. Afterwards the key reads as missing, and every other as before.
  pub erase-at :
      (t : Storage K V) (q p : K)
      → IsSound t
      → IsSound (erase t q).0
        × (at (erase t q).0 p ≡ (if e.same q p then none else at t p))
        × ((erase t q).1 ≡ is_some (at t q))
        × ((erase t q).0.populated_count + one_if (erase t q).1 ≡ t.populated_count)
  unfolding erase
  erase-at t q p w =
      let found = probe_to_find_lem t q w in
      elim (Option-cases (probe_to_find t q)) [
        | inl n ↦
            let misses : Misses t q = rw n at found in
            rw (n, erase)
              (
                w,
                missing_at t q p w misses,
                sym (ap is_some (at_of_Reads t q none w misses)),
                omega arith,
              )
        | inr (i, f) ↦
            let x : Finds t q (some i) = rw f at found in
            let gone = erase_slot-at t i x.0 q p x.1 w x.2 x.3 x.4 in
            let there = at_of_Reads t q (some x.1) w (i, x.0, x.2, x.3, x.4) in
            rw (f, erase) (gone.0, gone.1, sym (ap is_some there), gone.2)
      ]
