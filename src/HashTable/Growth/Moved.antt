-- ===== src/HashTable/Growth/Moved.antt =====
-- Moving the elements of a hash table to a new buffer, `move_to_new` in
-- include/smashtable/basic_hash_table.hpp.
use smash_table.Base.{
  ℕ, zero, suc, ◌+◌, ◌*◌, ◌/◌, ◌<◌, ◌≤◌, ◌≡◌, refl, sym, ◌∙◌, ap, arith, Bool, true, false, ◌&&◌,
  not, ◌==◌, ltb, Option, none, some, inl, inr, ◌⊎◌, Bool-cases,
}
use smash_table.Monotonic.{KeyEquality}
use smash_table.HashTable.{populated, Storage, Hashing, is_populated, unallocated, for_each}
use smash_table.HashTable.Sound.{IsSound, Slot-cases, tally}
use smash_table.HashTable.Sound.Written.{Reads}
use smash_table.HashTable.Sizes.{is_addressable, unrepresentable_k, hash_bucket_capacity_k}
use smash_table.HashTable.Probes.{probe_to_insert}
use smash_table.HashTable.Probes.Settled.{is_stored, probe_to_insert-Files}
use smash_table.HashTable.Growth.{make, move_element, move_to_new, is_allocated}
use smash_table.HashTable.Growth.Prefix.{
  tally_mono, zeroed, zeroed-IsSound, zeroed-Misses, prefix, prefix-Reads, prefix-Misses,
  next-Reads,
}

module _ {K V : Type 0} ⦃e : KeyEquality K⦄ ⦃h : Hashing K⦄ where
  -- the elements of the first slots are in the new buffer
  record Moved (t : Storage K V) (n c : ℕ) (r : Storage K V) : Type 0 where
    sound : IsSound r
    slots_kept : r.slots_count ≡ c
    counted : r.populated_count ≡ tally is_populated t.slots n
    reads : (p : K) (x : Option V) → Reads (prefix t n) p x → Reads r p x

  move_one :
      (t : Storage K V) (n c : ℕ) (k : K) (v : V) (r : Storage K V)
      → IsSound t
      → n < t.slots_count
      → tally is_populated t.slots n < c
      → t.slots n ≡ populated k v
      → Moved t n c r
      → Moved t (suc n) c (move_element k v r)
  unfolding move_element
  move_one t n c k v r w b room holds m =
      let misses = m.reads k none (prefix-Misses t n k k v w b holds (e.same_refl k)) in
      let f = probe_to_insert-Files r k v m.sound misses in
      let stored : is_stored (probe_to_insert r k v).1 ≡ true =
        elim (Bool-cases (is_stored (probe_to_insert r k v).1)) [
          | inl s ↦ s
          | inr s ↦
              let full = f.full s in absurd (omega (arith, full.0, m.slots_kept, m.counted, room))
        ] in
      let new = f.fresh misses ∙ stored in
      record {
        sound = f.sound;
        slots_kept = f.slots_kept ∙ m.slots_kept;
        counted = f.counted ∙ rw (new, m.counted, holds) refl;
        reads = λ p x z. elim (Bool-cases (e.same k p)) [
          | inl s ↦
              let it = next-Reads t n k p v x w b holds s z in
              let read = f.reads p none (m.reads p none (prefix-Misses t n k p v w b holds s)) in
              rw it (rw (s, stored) at read)
          | inr s ↦
              let before =
                prefix-Reads t n p x
                  (λ j u y. let it : j ≡ k = let both = sym holds ∙ y in cc both in rw it s) z in
              let read = f.reads p x (m.reads p x before) in rw s at read
        ];
      }

  move_none :
      (t : Storage K V) (n c : ℕ) (r : Storage K V)
      → Moved t n c r
      → is_populated (t.slots n) ≡ false
      → Moved t (suc n) c r
  move_none t n c r m none_here = record {
    sound = m.sound;
    slots_kept = m.slots_kept;
    counted = m.counted ∙ rw none_here (omega arith);
    reads = λ p x z. m.reads p x (
        prefix-Reads t n p x
          (λ k v y.
            let never : true ≡ false = sym (ap is_populated y) ∙ none_here in absurd (cc never))
          z);
  }

  zeroed-Reads :
      (t : Storage K V) (c : ℕ) (p : K) (x : Option V)
      → Reads (prefix t 0) p x
      → Reads (zeroed c) p x
  zeroed-Reads t c p none r = zeroed-Misses c p
  zeroed-Reads t c p (some v) (i, k, b, x, y) = absurd (omega arith)

  move_all :
      (t : Storage K V) (c n : ℕ)
      → IsSound t
      → n ≤ t.slots_count
      → t.populated_count ≤ c
      → Moved t n c (for_each n t.slots move_element (zeroed c))
  unfolding for_each
  move_all t c zero w b room = record {
    sound = zeroed-IsSound c;
    slots_kept = refl;
    counted = refl;
    reads = zeroed-Reads t c;
  }
  move_all t c (suc n) w b room =
      let m = move_all t c n w (omega arith) room in
      elim (Slot-cases (t.slots n)) [
        | inl f ↦
            rw (f, for_each)
              (move_none t n c (for_each n t.slots move_element (zeroed c)) m (rw f refl))
        | inr (inl d) ↦
            rw (d, for_each)
              (move_none t n c (for_each n t.slots move_element (zeroed c)) m (rw d refl))
        | inr (inr (k, v, p)) ↦
            let fewer = tally_mono is_populated t.slots (suc n) t.slots_count b in
            let one : tally is_populated t.slots (suc n) ≡ tally is_populated t.slots n + 1 =
              rw p refl in
            rw (p, for_each)
              (move_one t n c k v (for_each n t.slots move_element (zeroed c)) w (omega arith)
                (omega (arith, fewer, one, w.populated_right, room)) p m)
      ]

  pub make-cases :
      (c : ℕ) (can_allocate : Bool)
      → ((make {K = K} {V = V} c can_allocate ≡ zeroed c) × (is_addressable c ≡ true))
        ⊎ (make {K = K} {V = V} c can_allocate ≡ unallocated)
  unfolding make
  make-cases c can_allocate =
      let granted =
        is_addressable c
        && not (ltb (unrepresentable_k / h.bytes_in_bucket) (c / hash_bucket_capacity_k))
        && not (c / hash_bucket_capacity_k * h.bytes_in_bucket == 0)
        && can_allocate in
      elim (Bool-cases (is_addressable c)) [
        | inl a ↦ elim (Bool-cases granted) [ inl g ↦ inl (rw g refl, a) | inr g ↦ inr (rw g refl) ]
        | inr a ↦ inr (rw a refl)
      ]

  -- The table that `move_to_new` returns, where the new buffer is there and not too small: it is sound,
  -- reads as the old one, and has its elements and no deleted slot.
  pub move_to_new-Reads :
      (t : Storage K V) (c : ℕ) (can_allocate : Bool)
      → IsSound t
      → t.populated_count ≤ c
      → is_allocated (move_to_new t c can_allocate) ≡ true
      → IsSound (move_to_new t c can_allocate)
        × ((move_to_new t c can_allocate).slots_count ≡ c)
        × ((move_to_new t c can_allocate).populated_count ≡ t.populated_count)
        × (is_addressable c ≡ true)
        × ((p : K) (x : Option V) → Reads t p x → Reads (move_to_new t c can_allocate) p x)
  unfolding move_to_new
  move_to_new-Reads t c can_allocate w room granted = elim (make-cases c can_allocate) [
    | inr u ↦ let never : false ≡ true = rw (u, move_to_new) at granted in absurd (cc never)
    | inl (z, a) ↦ elim (Bool-cases (c == 0)) [
      | inl y ↦
          let never : not (c == 0) ≡ true = rw (z, y, move_to_new) at granted in
          absurd (ground (arith, never, y))
      | inr y ↦
          let m = move_all t c t.slots_count w (omega arith) room in
          rw (z, y) (m.sound, m.slots_kept, m.counted ∙ sym w.populated_right, a, m.reads)
    ]
  ]
