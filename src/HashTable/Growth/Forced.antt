-- ===== src/HashTable/Growth/Forced.antt =====
-- `force_resize` of the hash table, include/smashtable/basic_hash_table.hpp.
use smash_table.Base.{
  ℕ, ◌/◌, ◌≡◌, refl, sym, ◌∙◌, arith, Bool, true, false, ◌==◌, ltb, leb, Option, none, some, inl,
  inr, ◌⊎◌, Bool-cases,
}
use smash_table.Monotonic.{KeyEquality}
use smash_table.HashTable.{Storage, Hashing, is_populated, unallocated}
use smash_table.HashTable.Sound.{IsSound, Misses, tally_one, unallocated-IsSound}
use smash_table.HashTable.Sound.Written.{Reads}
use smash_table.HashTable.Sizes.{is_addressable, is_pow2, slots_for, unrepresentable_k}
use smash_table.HashTable.Growth.{
  ReserveResult, unchanged, reallocated, refused, is_allocated, move_to_new, force_resize,
}
use smash_table.HashTable.Growth.Moved.{move_to_new-Reads, make-cases}

pub zero_addressable : is_addressable 0 ≡ true
unfolding is_addressable
zero_addressable = refl

pub too_many : is_addressable unrepresentable_k ≡ false
unfolding is_addressable is_pow2
too_many = refl

pub slots_for_many :
    (n : ℕ) → leb n (unrepresentable_k / 4) ≡ false → slots_for n ≡ unrepresentable_k
unfolding slots_for
slots_for_many n b =
    let positive : (n == 0) ≡ false = ground arith in
    let many : ltb (unrepresentable_k / 4) n ≡ true = ground arith in rw (positive, many) refl

pub ReserveResult-cases :
    (r : ReserveResult) → (r ≡ unchanged) ⊎ ((r ≡ reallocated) ⊎ (r ≡ refused))
ReserveResult-cases unchanged = inl refl
ReserveResult-cases reallocated = inr (inl refl)
ReserveResult-cases refused = inr (inr refl)

module _ {K V : Type 0} ⦃e : KeyEquality K⦄ ⦃h : Hashing K⦄ where
  -- what a change of the memory leaves
  pub record Keeps (t t' : Storage K V) : Type 0 where
    pub sound : IsSound t'
    pub populated_kept : t'.populated_count ≡ t.populated_count
    pub reads : (p : K) (x : Option V) → Reads t p x → Reads t' p x

  -- and what the report of it says
  pub record Resizes (t : Storage K V) (slots : ℕ) (result : Storage K V × ReserveResult)
      : Type 0 where
    pub keeps : Keeps t result.0
    pub refused_same : result.1 ≡ refused → result.0 ≡ t
    pub unchanged_same : result.1 ≡ unchanged → result.0 ≡ t
    pub grown :
        result.1 ≡ reallocated → (result.0.slots_count ≡ slots) × (is_addressable slots ≡ true)

  pub same-Keeps : (t : Storage K V) → IsSound t → Keeps t t
  same-Keeps t w = record { sound = w; populated_kept = refl; reads = λ p x r. r }

  pub empty-Keeps :
      (t t' : Storage K V)
      → IsSound t
      → IsSound t'
      → t.populated_count ≡ 0
      → t'.populated_count ≡ 0
      → ((p : K) → Misses t' p)
      → Keeps t t'
  empty-Keeps t t' w w' z z' misses = record {
    sound = w';
    populated_kept = z' ∙ sym z;
    reads = λ p x r. empty-Reads x p r;
  }
    where
      empty-Reads : (x : Option V) (p : K) → Reads t p x → Reads t' p x
      empty-Reads none p r = misses p
      empty-Reads (some v) p (i, k, b, y, same) =
          let one = tally_one is_populated t.slots t.slots_count i b (rw y refl) in
          absurd (omega (arith, one, w.populated_right, z))

  pub unallocated-Keeps :
      (t : Storage K V) → IsSound t → t.populated_count ≡ 0 → Keeps t unallocated
  unallocated-Keeps t w z =
      empty-Keeps t unallocated w unallocated-IsSound z refl (λ p i k v b. absurd (omega arith))

  pub move_to_new-zero :
      (t : Storage K V) (can_allocate : Bool) → move_to_new t 0 can_allocate ≡ unallocated
  unfolding move_to_new
  move_to_new-zero t can_allocate = elim (make-cases {K = K} {V = V} 0 can_allocate) [
    | inl (z, a) ↦ rw (z, move_to_new) refl
    | inr u ↦ rw (u, move_to_new) refl
  ]

  -- `force_resize` keeps what a sound table reads as. It is refused where the elements do not fit into the
  -- slots asked for, and where the new buffer is refused; then the table is what it was.
  pub force_resize-Resizes :
      (t : Storage K V) (slots : ℕ) (can_allocate : Bool)
      → IsSound t
      → Resizes t slots (force_resize t slots can_allocate)
  unfolding force_resize
  force_resize-Resizes t slots can_allocate w = elim (Bool-cases (ltb slots t.populated_count)) [
    | inl s ↦ rw s (record {
      keeps = same-Keeps t w;
      refused_same = λ x. refl;
      unchanged_same = λ x. refl;
      grown = λ x. absurd (cc x);
    })
    | inr s ↦ elim (Bool-cases (is_allocated (move_to_new t slots can_allocate))) [
      | inl a ↦
          let m = move_to_new-Reads t slots can_allocate w (ground arith) a in
          let step : force_resize t slots can_allocate
              ≡ (move_to_new t slots can_allocate, reallocated) =
            elim (Bool-cases (slots == 0)) [
              | inl z ↦ rw (s, a, z) refl
              | inr z ↦ rw (s, a, z) refl
            ] in
          rw step (record {
            keeps = record { sound = m.0; populated_kept = m.2; reads = m.4 };
            refused_same = λ x. absurd (cc x);
            unchanged_same = λ x. absurd (cc x);
            grown = λ x. (m.1, m.3);
          })
      | inr a ↦ elim (Bool-cases (slots == 0)) [
        | inl z ↦
            let none : slots ≡ 0 = ground arith in
            let empty : t.populated_count ≡ 0 = ground arith in
            let nothing = move_to_new-zero t can_allocate in
            rw (s, a, z, none, nothing)
              (record {
                keeps = unallocated-Keeps t w empty;
                refused_same = λ x. absurd (cc x);
                unchanged_same = λ x. absurd (cc x);
                grown = λ x. (refl, zero_addressable);
              })
        | inr z ↦
            rw (s, a, z)
              (record {
                keeps = same-Keeps t w;
                refused_same = λ x. refl;
                unchanged_same = λ x. refl;
                grown = λ x. absurd (cc x);
              })
      ]
    ]
  ]
