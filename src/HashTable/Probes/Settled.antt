-- ===== src/HashTable/Probes/Settled.antt =====
-- What `probe_to_upsert` and `probe_to_insert` leave, include/smashtable/basic_hash_table.hpp.
use smash_table.Base.{
  ℕ, ◌+◌, ◌-◌, ◌<◌, ◌≡◌, refl, sym, ◌∙◌, ap, arith, Bool, true, false, ◌&&◌, Option, none, some,
  if◌then◌else◌, inl, inr, Bool-cases,
}
use smash_table.Monotonic.{KeyEquality}
use smash_table.Monotonic.Index.{same_sym}
use smash_table.HashTable.{
  Slot, free, deleted, populated, Storage, Hashing, is_deleted, is_populated,
}
use smash_table.HashTable.Sound.{IsSound, Misses, one_if, tally_one, tally_all}
use smash_table.HashTable.Sound.Written.{
  written, Belongs, written-IsSound, Reads, written-Reads, written-Stores,
}
use smash_table.HashTable.Probes.{
  Spot, equal, reusable, unused, nowhere, UpsertResult, inserted, updated, no_slot, no_memory,
  settle, probe_to_upsert, probe_to_insert, upsert_loop, insert_loop, initial_offset,
}
use smash_table.HashTable.Probes.Round.{probe_at, probe_at_lt, initial_lt}
use smash_table.HashTable.Probes.Spots.{Room, Chooses, upsert_loop-Chooses, insert_loop-Chooses}

abbrev pub is_stored : UpsertResult → Bool
is_stored inserted = true
is_stored updated = true
is_stored no_slot = false
is_stored no_memory = false

abbrev pub is_inserted : UpsertResult → Bool
is_inserted inserted = true
is_inserted updated = false
is_inserted no_slot = false
is_inserted no_memory = false

one_round : (a n m r : ℕ) → a < n → m < n → r < n → probe_at a n m ≡ probe_at a n r → m ≡ r
one_round a n m r x y z same = ground arith

module _ {K V : Type 0} ⦃e : KeyEquality K⦄ ⦃h : Hashing K⦄ where
  -- A value was filed under a key, or there was no slot for it and nothing changed.
  pub record Files (t : Storage K V) (q : K) (v : V) (result : Storage K V × UpsertResult)
      : Type 0 where
    pub sound : IsSound result.0
    pub slots_kept : result.0.slots_count ≡ t.slots_count
    pub counted : result.0.populated_count ≡ t.populated_count + one_if (is_inserted result.1)
    pub reads :
        (p : K) (x : Option V)
        → Reads t p x
        → Reads result.0 p (if e.same q p && is_stored result.1 then some v else x)
    pub fresh : Misses t q → is_inserted result.1 ≡ is_stored result.1
    pub full : is_stored result.1 ≡ false → (t.populated_count ≡ t.slots_count) × Misses t q

  Room-lt : (t : Storage K V) (q : K) (i : ℕ) (s : Slot K V) → Room t q i s → i < t.slots_count
  Room-lt t q i s r =
      let start = initial_lt (h.hasher q) t.slots_count (let w = r.within in omega arith) in
      let b = probe_at_lt (initial_offset t q) t.slots_count r.round start r.within in
      omega (arith, r.at, b)

  Room-Belongs : (t : Storage K V) (q : K) (i : ℕ) (s : Slot K V) → Room t q i s → Belongs t i q
  Room-Belongs t q i s r = record {
    reached = λ n m b c x.
        let start = initial_lt (h.hasher q) t.slots_count (omega arith) in
        let here =
          one_round (initial_offset t q) t.slots_count n r.round start b r.within (x ∙ r.at) in
        r.before m (omega (arith, here));
    alone = λ j k v b x same.
        let never : false ≡ true = sym (r.misses j k v b x) ∙ same_sym q k same in
        absurd (cc never);
  }

  -- a new element in a slot that holds none
  fill-Files :
      (t : Storage K V) (q : K) (v : V) (i dc : ℕ) (s : Slot K V)
      → IsSound t
      → Room t q i s
      → is_populated s ≡ false
      → dc + one_if (is_deleted s) ≡ t.deleted_count
      → Files t q v (written t i (populated q v) (t.populated_count + 1) dc, inserted)
  fill-Files t q v i dc s w r p d =
      let b = Room-lt t q i s r in
      let old : is_populated (t.slots i) ≡ false = ap is_populated r.holds ∙ p in
      record {
        sound =
            written-IsSound t i (populated q v) (t.populated_count + 1) dc w b
              (rw old (omega arith)) (rw r.holds (omega (arith, d))) refl
              (λ k u x. let same : k ≡ q = cc x in rw same (Room-Belongs t q i s r));
        slots_kept = refl;
        counted = refl;
        reads = λ p x z. elim (Bool-cases (e.same q p)) [
          | inl same ↦ rw same (written-Stores t i q v (t.populated_count + 1) dc p b same)
          | inr apart ↦ rw apart (
              written-Reads t i (populated q v) (t.populated_count + 1) dc p x
                (λ k u y. let same : k ≡ q = cc y in rw same apart)
                (λ k u y.
                  let never : false ≡ true = sym old ∙ ap is_populated y in absurd (cc never))
                z)
        ];
        fresh = λ misses. refl;
        full = λ x. absurd (cc x);
      }

  -- the value of an equal key
  overwrite-Files :
      (t : Storage K V) (q k : K) (v old : V) (i : ℕ)
      → IsSound t
      → i < t.slots_count
      → t.slots i ≡ populated k old
      → e.same k q ≡ true
      → Files t q v (written t i (populated k v) t.populated_count t.deleted_count, updated)
  overwrite-Files t q k v old i w b holds same = record {
    sound =
        written-IsSound t i (populated k v) t.populated_count t.deleted_count w b (rw holds refl)
          (rw holds refl) refl
          (λ j u x.
            let it : j ≡ k = cc x in
            rw it (record {
              reached = λ n m c y z. w.reachable k old n m c y (ap t.slots z ∙ holds);
              alone = λ m k' v' c x' s. w.unique m i k' k v' old c b x' holds (same_sym k k' s);
            }));
    slots_kept = refl;
    counted = omega arith;
    reads = λ p x z.
        let alike : e.same k p ≡ e.same q p = e.same_congr k q p same in
        elim (Bool-cases (e.same q p)) [
          | inl s ↦ rw s (written-Stores t i k v t.populated_count t.deleted_count p b (alike ∙ s))
          | inr s ↦ rw s (
              written-Reads t i (populated k v) t.populated_count t.deleted_count p x
                (λ j u y. let it : j ≡ k = cc y in rw it (alike ∙ s))
                (λ j u y. let it : j ≡ k = let both = sym holds ∙ y in cc both in rw it (alike ∙ s))
                z)
        ];
    fresh = λ misses.
        let never : false ≡ true = sym (misses i k old b holds) ∙ same in absurd (cc never);
    full = λ x. absurd (cc x);
  }

  settle-Files :
      (t : Storage K V) (q : K) (v : V) (spot : Spot)
      → IsSound t
      → Chooses t q spot
      → Files t q v (settle t q v spot)
  settle-Files t q v (equal i) w (k, old, b, holds, same) =
      rw holds (overwrite-Files t q k v old i w b holds same)
  settle-Files t q v (reusable i) w r =
      let one =
        tally_one is_deleted t.slots t.slots_count i (Room-lt t q i deleted r) (rw r.holds refl) in
      fill-Files t q v i (t.deleted_count - 1) deleted w r refl
        (omega (arith, w.deleted_right, one))
  settle-Files t q v (unused i) w r = fill-Files t q v i t.deleted_count free w r refl (omega arith)
  settle-Files t q v nowhere w f = record {
    sound = w;
    slots_kept = refl;
    counted = omega arith;
    reads = λ p x z. elim (Bool-cases (e.same q p)) [ inl s ↦ rw s z | inr s ↦ rw s z ];
    fresh = λ misses. refl;
    full =
        λ x. (w.populated_right ∙ tally_all is_populated t.slots t.slots_count f.taken, f.misses);
  }

  pub probe_to_upsert-Files :
      (t : Storage K V) (q : K) (v : V) → IsSound t → Files t q v (probe_to_upsert t q v)
  unfolding probe_to_upsert
  probe_to_upsert-Files t q v w =
      settle-Files t q v (upsert_loop t.slots_count t q (initial_offset t q) none) w
        (upsert_loop-Chooses t q w)

  pub probe_to_insert-Files :
      (t : Storage K V) (q : K) (v : V)
      → IsSound t
      → Misses t q
      → Files t q v (probe_to_insert t q v)
  unfolding probe_to_insert
  probe_to_insert-Files t q v w misses =
      settle-Files t q v (insert_loop t.slots_count t (initial_offset t q)) w
        (insert_loop-Chooses t q misses)
