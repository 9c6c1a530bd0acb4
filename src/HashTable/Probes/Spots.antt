-- ===== src/HashTable/Probes/Spots.antt =====
-- The slot that `probe_to_upsert` and `probe_to_insert` choose,
-- include/smashtable/basic_hash_table.hpp.
use smash_table.Base.{
  ℕ, zero, suc, ◌+◌, ◌<◌, ◌≤◌, ◌≡◌, refl, sym, ◌∙◌, ap, arith, true, false, ◌==◌, Option, none,
  some, inl, inr, Bool-cases, Option-cases,
}
use smash_table.Monotonic.{KeyEquality}
use smash_table.HashTable.{Slot, free, deleted, populated, Storage, Hashing, is_free, is_populated}
use smash_table.HashTable.Sound.{IsSound, visited, Slot-cases, Misses}
use smash_table.HashTable.Probes.{
  Spot, equal, reusable, unused, nowhere, first_seen, upsert_loop, insert_loop, initial_offset,
}
use smash_table.HashTable.Probes.Round.{
  probe_at, probe_at-zero, probe_at_lt, next_probe, probe_onto, initial_lt,
}
use smash_table.HashTable.Probes.Found.{
  Passed, Passed-suc, deleted-Passes, populated-Passes, Passed-Misses, free-Misses,
}

populated_busy : {K V : Type 0} (s : Slot K V) → is_populated s ≡ true → is_free s ≡ false
populated_busy free p = absurd (cc p)
populated_busy deleted p = refl
populated_busy (populated k v) p = refl

module _ {K V : Type 0} ⦃e : KeyEquality K⦄ ⦃h : Hashing K⦄ where
  -- a slot for a new key: the probe comes to it before any free one
  pub record Room (t : Storage K V) (q : K) (i : ℕ) (s : Slot K V) : Type 0 where
    pub round : ℕ
    pub within : round < t.slots_count
    pub at : i ≡ probe_at (initial_offset t q) t.slots_count round
    pub holds : t.slots i ≡ s
    pub before : (j : ℕ) → j < round → is_free (visited t q j) ≡ false
    pub misses : Misses t q

  -- every slot holds another key
  pub record Full (t : Storage K V) (q : K) : Type 0 where
    pub taken : (i : ℕ) → i < t.slots_count → is_populated (t.slots i) ≡ true
    pub misses : Misses t q

  abbrev pub Chooses : Storage K V → K → Spot → Type 0
  Chooses t q (equal i) =
      (k : K) × (v : V) × (i < t.slots_count) × (t.slots i ≡ populated k v) × (e.same k q ≡ true)
  Chooses t q (reusable i) = Room t q i deleted
  Chooses t q (unused i) = Room t q i free
  Chooses t q nowhere = Full t q

  -- the first deleted slot among those that the probe went past
  abbrev Seen : Storage K V → K → ℕ → Option ℕ → Type 0
  Seen t q m none = (j : ℕ) → j < m → is_populated (visited t q j) ≡ true
  Seen t q m (some i) =
      (r : ℕ) × (r < m)
      × (i ≡ probe_at (initial_offset t q) t.slots_count r)
      × (t.slots i ≡ deleted)

  Seen-suc :
      (t : Storage K V) (q : K) (m : ℕ) (seen : Option ℕ)
      → Seen t q m seen
      → is_populated (visited t q m) ≡ true
      → Seen t q (m + 1) seen
  Seen-suc t q m none before p = λ j b. elim (Bool-cases (j == m)) [
    | inl c ↦ let same : j ≡ m = ground arith in rw same p
    | inr c ↦ before j (ground arith)
  ]
  Seen-suc t q m (some i) (r, b, x, y) p = (r, omega arith, x, y)

  Seen-first :
      (t : Storage K V) (q : K) (m : ℕ) (seen : Option ℕ)
      → Seen t q m seen
      → visited t q m ≡ deleted
      → Seen t q (m + 1) (first_seen seen (probe_at (initial_offset t q) t.slots_count m))
  Seen-first t q m none before d = (m, omega arith, refl, d)
  Seen-first t q m (some i) (r, b, x, y) d = (r, omega arith, x, y)

  -- what is chosen when the probe ends
  reuse :
      (t : Storage K V) (q : K) (m i : ℕ)
      → m ≤ t.slots_count
      → Seen t q m (some i)
      → Passed t q m
      → Misses t q
      → Room t q i deleted
  reuse t q m i b (r, c, x, y) before misses = record {
    round = r;
    within = omega arith;
    at = x;
    holds = y;
    before = λ j d. (before j (omega arith)).0;
    misses = misses;
  }

  all_taken :
      (t : Storage K V) (q : K)
      → ((j : ℕ) → j < t.slots_count → is_populated (visited t q j) ≡ true)
      → (i : ℕ) → i < t.slots_count
      → is_populated (t.slots i) ≡ true
  all_taken t q before i b =
      let m =
        probe_onto (initial_offset t q) t.slots_count i
          (initial_lt (h.hasher q) t.slots_count (omega arith)) b in
      ap (λ x. is_populated (t.slots x)) (sym m.2) ∙ before m.0 m.1

  upsert_loop_lem :
      (t : Storage K V) (q : K) (probes m : ℕ) (seen : Option ℕ)
      → IsSound t
      → probes + m ≡ t.slots_count
      → Passed t q m
      → Seen t q m seen
      → Chooses t q (upsert_loop probes t q (probe_at (initial_offset t q) t.slots_count m) seen)
  unfolding upsert_loop
  upsert_loop_lem t q zero m none w c before s =
      let all : m ≡ t.slots_count = omega arith in
      record {
        taken = all_taken t q (λ j b. s j (omega arith));
        misses = Passed-Misses t q (λ j b. before j (omega arith));
      }
  upsert_loop_lem t q zero m (some i) w c before s =
      reuse t q m i (omega arith) s before (Passed-Misses t q (λ j b. before j (omega arith)))
  upsert_loop_lem t q (suc probes) m seen w c before s =
      let initial = initial_offset t q in
      let n = t.slots_count in
      let b : m < n = omega arith in
      let start = initial_lt (h.hasher q) n (omega arith) in
      let next = next_probe initial n m start b in
      elim (Slot-cases (visited t q m)) [
        | inl f ↦
            let misses = free-Misses t q m w b f before in
            elim (Option-cases seen) [
              | inl z ↦
                  rw (f, z, upsert_loop)
                    (record {
                      round = m;
                      within = b;
                      at = refl;
                      holds = f;
                      before = λ j d. (before j d).0;
                      misses = misses;
                    })
              | inr (i, z) ↦
                  rw (f, z, upsert_loop) (reuse t q m i (omega arith) (rw z at s) before misses)
            ]
        | inr (inl d) ↦
            rw (d, next, upsert_loop)
              (upsert_loop_lem t q probes (m + 1) (first_seen seen (probe_at initial n m)) w
                (omega arith) (Passed-suc t q m before (deleted-Passes (visited t q m) q d))
                (Seen-first t q m seen s d))
        | inr (inr (k, v, p)) ↦ elim (Bool-cases (e.same k q)) [
          | inl y ↦ rw (p, y, upsert_loop) (k, v, probe_at_lt initial n m start b, p, y)
          | inr y ↦
              rw (p, y, next, upsert_loop)
                (upsert_loop_lem t q probes (m + 1) seen w (omega arith)
                  (Passed-suc t q m before (populated-Passes (visited t q m) q k v p y))
                  (Seen-suc t q m seen s (rw p refl)))
        ]
      ]

  -- the choice of `probe_to_upsert` among the slots of a round
  pub upsert_loop-Chooses :
      (t : Storage K V) (q : K)
      → IsSound t
      → Chooses t q (upsert_loop t.slots_count t q (initial_offset t q) none)
  unfolding upsert_loop
  upsert_loop-Chooses t q w = elim (Bool-cases (t.slots_count == 0)) [
    | inl z ↦
        let empty : t.slots_count ≡ 0 = ground arith in
        rw (empty, upsert_loop)
          (record {
            taken = λ i b. absurd (omega (arith, empty));
            misses = λ i k v b. absurd (omega (arith, empty));
          })
    | inr z ↦
        let start = initial_lt (h.hasher q) t.slots_count (ground arith) in
        let chosen =
          upsert_loop_lem t q t.slots_count 0 none w (omega arith) (λ j b. absurd (omega arith))
            (λ j b. absurd (omega arith)) in
        rw (probe_at-zero (initial_offset t q) t.slots_count start) at chosen
  ]

  insert_loop_lem :
      (t : Storage K V) (q : K) (probes m : ℕ)
      → Misses t q
      → probes + m ≡ t.slots_count
      → Seen t q m none
      → Chooses t q (insert_loop probes t (probe_at (initial_offset t q) t.slots_count m))
  unfolding insert_loop
  insert_loop_lem t q zero m misses c s = record {
    taken = all_taken t q (λ j b. s j (omega arith));
    misses = misses;
  }
  insert_loop_lem t q (suc probes) m misses c s =
      let initial = initial_offset t q in
      let n = t.slots_count in
      let b : m < n = omega arith in
      let start = initial_lt (h.hasher q) n (omega arith) in
      let next = next_probe initial n m start b in
      let room : (x : Slot K V) → visited t q m ≡ x → Room t q (probe_at initial n m) x = λ x f.
        record {
          round = m;
          within = b;
          at = refl;
          holds = f;
          before = λ j d. populated_busy (visited t q j) (s j d);
          misses = misses;
        } in
      elim (Slot-cases (visited t q m)) [
        | inl f ↦ rw (f, insert_loop) (room free f)
        | inr (inl d) ↦ rw (d, insert_loop) (room deleted d)
        | inr (inr (k, v, p)) ↦
            rw (p, next, insert_loop)
              (insert_loop_lem t q probes (m + 1) misses (omega arith)
                (Seen-suc t q m none s (rw p refl)))
      ]

  -- the choice of `probe_to_insert` for a key that is nowhere
  pub insert_loop-Chooses :
      (t : Storage K V) (q : K)
      → Misses t q
      → Chooses t q (insert_loop t.slots_count t (initial_offset t q))
  unfolding insert_loop
  insert_loop-Chooses t q misses = elim (Bool-cases (t.slots_count == 0)) [
    | inl z ↦
        let empty : t.slots_count ≡ 0 = ground arith in
        rw (empty, insert_loop)
          (record {
            taken = λ i b. absurd (omega (arith, empty));
            misses = λ i k v b. absurd (omega (arith, empty));
          })
    | inr z ↦
        let start = initial_lt (h.hasher q) t.slots_count (ground arith) in
        let chosen =
          insert_loop_lem t q t.slots_count 0 misses (omega arith) (λ j b. absurd (omega arith)) in
        rw (probe_at-zero (initial_offset t q) t.slots_count start) at chosen
  ]
