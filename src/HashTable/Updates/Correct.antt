-- ===== src/HashTable/Updates/Correct.antt =====
-- An insertion into the hash table is one into a finite map, include/smashtable/basic_hash_table.hpp.
use smash_table.Base.{
  ℕ, ◌+◌, ◌<◌, ◌≤◌, ◌≡◌, refl, sym, ◌∙◌, ap, arith, Bool, true, false, ◌&&◌, leb, Option, none,
  some, if◌then◌else◌, inl, inr, ◌⊎◌, Bool-cases, Option-cases, is_some,
}
use smash_table.Monotonic.{KeyEquality}
use smash_table.HashTable.{Storage, Hashing}
use smash_table.HashTable.Sound.{IsSound}
use smash_table.HashTable.Sound.Written.{Reads}
use smash_table.HashTable.Probes.{
  UpsertResult, inserted, updated, no_slot, no_memory, probe_to_find, probe_to_upsert,
}
use smash_table.HashTable.Probes.Found.{Finds, probe_to_find_lem}
use smash_table.HashTable.Probes.Settled.{is_stored, probe_to_upsert-Files}
use smash_table.HashTable.Growth.{ReserveResult, refused, reserve, reserve_for_absent_key}
use smash_table.HashTable.Growth.Reserved.{reserve-Resizes, reserve_room, reserve-unchanged}
use smash_table.HashTable.Growth.Forced.{Keeps, same-Keeps, ReserveResult-cases}
use smash_table.HashTable.Updates.{success, out_of_memory_heap, at, upsert, status_of}
use smash_table.HashTable.Updates.Reading.{at-Reads, at_of_Reads}

status_of_stored : (x : UpsertResult) → is_stored x ≡ true → status_of x ≡ success
status_of_stored inserted s = refl
status_of_stored updated s = refl
status_of_stored no_slot s = absurd (cc s)
status_of_stored no_memory s = absurd (cc s)

ready_of : {A B : Type 0} → A ⊎ B → (A → false ≡ true) → B
ready_of (inl a) never = let x = never a in absurd (cc x)
ready_of (inr b) never = b

module _ {K V : Type 0} ⦃e : KeyEquality K⦄ ⦃h : Hashing K⦄ where
  -- what a refusal means: the key is new, the table is at its threshold, and nothing changed
  abbrev pub Refusal : Storage K V → K → Storage K V → Type 0
  Refusal t q t' =
      (t' ≡ t) × (at t q ≡ none) × (t.growth_threshold < 1 + t.populated_count + t.deleted_count)

  -- room for a key, before it is filed
  record Prepares (t : Storage K V) (q : K) (r : Storage K V × ReserveResult) : Type 0 where
    keeps : Keeps t r.0
    refused_same : r.1 ≡ refused → Refusal t q r.0
    ready : (r.1 ≡ refused) ⊎ ((is_some (at t q) ≡ true) ⊎ (r.0.populated_count < r.0.slots_count))

  room_below :
      (t : Storage K V) (planned : ℕ)
      → IsSound t
      → t.populated_count < planned
      → planned ≤ t.growth_threshold
      → t.populated_count < t.slots_count
  room_below t planned w p b = omega (arith, w.threshold_right, p, b)

  reserve_absent-Prepares :
      (t : Storage K V) (q : K) (can_allocate : Bool)
      → IsSound t
      → Prepares t q (reserve_for_absent_key t q can_allocate)
  unfolding reserve_for_absent_key at
  reserve_absent-Prepares t q can_allocate w =
      let planned = 1 + t.populated_count + t.deleted_count in
      elim (Bool-cases (leb planned t.growth_threshold)) [
        | inl b ↦ rw b (record {
          keeps = same-Keeps t w;
          refused_same = λ x. absurd (cc x);
          ready = inr (inr (room_below t planned w (omega arith) (ground arith)));
        })
        | inr b ↦ elim (Option-cases (probe_to_find t q)) [
          | inr (i, f) ↦
              let found = probe_to_find_lem t q w in
              let x : Finds t q (some i) = rw f at found in
              rw (b, f)
                (record {
                  keeps = same-Keeps t w;
                  refused_same = λ x. absurd (cc x);
                  ready = inr (inl (rw (f, at, x.3) refl));
                })
          | inl n ↦
              let z = reserve-Resizes t planned can_allocate w in
              rw (b, n)
                (record {
                  keeps = z.keeps;
                  refused_same = λ x. (z.refused_same x, rw (n, at) refl, ground (arith, b));
                  ready = elim (ReserveResult-cases (reserve t planned can_allocate).1) [
                    | inl u ↦ absurd (ground (arith, b, reserve-unchanged t planned can_allocate u))
                    | inr (inl g) ↦ inr (
                        inr (
                          room_below (reserve t planned can_allocate).0 planned z.keeps.sound
                            (omega (arith, z.keeps.populated_kept))
                            (reserve_room t planned can_allocate w (omega arith) g)))
                    | inr (inr x) ↦ inl x
                  ];
                })
        ]
      ]

  filed-Reads :
      (a b : Bool) (p : K) (y x : Option V) (t' : Storage K V)
      → b ≡ true
      → Reads t' p (if a && b then y else x)
      → Reads t' p (if a then y else x)
  filed-Reads true b p y x t' s z = rw s at z
  filed-Reads false b p y x t' s z = z

  -- after the room was made, the value is filed
  filed :
      (t r : Storage K V) (k : K) (v : V)
      → IsSound t
      → Keeps t r
      → (is_some (at t k) ≡ true) ⊎ (r.populated_count < r.slots_count)
      → IsSound (probe_to_upsert r k v).0
        × (is_stored (probe_to_upsert r k v).1 ≡ true)
        × ((p : K) → at (probe_to_upsert r k v).0 p ≡ (if e.same k p then some v else at t p))
  filed t r k v w z ready =
      let f = probe_to_upsert-Files r k v z.sound in
      let stored : is_stored (probe_to_upsert r k v).1 ≡ true =
        elim (Bool-cases (is_stored (probe_to_upsert r k v).1)) [
          | inl s ↦ s
          | inr s ↦ elim ready [
            | inl there ↦
                let gone = at_of_Reads r k none z.sound (f.full s).1 in
                let same = at_of_Reads r k (at t k) z.sound (z.reads k (at t k) (at-Reads t k w)) in
                let never : false ≡ true = ap is_some (sym gone ∙ same) ∙ there in absurd (cc never)
            | inr room ↦ absurd (omega (arith, room, (f.full s).0))
          ]
        ] in
      (
        f.sound,
        stored,
        λ p.
            let read = f.reads p (at t p) (z.reads p (at t p) (at-Reads t p w)) in
            at_of_Reads (probe_to_upsert r k v).0 p (if e.same k p then some v else at t p) f.sound
              (filed-Reads (e.same k p) (is_stored (probe_to_upsert r k v).1) p (some v) (at t p)
                (probe_to_upsert r k v).0 stored read),
      )

  filed_upsert :
      (t r : Storage K V) (k p : K) (v : V)
      → IsSound t
      → Keeps t r
      → (is_some (at t k) ≡ true) ⊎ (r.populated_count < r.slots_count)
      → IsSound (probe_to_upsert r k v).0
        × (((status_of (probe_to_upsert r k v).1 ≡ success)
              × (at (probe_to_upsert r k v).0 p ≡ (if e.same k p then some v else at t p)))
            ⊎ ((status_of (probe_to_upsert r k v).1 ≡ out_of_memory_heap)
                × Refusal t k (probe_to_upsert r k v).0))
  filed_upsert t r k p v w z ready =
      let f = filed t r k v w z ready in
      (f.0, inl (status_of_stored (probe_to_upsert r k v).1 f.1, f.2 p))

  -- An upsert into a sound table leaves it sound and never finds the probe exhausted. Either it succeeds,
  -- and then its key reads as the new value and every other as before; or it is refused for want of
  -- memory, and then the key is new, the table is at its threshold, and nothing has changed.
  pub upsert-Refusal :
      (t : Storage K V) (k p : K) (v : V) (can_allocate : Bool)
      → IsSound t
      → IsSound (upsert t k v can_allocate).0
        × ((((upsert t k v can_allocate).1 ≡ success)
              × (at (upsert t k v can_allocate).0 p ≡ (if e.same k p then some v else at t p)))
            ⊎ (((upsert t k v can_allocate).1 ≡ out_of_memory_heap)
                × Refusal t k (upsert t k v can_allocate).0))
  unfolding upsert
  upsert-Refusal t k p v can_allocate w =
      let r = reserve_for_absent_key t k can_allocate in
      let z = reserve_absent-Prepares t k can_allocate w in
      elim (ReserveResult-cases r.1) [
        | inr (inr x) ↦
            let refusal = z.refused_same x in
            rw (x, refusal.0, upsert) (w, inr (refl, (refl, refusal.1, refusal.2)))
        | inl u ↦
            rw (u, upsert)
              (filed_upsert t r.0 k p v w z.keeps
                (ready_of z.ready (λ x. let never = sym u ∙ x in cc never)))
        | inr (inl g) ↦
            rw (g, upsert)
              (filed_upsert t r.0 k p v w z.keeps
                (ready_of z.ready (λ x. let never = sym g ∙ x in cc never)))
      ]
