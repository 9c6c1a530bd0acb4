-- ===== src/HashTable/Runs.antt =====
-- A hash table under any sequence of insertions and erasures, include/smashtable/basic_hash_table.hpp, is
-- the finite map that a store takes its index to be, Monotonic/Index.antt.
use smash_table.Base.{
  ◌≡◌, refl, sym, ◌∙◌, ap, Bool, true, false, none, some, List, [], ◌∷◌, if◌then◌else◌, inl, inr,
  ◌⊎◌, is_some,
}
use smash_table.Monotonic.{KeyEquality}
use smash_table.Monotonic.Index.{Index, lookup, put, remove, lookup-put, lookup-remove}
use smash_table.HashTable.{Storage, Hashing, unallocated}
use smash_table.HashTable.Sound.{IsSound, unallocated-IsSound}
use smash_table.HashTable.Probes.{probe_to_find}
use smash_table.HashTable.Updates.{
  UpsertStatus, success, out_of_memory_heap, capacity_exhausted, at, upsert, erase,
}
use smash_table.HashTable.Updates.Correct.{upsert-Refusal}
use smash_table.HashTable.Updates.Erased.{erase-at}

-- a call, with what the allocator would answer
pub data Command (K V : Type 0) : Type 0 where
  upserts : K → V → Bool → Command K V
  erases : K → Command K V

abbrev pub succeeded : UpsertStatus → Bool
succeeded success = true
succeeded out_of_memory_heap = false
succeeded capacity_exhausted = false

module _ {K V : Type 0} ⦃e : KeyEquality K⦄ ⦃h : Hashing K⦄ where
  -- the calls one after another, and what each reports
  unfoldable pub run : Storage K V → List (Command K V) → Storage K V × List Bool
  run t [] = (t, [])
  run t (upserts k v can_allocate ∷ calls) =
      let result = upsert t k v can_allocate in
      let rest = run result.0 calls in (rest.0, succeeded result.1 ∷ rest.1)
  run t (erases k ∷ calls) =
      let result = erase t k in let rest = run result.0 calls in (rest.0, result.1 ∷ rest.1)

  -- the same calls on a finite map, a refused one without effect
  abbrev pub follow : Index K V → List (Command K V) → List Bool → Index K V
  follow m [] replies = m
  follow m (call ∷ calls) [] = m
  follow m (upserts k v _ ∷ calls) (reply ∷ replies) =
      let m' = if reply then put k v m else m in follow m' calls replies
  follow m (erases k ∷ calls) (reply ∷ replies) = follow (remove k m) calls replies

  -- what the map allows to be reported: a refusal only of a new key, and of an erasure whether the key
  -- was there
  abbrev pub Allows : Index K V → List (Command K V) → List Bool → Type 0
  Allows m [] replies = Unit
  Allows m (call ∷ calls) [] = Unit
  Allows m (upserts k v _ ∷ calls) (reply ∷ replies) =
      ((reply ≡ true) ⊎ (lookup m k ≡ none)) × Allows (if reply then put k v m else m) calls replies
  Allows m (erases k ∷ calls) (reply ∷ replies) =
      (reply ≡ is_some (lookup m k)) × Allows (remove k m) calls replies

  -- the table is sound and reads as the map
  record Agrees (t : Storage K V) (m : Index K V) : Type 0 where
    sound : IsSound t
    reads : (p : K) → at t p ≡ lookup m p

  upsert-Agrees :
      (t : Storage K V) (m : Index K V) (k : K) (v : V) (can_allocate : Bool)
      → Agrees t m
      → Agrees
          (upsert t k v can_allocate).0
          (if succeeded (upsert t k v can_allocate).1 then put k v m else m)
        × ((succeeded (upsert t k v can_allocate).1 ≡ true) ⊎ (lookup m k ≡ none))
  upsert-Agrees t m k v can_allocate a =
      let all = λ (p : K). upsert-Refusal t k p v can_allocate a.sound in
      elim (all k).1 [
        | inl (s, x) ↦
            let done : succeeded (upsert t k v can_allocate).1 ≡ true = ap succeeded s in
            (
              rw done (record {
                sound = (all k).0;
                reads = λ p. elim (all p).1 [
                  | inl (s', y) ↦
                      y
                      ∙ ap (λ z. if e.same k p then some v else z) (a.reads p)
                      ∙ sym (lookup-put m k v p)
                  | inr (s', r) ↦
                      let never : success ≡ out_of_memory_heap = sym s ∙ s' in absurd (cc never)
                ];
              }),
              inl done,
            )
        | inr (s, r) ↦
            let refused : succeeded (upsert t k v can_allocate).1 ≡ false = ap succeeded s in
            (rw (refused, r.0) a, inr (sym (a.reads k) ∙ r.1))
      ]

  erase-Agrees :
      (t : Storage K V) (m : Index K V) (k : K)
      → Agrees t m
      → Agrees (erase t k).0 (remove k m) × ((erase t k).1 ≡ is_some (lookup m k))
  erase-Agrees t m k a =
      let all = λ (p : K). erase-at t k p a.sound in
      (
        record {
          sound = (all k).0;
          reads = λ p.
              (all p).1
              ∙ ap (λ z. if e.same k p then none else z) (a.reads p)
              ∙ sym (lookup-remove m k p);
        },
        (all k).2 ∙ ap is_some (a.reads k),
      )

  run-Agrees :
      (t : Storage K V) (m : Index K V) (calls : List (Command K V))
      → Agrees t m
      → Agrees (run t calls).0 (follow m calls (run t calls).1) × Allows m calls (run t calls).1
  unfolding run
  run-Agrees t m [] a = (a, tt)
  run-Agrees t m (upserts k v can_allocate ∷ calls) a =
      let first = upsert-Agrees t m k v can_allocate a in
      let result = upsert t k v can_allocate in
      let rest = run-Agrees result.0 (if succeeded result.1 then put k v m else m) calls first.0 in
      (rest.0, (first.1, rest.1))
  run-Agrees t m (erases k ∷ calls) a =
      let first = erase-Agrees t m k a in
      let rest = run-Agrees (erase t k).0 (remove k m) calls first.0 in (rest.0, (first.1, rest.1))

  unallocated-Agrees : Agrees unallocated []
  unfolding at probe_to_find
  unallocated-Agrees = record { sound = unallocated-IsSound; reads = λ p. refl }

  -- From the empty table, whatever the allocator answers, any sequence of insertions and erasures leaves a
  -- sound table that reads as the finite map that follows the same calls, and reports what that map allows:
  -- a refusal only of a new key, and of an erasure whether the key was there.
  pub run-Allows :
      (calls : List (Command K V)) (p : K)
      → IsSound (run unallocated calls).0
        × (at (run unallocated calls).0 p ≡ lookup (follow [] calls (run unallocated calls).1) p)
        × Allows [] calls (run unallocated calls).1
  run-Allows calls p =
      let all = run-Agrees unallocated [] calls unallocated-Agrees in
      (all.0.sound, all.0.reads p, all.1)
