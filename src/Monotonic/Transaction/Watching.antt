-- ===== src/Monotonic/Transaction/Watching.antt =====
-- What a watched key does to a transaction, include/smashtable/monotonic_store.hpp and
-- include/smashtable/shared.hpp.
use smash_table.Base.{
  ℕ, ◌+◌, ◌≤◌, ◌<◌, ◌≡◌, refl, ◌∙◌, ap, arith, Bool, true, false, Bool-cases, inl, inr, List, [],
  ◌∷◌, ◌++◌, All, Option, none, some,
}
use smash_table.Monotonic.{
  KeyEquality, Item, Versioned, success, read_conflict, present, Watch, watch_shape_of,
  watch_drifted, is_staged, uncommitted_k, visible_now,
}
use smash_table.Monotonic.Index.{lookup}
use smash_table.Monotonic.Chain.{Chain, versions, visible_version, first_visible}
use smash_table.Monotonic.Store.{Store, committed_of, find_committed_entry, upsert, file}
use smash_table.Monotonic.Store.Updates.{file_at, visible_drawn}
use smash_table.Monotonic.Transaction.{Transaction, StagingMemory, watch, validate_watches, stage}
use smash_table.Monotonic.Transaction.Writes.{Dated}

module _ {V : Type 0} where
  -- a watch taken of a version of generation `g` or earlier, or of none, against a later version
  drifted_later :
      (x : Option (Versioned V)) (w : Versioned V) (g : ℕ)
      → ((v : Versioned V) → x ≡ some v → v.generation ≤ g)
      → w.generation ≡ g + 1
      → w.presence ≡ present
      → watch_drifted (watch_shape_of x) (watch_shape_of (some w)) ≡ true
  unfolding watch_drifted watch_shape_of
  drifted_later none w g old h k = ground (arith, h, k)
  drifted_later (some v) w g old h k = ground (arith, h, k, old v refl)

  first_visible-Dated :
      (vs : List (Versioned V)) (v : Versioned V) (g : ℕ)
      → All (λ (x : Versioned V). x.generation ≤ g) vs
      → first_visible vs ≡ some v
      → v.generation ≤ g
  first_visible-Dated [] v g h f = absurd (ground (arith, f))
  first_visible-Dated (x ∷ xs) v g h f = elim (Bool-cases (visible_now x.committed)) [
    | inl t ↦
        let only : ◌≡◌ {A = Option (Versioned V)} (some x) (some v) = rw t at f in
        let same : x ≡ v = cc only in omega (arith, h.0, ap (λ y. y.generation) same)
    | inr t ↦ first_visible-Dated xs v g h.1 (rw t at f)
  ]

  committed_of-Dated :
      (x : Option (Chain V)) (v : Versioned V) (g : ℕ)
      → Dated g x
      → committed_of x ≡ some v
      → v.generation ≤ g
  unfolding visible_version
  committed_of-Dated none v g h f = absurd (ground (arith, f))
  committed_of-Dated (some c) v g h f = first_visible-Dated (versions c) v g h f

module _ {K V : Type 0} ⦃e : KeyEquality K⦄ where
  -- one watch that drifted is a conflict, whatever was watched before it
  validate_watches-append :
      (s : Store K V) (ws : List (K × Watch)) (q : K) (recorded : Watch)
      → watch_drifted recorded (watch_shape_of (find_committed_entry s q)) ≡ true
      → validate_watches s (ws ++ (q, recorded) ∷ []) ≡ read_conflict
  validate_watches-append s [] q recorded h = rw h refl
  validate_watches-append s ((k, r) ∷ ws) q recorded h =
      elim (Bool-cases (watch_drifted r (watch_shape_of (find_committed_entry s k)))) [
        | inl t ↦ rw t refl
        | inr t ↦ rw t (validate_watches-append s ws q recorded h)
      ]

module _ {K V : Type 0} ⦃e : KeyEquality K⦄ ⦃i : Item K V⦄ where
  -- A pending transaction that watched a key, and over which a direct upsert of that key was then
  -- published, is refused with a read conflict when it stages, and nothing is changed by that. The
  -- store held no version later than its clock, the clock of commits has not run out, and the core
  -- had the room that `stage` asks for first.
  pub stage-watch :
      (s : Store K V) (t : Transaction K V) (q : K) (v : V) (can_allocate : Bool)
      (memory : StagingMemory)
      → ((p : K) → Dated s.generation (lookup s.entries p))
      → s.commits + 1 < uncommitted_k
      → e.same (i.key v) q ≡ true
      → (upsert s v can_allocate).1 ≡ success
      → is_staged t.staging ≡ false
      → memory.prepared ≡ true
      → stage (upsert s v can_allocate).0 (watch s t q true).0 memory
        ≡ ((upsert s v can_allocate).0, (watch s t q true).0, read_conflict)
  unfolding watch upsert find_committed_entry stage
  stage-watch s t q v can_allocate memory old clock same done fresh room =
      let w : Versioned V = record {
        payload = v;
        generation = s.generation + 1;
        presence = present;
        committed = s.commits + 1;
      } in
      let drawn = record s { generation = s.generation + 1; commits = s.commits + 1 } in
      let s' = (file drawn (i.key v) w can_allocate).0 in
      let recorded = watch_shape_of (committed_of (lookup s.entries q)) in
      let now : committed_of (lookup s'.entries q) ≡ some w =
        file_at drawn (i.key v) w can_allocate q (visible_drawn (s.commits + 1) clock)
        ∙ rw (done, same) refl in
      let drifted : watch_drifted recorded (watch_shape_of (find_committed_entry s' q)) ≡ true =
        rw now (
          drifted_later (committed_of (lookup s.entries q)) w s.generation
            (λ x h. committed_of-Dated (lookup s.entries q) x s.generation (old q) h) refl refl) in
      let conflict = validate_watches-append s' t.watches q recorded drifted in
      rw (fresh, room, conflict, stage) refl
