-- ===== src/Monotonic/Transaction/Writes.antt =====
-- The writes of a transaction before it stages, include/smashtable/monotonic_store.hpp.
use smash_table.Base.{
  ℕ, ◌+◌, ◌≤◌, ◌≡◌, All, refl, sym, ◌∙◌, ap, arith, true, false, Bool-cases, inl, inr,
  if◌then◌else◌, List, [], ◌∷◌, ◌++◌, Option, none, some, is_some,
}
use smash_table.Monotonic.{
  KeyEquality, Item, Versioned, success, operation_not_permitted, out_of_memory_heap, key_not_found,
  present, erased, is_present, is_staged, uncommitted_k, visible_now, visible_at,
}
use smash_table.Monotonic.Index.{lookup, put, lookup-put, put-IsIndex, differs_sym}
use smash_table.Monotonic.Chain.{Chain, versions, carries}
use smash_table.Monotonic.Chain.Versions.{carried}
use smash_table.Monotonic.Store
use smash_table.Monotonic.Store.{Store}
use smash_table.Monotonic.Transaction.{
  Transaction, WriteMemory, stage_change, find, contains, upsert, erase, transaction,
}
use smash_table.Monotonic.Transaction.Reserving.{lists}
use smash_table.Monotonic.Transaction.Stage.{IsReady, IsFresh}
use smash_table.Monotonic.Commit.Publish.{IsDistinct, lists_same}

module _ {K : Type 0} ⦃e : KeyEquality K⦄ where
  lists-append :
      (qs : List K) (q p : K) → lists (qs ++ q ∷ []) p ≡ (if e.same q p then true else lists qs p)
  lists-append [] q p = refl
  lists-append (k ∷ qs) q p = ground (arith, lists-append qs q p)

  append-IsDistinct :
      (qs : List K) (q : K) → IsDistinct qs → lists qs q ≡ false → IsDistinct (qs ++ q ∷ [])
  append-IsDistinct [] q d n = (refl, tt)
  append-IsDistinct (k ∷ qs) q d n = elim (Bool-cases (e.same k q)) [
    | inl t ↦ absurd (ground (arith, t, n))
    | inr t ↦
        (lists-append qs q k ∙ rw (differs_sym k q t) d.0, append-IsDistinct qs q d.1 (rw t at n))
  ]

module _ {V : Type 0} where
  -- no version of a chain is of a later generation
  abbrev pub Dated : ℕ → Option (Chain V) → Type 0
  Dated g none = Unit
  Dated g (some c) = All (λ (v : Versioned V). v.generation ≤ g) (versions c)

  carries_later :
      (g : ℕ) (vs : List (Versioned V))
      → All (λ (v : Versioned V). v.generation ≤ g) vs
      → carries (g + 1) vs ≡ false
  carries_later g [] h = refl
  carries_later g (v ∷ vs) h = ground (arith, h.0, carries_later g vs h.1)

  carried_later : (g : ℕ) (x : Option (Chain V)) → Dated g x → carried (g + 1) x ≡ false
  carried_later g none h = refl
  carried_later g (some c) h = carries_later g (versions c) h

module _ {K V : Type 0} ⦃e : KeyEquality K⦄ where
  -- the changes and the list of a transaction that may stage
  pub record IsOpen (t : Transaction K V) : Type 0 where
    pub ready : IsReady t
    pub distinct : IsDistinct t.changed_identifiers

  -- a transaction after one more change
  abbrev pub changed : Transaction K V → K → Versioned V → Transaction K V
  changed t q w = record t {
    changes = put q (record w { generation = t.generation }) t.changes;
    changed_identifiers =
        if is_some (lookup t.changes q)
        then t.changed_identifiers
        else t.changed_identifiers ++ q ∷ [];
  }

  changed-IsOpen :
      (t : Transaction K V) (q : K) (w : Versioned V)
      → visible_now w.committed ≡ false
      → IsOpen t
      → IsOpen (changed t q w)
  changed-IsOpen t q w hidden open' =
      let r = open'.ready in
      let v : Versioned V = record w { generation = t.generation } in
      let at = lookup-put t.changes q v in
      record {
        ready = record {
          indexed = put-IsIndex t.changes q v r.indexed;
          listed = λ p. elim (Bool-cases (is_some (lookup t.changes q))) [
            | inl l ↦ elim (Bool-cases (e.same q p)) [
              | inl s ↦
                  rw (l, at p, s) (sym (lists_same t.changed_identifiers q p s) ∙ r.listed q ∙ l)
              | inr s ↦ rw (l, at p, s) (r.listed p)
            ]
            | inr l ↦
                let listed = lists-append t.changed_identifiers q p in
                elim (Bool-cases (e.same q p)) [
                  | inl s ↦ rw (l, at p, s) (listed ∙ rw s refl)
                  | inr s ↦ rw (l, at p, s) (listed ∙ rw s (r.listed p))
                ]
          ];
          own = λ p x h. elim (Bool-cases (e.same q p)) [
            | inl s ↦
                let only : ◌≡◌ {A = Option (Versioned V)} (some v) (some x) = rw (at p, s) at h in
                let same : v ≡ x = cc only in
                (
                  ap (λ y. y.generation) (sym same),
                  ap (λ y. visible_now y.committed) (sym same) ∙ hidden,
                )
            | inr s ↦ r.own p x (rw (at p, s) at h)
          ];
        };
        distinct = elim (Bool-cases (is_some (lookup t.changes q))) [
          | inl l ↦ rw l open'.distinct
          | inr l ↦ rw l (append-IsDistinct t.changed_identifiers q open'.distinct (r.listed q ∙ l))
        ];
      }

  find-changed :
      (s : Store K V) (t : Transaction K V) (q : K) (w : Versioned V) (p : K)
      → find s (changed t q w) p ≡ (
          if e.same q p
          then (if is_present w.presence then some w.payload else none)
          else find s t p)
  unfolding find
  find-changed s t q w p =
      let at = lookup-put t.changes q (record w { generation = t.generation }) p in
      elim (Bool-cases (e.same q p)) [
        | inl h ↦ rw (at, h, find) refl
        | inr h ↦ rw (at, h, find) refl
      ]

  stage_change_success :
      (t : Transaction K V) (q : K) (w : Versioned V) (memory : WriteMemory)
      → (stage_change t q w memory).1 ≡ success
      → (stage_change t q w memory).0 ≡ changed t q w
  unfolding stage_change
  stage_change_success t q w memory f = elim (Bool-cases (is_staged t.staging)) [
    | inl a ↦
        let never : operation_not_permitted ≡ success = rw (a, stage_change) at f in
        absurd (ground (arith, never))
    | inr a ↦ elim (Bool-cases memory.reserved) [
      | inr b ↦
          let never : out_of_memory_heap ≡ success = rw (a, b, stage_change) at f in
          absurd (ground (arith, never))
      | inl b ↦ elim (Bool-cases memory.stored) [
        | inr c ↦
            let never : out_of_memory_heap ≡ success = rw (a, b, c, stage_change) at f in
            absurd (ground (arith, never))
        | inl c ↦ rw (a, b, c, stage_change) refl
      ]
    ]
  ]

  -- A transaction that was just opened may stage: it has no change yet, and where the store holds no
  -- version later than its clock of generations, none carries the transaction's generation.
  pub transaction_lem :
      (s : Store K V)
      → ((p : K) → Dated s.generation (lookup s.entries p))
      → IsOpen (transaction s).1
        × IsFresh (transaction s).1.generation (transaction s).0.entries
        × ((p : K) → find (transaction s).0 (transaction s).1 p ≡ Store.find s p)
  unfolding transaction find
  transaction_lem s h = (
    record {
      ready = record {
        indexed = tt;
        listed = λ p. refl;
        own = λ p w k. absurd (ground (arith, k));
      };
      distinct = tt;
    },
    (λ p. carried_later s.generation (lookup s.entries p) (h p)),
    λ p. refl,
  )

uncommitted_hidden : visible_now uncommitted_k ≡ false
unfolding visible_now visible_at
uncommitted_hidden = refl

module _ {K V : Type 0} ⦃e : KeyEquality K⦄ ⦃i : Item K V⦄ where
  -- An upsert that succeeds, of a transaction whose changes are ready to stage, each key listed once, keeps
  -- them so, and the transaction then reads the new value at its key and what it read before at the others.
  pub find-upsert :
      (s : Store K V) (t : Transaction K V) (v : V) (memory : WriteMemory)
      → IsOpen t
      → (upsert t v memory).1 ≡ success
      → IsOpen (upsert t v memory).0
        × ((p : K)
            → find s (upsert t v memory).0 p ≡ (if e.same (i.key v) p then some v else find s t p))
  unfolding upsert
  find-upsert s t v memory open' f = elim (Bool-cases memory.copied) [
    | inr a ↦
        let never : out_of_memory_heap ≡ success = rw (a, upsert) at f in
        absurd (ground (arith, never))
    | inl a ↦
        let w : Versioned V = record {
          payload = v;
          generation = 0;
          presence = present;
          committed = uncommitted_k;
        } in
        let out = stage_change_success t (i.key v) w memory (rw (a, upsert) at f) in
        rw (a, upsert, out)
          (changed-IsOpen t (i.key v) w uncommitted_hidden open', find-changed s t (i.key v) w)
  ]

  -- An erasure of a transaction whose changes are ready to stage, each key listed once, succeeds only for a
  -- key that the transaction reads. It keeps them so, and the transaction then reads nothing at the key
  -- and what it read before at the others.
  pub find-erase :
      (s : Store K V) (t : Transaction K V) (q : K) (memory : WriteMemory)
      → IsOpen t
      → (erase s t q memory).1 ≡ success
      → (contains s t q ≡ true)
        × IsOpen (erase s t q memory).0
        × ((p : K) → find s (erase s t q memory).0 p ≡ (if e.same q p then none else find s t p))
  unfolding erase
  find-erase s t q memory open' f = elim (Bool-cases (contains s t q)) [
    | inr h ↦
        let never : key_not_found ≡ success = rw (h, erase) at f in absurd (ground (arith, never))
    | inl h ↦ elim (Bool-cases memory.copied) [
      | inr a ↦
          let never : out_of_memory_heap ≡ success = rw (h, a, erase) at f in
          absurd (ground (arith, never))
      | inl a ↦
          let w : Versioned V = record {
            payload = i.blank q;
            generation = 0;
            presence = erased;
            committed = uncommitted_k;
          } in
          let out = stage_change_success t q w memory (rw (h, a, erase) at f) in
          rw (h, a, erase, out)
            (refl, changed-IsOpen t q w uncommitted_hidden open', find-changed s t q w)
    ]
  ]
