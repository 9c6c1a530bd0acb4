-- ===== src/Monotonic/Transaction.antt =====
-- `transaction_t` of include/smashtable/monotonic_store.hpp: the change set, the watches, and the two
-- phases that move the changes into the store and make them visible. A transaction that was moved
-- from is out of the model; what its destructor does is `reset` without a new generation.
pub mod Reserving
pub mod Attaching
pub mod Stage
pub mod Success
pub mod Writes
pub mod Watching
use smash_table.Base.{
  ℕ, zero, suc, ◌+◌, ◌-◌, Bool, true, false, if◌then◌else◌, List, [], ◌∷◌, ◌++◌, Option, none, some,
  is_some,
}
use smash_table.Monotonic.{
  KeyEquality, Item, Versioned, Status, success, consistency, read_conflict, out_of_memory_heap,
  operation_not_permitted, key_already_exists, key_not_found, failed, present, erased, is_present,
  Staging, pending, staged, is_staged, uncommitted_k, Watch, missing_watch, watch_shape_of,
  watch_drifted,
}
use smash_table.Monotonic.Index.{Index, lookup, put, remove, set}
use smash_table.Monotonic.Chain.{
  Chain, Counts, chain_attach, chain_discard, unmask_and_compact, if_present,
}
use smash_table.Monotonic.Store
use smash_table.Monotonic.Store.{Store, find_committed_entry, payload_of}

-- `changes_`, `watches_`, `changed_identifiers_`, `generation_`, `staging_`
pub record Transaction (K V : Type 0) : Type 0 where
  pub changes : Index K (Versioned V)
  pub watches : List (K × Watch)
  pub changed_identifiers : List K
  pub generation : ℕ
  pub staging : Staging

-- what the allocators give one write: the copies of the key, room in the list, a node of the set
pub record WriteMemory : Type 0 where
  pub copied : Bool
  pub reserved : Bool
  pub stored : Bool

-- what the allocators give while a transaction stages: the room asked for first, the copy and the
-- entry for each changed key by its position, and all of the spare nodes
pub record StagingMemory : Type 0 where
  pub prepared : Bool
  pub slot : ℕ → Bool
  pub spares : Bool

-- what the first pass of `stage` leaves
pub record Reserved (K V : Type 0) : Type 0 where
  pub entries : Index K (Chain V)
  pub spare_versions_needed : ℕ
  pub refused_at : Option ℕ

abbrev pub take_keys : {K : Type 0} → ℕ → List K → List K
take_keys zero qs = []
take_keys (suc n) [] = []
take_keys (suc n) (q ∷ qs) = q ∷ take_keys n qs

module _ {K V : Type 0} ⦃e : KeyEquality K⦄ where
  -- `store.transaction()`
  unfoldable pub transaction : Store K V → Store K V × Transaction K V
  transaction s = (
    record s { generation = s.generation + 1 },
    record {
      changes = [];
      watches = [];
      changed_identifiers = [];
      generation = s.generation + 1;
      staging = pending;
    },
  )

  -- `stage_`: the change is listed once, however often its key is written
  unfoldable pub stage_change :
      Transaction K V → K → Versioned V → WriteMemory → Transaction K V × Status
  stage_change t q w memory =
      let listed = is_some (lookup t.changes q) in
      if is_staged t.staging
      then (t, operation_not_permitted)
      else (if memory.reserved
          then (if memory.stored
              then (
                record t {
                  changes = put q (record w { generation = t.generation }) t.changes;
                  changed_identifiers =
                      if listed then t.changed_identifiers else t.changed_identifiers ++ q ∷ [];
                },
                success,
              )
              else (t, out_of_memory_heap))
          else (t, out_of_memory_heap))

  unfoldable pub find : Store K V → Transaction K V → K → Option V
  unfolding Store.find
  find s t q = elim (lookup t.changes q) [
    | some w ↦ if is_present w.presence then some w.payload else none
    | none ↦ Store.find s q
  ]

  unfoldable pub contains : Store K V → Transaction K V → K → Bool
  unfolding find
  contains s t q = is_some (find s t q)

  -- a key is watched where both its copy and its place in the read set are there
  unfoldable pub watch : Store K V → Transaction K V → K → Bool → Transaction K V × Status
  watch s t q can_push =
      if can_push
      then (
        record t { watches = t.watches ++ (q, watch_shape_of (find_committed_entry s q)) ∷ [] },
        success,
      )
      else (t, out_of_memory_heap)

  abbrev pub validate_watches : Store K V → List (K × Watch) → Status
  validate_watches s [] = success
  validate_watches s ((q, recorded) ∷ ws) =
      if watch_drifted recorded (watch_shape_of (find_committed_entry s q))
      then read_conflict
      else validate_watches s ws

  -- `unstage_` over the listed keys
  abbrev pub unstage : List K → ℕ → Index K (Chain V) → Index K (Chain V)
  unstage [] g m = m
  unstage (q ∷ qs) g m = unstage qs g (set q (chain_discard (lookup m q) g).chain m)

  -- a version filed into the chain that was reserved for it, and the spare nodes left
  abbrev pub attach : K → Versioned V → Index K (Chain V) × ℕ → Index K (Chain V) × ℕ
  attach q w (m, spares) = elim (lookup m q) [
    | none ↦ (m, spares)
    | some c ↦ let (c', taken) = chain_attach c w in (put q c' m, spares - taken)
  ]

  -- the second pass of `stage`
  abbrev pub attach_changes : Index K (Versioned V) → Index K (Chain V) × ℕ → Index K (Chain V) × ℕ
  attach_changes [] m = m
  attach_changes ((q, w) ∷ changes) m = attach_changes changes (attach q w m)

module _ {K V : Type 0} ⦃e : KeyEquality K⦄ ⦃i : Item K V⦄ where
  -- the entry that a key without one is given, to be overwritten by its version
  abbrev pub reservation : K → ℕ → Chain V
  reservation q g = record {
    head = record {
      payload = i.blank q;
      generation = g;
      presence = present;
      committed = uncommitted_k;
    };
    others = [];
  }

  -- the first pass of `stage`, from the changed key at position `index` on
  unfoldable pub reserve_slots : List K → ℕ → ℕ → (ℕ → Bool) → ℕ → Index K (Chain V) → Reserved K V
  reserve_slots [] index g slot needed m = record {
    entries = m;
    spare_versions_needed = needed;
    refused_at = none;
  }
  reserve_slots (q ∷ qs) index g slot needed m = elim (lookup m q) [
    | some c ↦ reserve_slots qs (index + 1) g slot (needed + 1) m
    | none ↦ elim (slot index) [
      | true ↦ reserve_slots qs (index + 1) g slot needed (put q (reservation q g) m)
      | false ↦ record { entries = m; spare_versions_needed = needed; refused_at = some index }
    ]
  ]

  unfoldable pub stage :
      Store K V → Transaction K V → StagingMemory → Store K V × Transaction K V × Status
  unfolding reserve_slots
  stage s t memory =
      let validated = validate_watches s t.watches in
      let ids = t.changed_identifiers in
      let reserved = reserve_slots ids 0 t.generation memory.slot 0 s.entries in
      let moved =
        attach_changes t.changes
          (reserved.entries, s.spare_versions + reserved.spare_versions_needed) in
      if is_staged t.staging
      then (s, t, operation_not_permitted)
      else (if memory.prepared
          then (if failed validated then (s, t, validated) else elim reserved.refused_at [
            | some processed ↦ (
              record s {
                entries = unstage (take_keys processed ids) t.generation reserved.entries;
              },
              t,
              out_of_memory_heap,
            )
            | none ↦
                if memory.spares
                then (
                  record s { entries = moved.0; spare_versions = moved.1 },
                  record t { changes = []; staging = staged },
                  success,
                )
                else (
                  record s {
                    entries = unstage ids t.generation reserved.entries;
                    spare_versions = 0;
                  },
                  t,
                  out_of_memory_heap,
                )
          ])
          else (s, t, out_of_memory_heap))

  unfoldable pub upsert : Transaction K V → V → WriteMemory → Transaction K V × Status
  unfolding stage_change
  upsert t v memory =
      if memory.copied
      then stage_change t (i.key v)
          (record { payload = v; generation = 0; presence = present; committed = uncommitted_k })
          memory
      else (t, out_of_memory_heap)

  unfoldable pub erase : Store K V → Transaction K V → K → WriteMemory → Transaction K V × Status
  unfolding contains stage_change
  erase s t q memory =
      let tombstone : Versioned V = record {
        payload = i.blank q;
        generation = 0;
        presence = erased;
        committed = uncommitted_k;
      } in
      if contains s t q
      then (if memory.copied then stage_change t q tombstone memory else (t, out_of_memory_heap))
      else (t, key_not_found)

  unfoldable pub insert : Store K V → Transaction K V → V → WriteMemory → Transaction K V × Status
  unfolding contains upsert
  insert s t v memory =
      if contains s t (i.key v) then (t, key_already_exists) else upsert t v memory

  unfoldable pub insert_if_missing :
      Store K V → Transaction K V → V → WriteMemory → Transaction K V × Status
  unfolding contains upsert
  insert_if_missing s t v memory =
      if contains s t (i.key v) then (t, success) else upsert t v memory

  unfoldable pub update : Store K V → Transaction K V → V → WriteMemory → Transaction K V × Status
  unfolding contains upsert
  update s t v memory = if contains s t (i.key v) then upsert t v memory else (t, key_not_found)
