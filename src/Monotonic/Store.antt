-- ===== src/Monotonic/Store.antt =====
-- The state of `monotonic_store`, include/smashtable/monotonic_store.hpp, its reads and its writes
-- outside a transaction. Where an allocation may fail, a Boolean says whether it gives a node. A read
-- with callbacks returns what it would hand over, and a write is taken without its callbacks.
pub mod Updates
pub mod Erasure
use smash_table.Base.{
  ℕ, ◌+◌, ◌-◌, Bool, true, false, if◌then◌else◌, List, [], ◌∷◌, Option, none, some, is_some,
}
use smash_table.Monotonic.{
  KeyEquality, Item, Versioned, Status, success, out_of_memory_heap, key_already_exists,
  key_not_found, operation_not_permitted, present, is_erased, Watch, watch_shape_of,
}
use smash_table.Monotonic.Index.{Index, lookup, put, remove, set}
use smash_table.Monotonic.Chain.{
  Chain, Counts, DetachOutcome, not_found, detached, detached_and_emptied, visible_version,
  readable_version, holds_staged_version, is_reclaimable, publish_directly, retire_visible, retired,
}

-- `entries_`, `generation_`, `commits_`, the counters, and how many `spare_versions_` there are
pub record Store (K V : Type 0) : Type 0 where
  pub entries : Index K (Chain V)
  pub generation : ℕ
  pub commits : ℕ
  pub counts : Counts
  pub spare_versions : ℕ

module _ {K V : Type 0} where
  unfoldable pub size : Store K V → ℕ
  size s = s.counts.visible_count - s.counts.visible_deleted_count

module _ {V : Type 0} where
  abbrev pub committed_of : Option (Chain V) → Option (Versioned V)
  committed_of none = none
  committed_of (some c) = visible_version c

  abbrev pub readable_of : Option (Chain V) → Option (Versioned V)
  readable_of none = none
  readable_of (some c) = readable_version c

  abbrev pub payload_of : Option (Versioned V) → Option V
  payload_of none = none
  payload_of (some v) = some v.payload

module _ {K V : Type 0} ⦃e : KeyEquality K⦄ where
  -- what a watch is validated against
  unfoldable pub find_committed_entry : Store K V → K → Option (Versioned V)
  find_committed_entry s q = committed_of (lookup s.entries q)

  unfoldable pub find : Store K V → K → Option V
  find s q = payload_of (readable_of (lookup s.entries q))

  unfoldable pub contains : Store K V → K → Bool
  unfolding find
  contains s q = is_some (find s q)

  -- any chain that `clear` would drop a staged version with
  abbrev pub any_staged_entry : Index K (Chain V) → Bool
  any_staged_entry [] = false
  any_staged_entry ((_, c) ∷ m) = if holds_staged_version c then true else any_staged_entry m

  unfoldable pub clear : Store K V → Store K V × Status
  clear s = if any_staged_entry s.entries then (s, operation_not_permitted) else (
    record s { entries = []; counts = record { visible_count = 0; visible_deleted_count = 0 } },
    success,
  )

module _ {K V : Type 0} ⦃e : KeyEquality K⦄ ⦃i : Item K V⦄ where
  -- the store after the new version was filed under its key
  abbrev pub file : Store K V → K → Versioned V → Bool → Store K V × Status
  file s q w can_allocate = elim (lookup s.entries q) [
    | some c ↦
        let (c', counts, status) = publish_directly c w can_allocate s.counts in
        (record s { entries = put q c' s.entries; counts = counts }, status)
    | none ↦
        if can_allocate
        then (
          record s {
            entries = put q (record { head = w; others = [] }) s.entries;
            counts = record s.counts { visible_count = s.counts.visible_count + 1 };
          },
          success,
        )
        else (s, out_of_memory_heap)
  ]

  -- The generation and the stamp are drawn whether or not the version is filed.
  unfoldable pub upsert : Store K V → V → Bool → Store K V × Status
  upsert s v can_allocate =
      file (record s { generation = s.generation + 1; commits = s.commits + 1 }) (i.key v)
        (record {
          payload = v;
          generation = s.generation + 1;
          presence = present;
          committed = s.commits + 1;
        })
        can_allocate

  unfoldable pub insert : Store K V → V → Bool → Store K V × Status
  unfolding contains upsert
  insert s v can_allocate =
      if contains s (i.key v) then (s, key_already_exists) else upsert s v can_allocate

  unfoldable pub insert_if_missing : Store K V → V → Bool → Store K V × Status
  unfolding contains upsert
  insert_if_missing s v can_allocate =
      if contains s (i.key v) then (s, success) else upsert s v can_allocate

  unfoldable pub update : Store K V → V → Bool → Store K V × Status
  unfolding contains upsert
  update s v can_allocate =
      if contains s (i.key v) then upsert s v can_allocate else (s, key_not_found)

module _ {K V : Type 0} ⦃e : KeyEquality K⦄ where
  -- the published version of a key goes; the entry stays where a staged one hangs off it
  unfoldable pub erase : Store K V → K → Store K V × Status
  unfolding contains
  erase s q =
      if contains s q
      then elim (lookup s.entries q) [
        | none ↦ (s, success)
        | some c ↦
            let (left, counts) = retire_visible c s.counts in
            (record s { entries = set q left.chain s.entries; counts = counts }, success)
      ]
      else (s, key_not_found)
