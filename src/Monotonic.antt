-- ===== src/Monotonic.antt =====
-- The monotonic store, include/smashtable/monotonic_store.hpp, and the part of the transaction
-- vocabulary of include/smashtable/shared.hpp that it is built on: statuses, versions, the stamps
-- that make a version visible, and watches. Generations and stamps are unbounded naturals for the
-- `int64_t` of the code; what is below `uncommitted_k` is visible.
pub mod Index
pub mod Chain
pub mod Store
pub mod Transaction
pub mod Commit
use smash_table.Base.{ℕ, ◌≡◌, Bool, true, false, ◌&&◌, not, leb, ◌==◌, Option, none, some}

-- the equality of keys that an index decides by: the comparator's equivalence, or `equal_to`
pub record KeyEquality (K : Type 0) : Type 0 where
  pub same : K → K → Bool
  pub same_refl : (k : K) → same k k ≡ true
  pub same_congr : (j k m : K) → same j k ≡ true → same j m ≡ same k m

-- the stored values: `mapping_key_or_itself`, and the value made from a bare key,
-- `value_t {identifier}`
pub record Item (K V : Type 0) : Type 0 where
  pub key : V → K
  pub blank : K → V

-- `status_t`, the statuses that the store returns
pub data Status : Type 0 where
  success consistency read_conflict out_of_memory_heap operation_not_permitted : Status
  key_already_exists key_not_found : Status

abbrev pub failed : Status → Bool
failed success = false
failed consistency = true
failed read_conflict = true
failed out_of_memory_heap = true
failed operation_not_permitted = true
failed key_already_exists = true
failed key_not_found = true

-- `presence_t`
pub data Presence : Type 0 where
  present erased : Presence

abbrev pub is_present : Presence → Bool
is_present present = true
is_present erased = false

abbrev pub is_erased : Presence → Bool
is_erased p = not (is_present p)

-- `staging_t`
pub data Staging : Type 0 where
  pending staged : Staging

abbrev pub is_staged : Staging → Bool
is_staged pending = false
is_staged staged = true

-- `unmask_outcome_t`
pub data UnmaskOutcome : Type 0 where
  unmasked already_published version_missing : UnmaskOutcome

-- `absent_generation_k`, `commit_stamp_t::uncommitted_k`, `latest_snapshot_k`
abbrev pub absent_generation_k : ℕ
absent_generation_k = 0

abbrev pub uncommitted_k : ℕ
uncommitted_k = 9223372036854775807

abbrev pub latest_snapshot_k : ℕ
latest_snapshot_k = 9223372036854775806

unfoldable pub visible_at : ℕ → ℕ → Bool
visible_at stamp snapshot = leb stamp snapshot

unfoldable pub visible_now : ℕ → Bool
unfolding visible_at
visible_now stamp = visible_at stamp latest_snapshot_k

-- `versioned_t`
pub record Versioned (V : Type 0) : Type 0 where
  pub payload : V
  pub generation : ℕ
  pub presence : Presence
  pub committed : ℕ

-- `watch_t` and its equality
pub record Watch : Type 0 where
  pub generation : ℕ
  pub presence : Presence

abbrev pub same_watch : Watch → Watch → Bool
same_watch a b =
    a.generation == b.generation
    && elim a.presence [ present ↦ is_present b.presence | erased ↦ is_erased b.presence ]

abbrev pub missing_watch : Watch
missing_watch = record { generation = absent_generation_k; presence = erased }

unfoldable pub watch_shape_of : {V : Type 0} → Option (Versioned V) → Watch
watch_shape_of none = missing_watch
watch_shape_of (some v) = record { generation = v.generation; presence = v.presence }

unfoldable pub watch_drifted : Watch → Watch → Bool
watch_drifted recorded now =
    not (same_watch recorded now)
    && not (is_erased recorded.presence && same_watch now missing_watch)
