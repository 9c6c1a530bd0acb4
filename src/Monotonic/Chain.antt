-- ===== src/Monotonic/Chain.antt =====
-- The version chain of one key, `versioned_chain_t` of include/smashtable/monotonic_store.hpp: a
-- version in the inline slot and the overflow nodes behind it. The index files the chain under its
-- key. The operations that look the key up first are given what the lookup found, and say what is
-- left there: `none` where the entry leaves the index.
pub mod Versions
pub mod Unmasking
use smash_table.Base.{
  ℕ, zero, suc, ◌+◌, ◌-◌, Bool, true, false, ◌&&◌, not, ◌==◌, if◌then◌else◌, List, [], ◌∷◌, Option,
  none, some, length,
}
use smash_table.Monotonic.{
  Versioned, Presence, present, erased, is_present, is_erased, visible_now, UnmaskOutcome, unmasked,
  already_published, version_missing, Status, success, out_of_memory_heap,
}

pub record Chain (V : Type 0) : Type 0 where
  pub head : Versioned V
  pub others : List (Versioned V)

-- `detach_outcome_t`
pub data DetachOutcome : Type 0 where
  not_found detached detached_and_emptied : DetachOutcome

-- what a detachment leaves of the chain, and the version that it took out
pub record Detached (V : Type 0) : Type 0 where
  pub chain : Option (Chain V)
  pub outcome : DetachOutcome
  pub destination : Option (Versioned V)

-- `visible_count_` and `visible_deleted_count_`
pub record Counts : Type 0 where
  pub visible_count : ℕ
  pub visible_deleted_count : ℕ

-- what an unmasking leaves
pub record Unmasked (V : Type 0) : Type 0 where
  pub chain : Option (Chain V)
  pub counts : Counts
  pub outcome : UnmaskOutcome

module _ {V : Type 0} where
  -- the counters once a visible version goes; where the code's would wrap below 0 these stop
  abbrev pub retired : Versioned V → Counts → Counts
  retired v n = record {
    visible_count = n.visible_count - 1;
    visible_deleted_count = n.visible_deleted_count - (if is_erased v.presence then 1 else 0);
  }

  abbrev pub versions : Chain V → List (Versioned V)
  versions c = c.head ∷ c.others

  -- the walk of `visible_version_`
  abbrev pub first_visible : List (Versioned V) → Option (Versioned V)
  first_visible [] = none
  first_visible (v ∷ vs) = if visible_now v.committed then some v else first_visible vs

  unfoldable pub visible_version : Chain V → Option (Versioned V)
  visible_version c = if visible_now c.head.committed then some c.head else first_visible c.others

  abbrev pub if_present : Option (Versioned V) → Option (Versioned V)
  if_present none = none
  if_present (some v) = if is_present v.presence then some v else none

  -- the visible version overwritten in its slot
  abbrev pub overwrite : Versioned V → List (Versioned V) → List (Versioned V)
  overwrite w [] = []
  overwrite w (v ∷ vs) = if visible_now v.committed then w ∷ vs else v ∷ overwrite w vs

  abbrev pub replace_visible : Chain V → Versioned V → Chain V
  replace_visible c w =
      if visible_now c.head.committed
      then record c { head = w }
      else record c { others = overwrite w c.others }

  unfoldable pub readable_version : Chain V → Option (Versioned V)
  unfolding visible_version
  readable_version c = if_present (visible_version c)

  abbrev pub any_staged : List (Versioned V) → Bool
  any_staged [] = false
  any_staged (v ∷ vs) = if not (visible_now v.committed) then true else any_staged vs

  unfoldable pub holds_staged_version : Chain V → Bool
  holds_staged_version c = if not (visible_now c.head.committed) then true else any_staged c.others

  unfoldable pub is_reclaimable : Chain V → Bool
  is_reclaimable c = elim c.others [
    | [] ↦ visible_now c.head.committed && is_erased c.head.presence
    | _ ∷ _ ↦ false
  ]

  -- whether a version carries the generation
  abbrev pub carries : ℕ → List (Versioned V) → Bool
  carries g [] = false
  carries g (v ∷ vs) = if v.generation == g then true else carries g vs

  -- the version that carries the generation
  abbrev pub version_of : ℕ → List (Versioned V) → Option (Versioned V)
  version_of g [] = none
  version_of g (v ∷ vs) = if v.generation == g then some v else version_of g vs

  -- the first version that carries the generation, replaced or unlinked
  abbrev pub replace : ℕ → Versioned V → List (Versioned V) → List (Versioned V)
  replace g w [] = []
  replace g w (v ∷ vs) = if v.generation == g then w ∷ vs else v ∷ replace g w vs

  abbrev pub unlink : ℕ → List (Versioned V) → List (Versioned V)
  unlink g [] = []
  unlink g (v ∷ vs) = if v.generation == g then vs else v ∷ unlink g vs

  -- `chain_attach_` past its lookup; the number is that of the spare nodes taken
  unfoldable pub chain_attach : Chain V → Versioned V → Chain V × ℕ
  chain_attach c w =
      if c.head.generation == w.generation
      then (record c { head = w }, 0)
      else (if carries w.generation c.others
          then (record c { others = replace w.generation w c.others }, 0)
          else (record c { others = w ∷ c.others }, 1))

  -- the inline slot once no node carries the generation: a version behind it is promoted
  unfoldable pub detach_head : Chain V → ℕ → Detached V
  detach_head c g =
      if not (c.head.generation == g)
      then record { chain = some c; outcome = not_found; destination = none }
      else elim c.others [
        | [] ↦ record { chain = none; outcome = detached_and_emptied; destination = some c.head }
        | promoted ∷ rest ↦ record {
          chain = some (record { head = promoted; others = rest });
          outcome = detached;
          destination = some c.head;
        }
      ]

  unfoldable pub chain_detach : Chain V → ℕ → Detached V
  unfolding detach_head
  chain_detach c g =
      if carries g c.others
      then record {
        chain = some (record c { others = unlink g c.others });
        outcome = detached;
        destination = version_of g c.others;
      }
      else detach_head c g

  -- `chain_discard_` past its lookup
  unfoldable pub chain_discard : Option (Chain V) → ℕ → Detached V
  unfolding chain_detach
  chain_discard none g = record { chain = none; outcome = not_found; destination = none }
  chain_discard (some c) g = chain_detach c g

  -- `retire_visible_`
  unfoldable pub retire_visible : Chain V → Counts → Detached V × Counts
  unfolding chain_detach
  retire_visible c n = elim (visible_version c) [
    | none ↦ (record { chain = some c; outcome = not_found; destination = none }, n)
    | some visible ↦ (chain_detach c visible.generation, retired visible n)
  ]

  -- `publish_directly_`; `can_allocate` says whether there is a node where the chain has to lengthen
  unfoldable pub publish_directly :
      Chain V → Versioned V → Bool → Counts → Chain V × Counts × Status
  unfolding visible_version
  publish_directly c w can_allocate n = elim (visible_version c) [
    | some displaced ↦ (
      replace_visible c w,
      record n {
        visible_deleted_count =
            n.visible_deleted_count - (if is_erased displaced.presence then 1 else 0);
      },
      success,
    )
    | none ↦
        if can_allocate
        then (
          record c { others = w ∷ c.others },
          record n { visible_count = n.visible_count + 1 },
          success,
        )
        else (c, n, out_of_memory_heap)
  ]

  -- the loop of `unmask_and_compact_`; `none` where the last version went
  unfoldable pub retire_others : ℕ → Chain V → ℕ → Counts → Option (Chain V) × Counts
  unfolding chain_detach visible_version
  retire_others zero c g n = (some c, n)
  retire_others (suc fuel) c g n = elim (visible_version c) [
    | none ↦ (some c, n)
    | some doomed ↦ elim (doomed.generation == g) [
      | true ↦ (some c, n)
      | false ↦ elim (chain_detach c doomed.generation).chain [
        | none ↦ (none, retired doomed n)
        | some c' ↦ retire_others fuel c' g (retired doomed n)
      ]
    ]
  ]

  -- the version of the generation, with the stamp
  abbrev pub stamp_version : Chain V → ℕ → Versioned V → Chain V
  stamp_version c g w =
      if c.head.generation == g
      then record c { head = w }
      else record c { others = replace g w c.others }

  unfoldable pub unmask_found : Option (Chain V) → ℕ → ℕ → Counts → Unmasked V
  unmask_found none g stamp n = record { chain = none; counts = n; outcome = version_missing }
  unmask_found (some c) g stamp n = elim (version_of g (versions c)) [
    | none ↦ record { chain = some c; counts = n; outcome = version_missing }
    | some v ↦
        if visible_now v.committed
        then record { chain = some c; counts = n; outcome = already_published }
        else record {
          chain = some (stamp_version c g (record v { committed = stamp }));
          counts = record {
            visible_count = n.visible_count + 1;
            visible_deleted_count =
                n.visible_deleted_count + (if is_erased v.presence then 1 else 0);
          };
          outcome = unmasked;
        }
  ]

  -- `unmask_and_compact_` past its lookup
  unfoldable pub unmask_and_compact : Option (Chain V) → ℕ → ℕ → Counts → Unmasked V
  unfolding retire_others unmask_found
  unmask_and_compact none g stamp n = record { chain = none; counts = n; outcome = version_missing }
  unmask_and_compact (some c) g stamp n =
      let left = retire_others (length (versions c)) c g n in unmask_found left.0 g stamp left.1
