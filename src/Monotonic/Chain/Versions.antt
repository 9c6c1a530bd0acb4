-- ===== src/Monotonic/Chain/Versions.antt =====
-- What the operations on a version chain do to a generation that the chain does not carry, or that
-- it carries once, include/smashtable/monotonic_store.hpp.
use smash_table.Base.{ℕ, ◌≡◌, refl, arith, Bool, true, false, ◌==◌, [], ◌∷◌, Option, none, some}
use smash_table.Monotonic.{Versioned, visible_now}
use smash_table.Monotonic.Chain.{
  Chain, versions, carries, chain_attach, detach_head, chain_detach, chain_discard, visible_version,
  detached, detached_and_emptied,
}

pub ==_refl : (n : ℕ) → (n == n) ≡ true
==_refl n = ground arith

module _ {V : Type 0} where
  -- whether what the lookup of a key found has a version of the generation
  abbrev pub carried : ℕ → Option (Chain V) → Bool
  carried g none = false
  carried g (some c) = carries g (versions c)

  -- a version behind the others of its chain, as an attachment leaves it
  abbrev pub behind : Chain V → Versioned V → Chain V
  behind c w = record c { others = w ∷ c.others }

  -- what a key with a staged version is left with, by what it had before
  abbrev pub staged_chain : Option (Chain V) → Versioned V → Chain V
  staged_chain none w = record { head = w; others = [] }
  staged_chain (some c) w = behind c w

  -- what the transaction's change of a key leaves of it, by what it had before
  abbrev pub staged_of : Option (Versioned V) → Option (Chain V) → Option (Chain V)
  staged_of none x = x
  staged_of (some w) x = some (staged_chain x w)

  pub absent_head :
      (c : Chain V) (g : ℕ) → carries g (versions c) ≡ false → (c.head.generation == g) ≡ false
  absent_head c g h = ground arith

  pub absent_others :
      (c : Chain V) (g : ℕ) → carries g (versions c) ≡ false → carries g c.others ≡ false
  absent_others c g h = ground arith

  -- a generation that is not there is not taken out
  pub chain_discard_absent :
      (x : Option (Chain V)) (g : ℕ) → carried g x ≡ false → (chain_discard x g).chain ≡ x
  unfolding chain_discard chain_detach detach_head
  chain_discard_absent none g h = refl
  chain_discard_absent (some c) g h = rw (absent_others c g h, absent_head c g h) refl

  -- one that is there alone leaves nothing
  pub chain_discard_only :
      (w : Versioned V) (g : ℕ)
      → w.generation ≡ g
      → chain_discard (some (record { head = w; others = [] })) g
        ≡ record { chain = none; outcome = detached_and_emptied; destination = some w }
  unfolding chain_discard chain_detach detach_head
  chain_discard_only w g h = rw (h, ==_refl g) refl

  -- one that was attached is taken out, and leaves the chain as it was
  pub chain_discard-behind :
      (c : Chain V) (w : Versioned V) (g : ℕ)
      → w.generation ≡ g
      → chain_discard (some (behind c w)) g
        ≡ record { chain = some c; outcome = detached; destination = some w }
  unfolding chain_discard chain_detach detach_head
  chain_discard-behind c w g h = rw (h, ==_refl g) refl

  pub chain_attach_absent :
      (c : Chain V) (w : Versioned V)
      → carries w.generation (versions c) ≡ false
      → chain_attach c w ≡ (behind c w, 1)
  unfolding chain_attach
  chain_attach_absent c w h = rw (absent_head c w.generation h, absent_others c w.generation h) refl

  pub chain_attach_reserved :
      (c : Chain V) (w : Versioned V)
      → c.head.generation ≡ w.generation
      → chain_attach c w ≡ (record c { head = w }, 0)
  unfolding chain_attach
  chain_attach_reserved c w h = rw (h, ==_refl w.generation) refl

  -- a version that is only staged is not what a reader sees
  pub visible_version-behind :
      (c : Chain V) (w : Versioned V)
      → visible_now w.committed ≡ false
      → visible_version (behind c w) ≡ visible_version c
  unfolding visible_version
  visible_version-behind c w h = rw h refl

  pub visible_version_only :
      (w : Versioned V)
      → visible_now w.committed ≡ false
      → visible_version (record { head = w; others = [] }) ≡ none
  unfolding visible_version
  visible_version_only w h = rw h refl
