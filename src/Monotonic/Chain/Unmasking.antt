-- ===== src/Monotonic/Chain/Unmasking.antt =====
-- The publication of a staged version, `unmask_and_compact_` of
-- include/smashtable/monotonic_store.hpp.
use smash_table.Base.{
  ℕ, zero, suc, ◌+◌, ◌≤◌, ◌≡◌, refl, sym, ◌∙◌, arith, Bool, true, false, ◌&&◌, Bool-cases,
  Option-cases, inl, inr, ◌==◌, if◌then◌else◌, List, [], ◌∷◌, Option, none, some, length,
}
use smash_table.Monotonic.{Versioned, visible_now}
use smash_table.Monotonic.Chain.{
  Chain, Counts, versions, carries, version_of, unlink, replace, detach_head, chain_detach,
  visible_version, first_visible, retire_others, retired, stamp_version, unmask_found,
  unmask_and_compact,
}
use smash_table.Monotonic.Chain.Versions.{
  carried, staged_chain, absent_head, absent_others, ==_refl,
}

module _ {V : Type 0} where
  -- no version of the generation is visible
  abbrev pub hidden : ℕ → List (Versioned V) → Bool
  hidden g [] = true
  hidden g (v ∷ vs) = if (v.generation == g) && visible_now v.committed then false else hidden g vs

  hidden_absent : (g : ℕ) (vs : List (Versioned V)) → carries g vs ≡ false → hidden g vs ≡ true
  hidden_absent g [] h = refl
  hidden_absent g (v ∷ vs) h = ground (arith, hidden_absent g vs)

  hidden-unlink :
      (g x : ℕ) (vs : List (Versioned V)) → hidden g vs ≡ true → hidden g (unlink x vs) ≡ true
  hidden-unlink g x [] h = refl
  hidden-unlink g x (v ∷ vs) h = ground (arith, hidden-unlink g x vs)

  version_of-unlink :
      (g x : ℕ) (vs : List (Versioned V))
      → (x == g) ≡ false
      → version_of g (unlink x vs) ≡ version_of g vs
  version_of-unlink g x [] h = refl
  version_of-unlink g x (v ∷ vs) h = ground (arith, version_of-unlink g x vs)

  length-unlink :
      (x : ℕ) (vs : List (Versioned V)) → carries x vs ≡ true → length (unlink x vs) + 1 ≡ length vs
  length-unlink x [] h = ground arith
  length-unlink x (v ∷ vs) h = ground (arith, length-unlink x vs)

  first_visible-hidden :
      (g : ℕ) (vs : List (Versioned V)) (d : Versioned V)
      → first_visible vs ≡ some d
      → hidden g vs ≡ true
      → (d.generation == g) ≡ false
  first_visible-hidden g [] d f h = ground arith
  first_visible-hidden g (v ∷ vs) d f h = elim (Bool-cases (visible_now v.committed)) [
    | inl t ↦ ground (arith, t, f, h)
    | inr t ↦ first_visible-hidden g vs d (rw t at f) (ground (arith, t, h))
  ]

  pub first_visible_carried :
      (vs : List (Versioned V)) (d : Versioned V)
      → first_visible vs ≡ some d
      → carries d.generation vs ≡ true
  first_visible_carried [] d f = ground arith
  first_visible_carried (v ∷ vs) d f = elim (Bool-cases (visible_now v.committed)) [
    | inl t ↦ ground (arith, t, f)
    | inr t ↦ ground (arith, first_visible_carried vs d (rw t at f))
  ]

  -- the chain holds the staged version of the generation, and no visible one of it
  pub record Holds (g : ℕ) (w : Versioned V) (c : Chain V) : Type 0 where
    pub held : version_of g (versions c) ≡ some w
    pub hides : hidden g (versions c) ≡ true

  -- a version that was staged behind what the key had before is held
  pub staged_chain-Holds :
      (x : Option (Chain V)) (w : Versioned V) (g : ℕ)
      → carried g x ≡ false
      → w.generation ≡ g
      → visible_now w.committed ≡ false
      → Holds g w (staged_chain x w)
  staged_chain-Holds none w g a h d =
      rw h (record { held = rw (==_refl g) refl; hides = rw (==_refl g, d) refl })
  staged_chain-Holds (some c) w g a h d =
      let outer = absent_head c g a in
      let inner = absent_others c g a in
      record {
        held = rw (outer, h, ==_refl g) refl;
        hides = rw (outer, d, hidden_absent g c.others inner) (ground arith);
      }

  -- one step of the loop: the chain that is left is shorter and still holds the version
  record Left (g : ℕ) (w : Versioned V) (c : Chain V) (x : ℕ) : Type 0 where
    left : Chain V
    found : (chain_detach c x).chain ≡ some left
    shorter : length (versions left) + 1 ≡ length (versions c)
    holds : Holds g w left

  detach_step :
      (h : Versioned V) (others : List (Versioned V)) (g x : ℕ) (w : Versioned V)
      → (x == g) ≡ false
      → carries x (h ∷ others) ≡ true
      → Holds g w (record { head = h; others = others })
      → Left g w (record { head = h; others = others }) x
  unfolding chain_detach detach_head
  detach_step h [] g x w differs there holds =
      let t : (h.generation == x) ≡ true = ground (arith, there) in
      let held = holds.held in absurd (ground (arith, t, held))
  detach_step h (promoted ∷ rest) g x w differs there holds =
      elim (Bool-cases (carries x (promoted ∷ rest))) [
        | inl t ↦ record {
          left = record { head = h; others = unlink x (promoted ∷ rest) };
          found = rw t refl;
          shorter = omega (arith, length-unlink x (promoted ∷ rest) t);
          holds = record {
            held = ground (arith, holds.held, version_of-unlink g x (promoted ∷ rest) differs);
            hides = ground (arith, holds.hides, hidden-unlink g x (promoted ∷ rest));
          };
        }
        | inr t ↦
            let u : (h.generation == x) ≡ true = ground (arith, there, t) in
            record {
              left = record { head = promoted; others = rest };
              found = rw (t, u) refl;
              shorter = omega arith;
              holds = record {
                held = ground (arith, holds.held, u);
                hides = ground (arith, holds.hides, u);
              };
            }
      ]

  pub visible_version_first : (c : Chain V) → visible_version c ≡ first_visible (versions c)
  unfolding visible_version
  visible_version_first c = refl

  -- the loop's end: nothing is visible, and the staged version is still there
  record Cleared (g : ℕ) (w : Versioned V) (x : Option (Chain V)) : Type 0 where
    left : Chain V
    found : x ≡ some left
    dark : visible_version left ≡ none
    holds : Holds g w left

  retire_others_lem :
      (fuel : ℕ) (c : Chain V) (g : ℕ) (w : Versioned V) (n : Counts)
      → length (versions c) ≤ fuel
      → Holds g w c
      → Cleared g w (retire_others fuel c g n).0
  unfolding retire_others
  retire_others_lem zero c g w n enough holds = absurd (omega arith)
  retire_others_lem (suc fuel) c g w n enough holds = elim (Option-cases (visible_version c)) [
    | inl dark ↦
        rw (dark, retire_others) (record { left = c; found = refl; dark = dark; holds = holds })
    | inr seen ↦
        let d = seen.0 in
        let first_seen = sym (visible_version_first c) ∙ seen.1 in
        let first = first_visible-hidden g (versions c) d first_seen holds.hides in
        let there = first_visible_carried (versions c) d first_seen in
        let step = detach_step c.head c.others g d.generation w first there holds in
        let rest =
          retire_others_lem fuel step.left g w (retired d n) (omega (arith, step.shorter))
            step.holds in
        rw (seen.1, first, step.found, retire_others) rest
  ]

  version_of-hidden :
      (g : ℕ) (vs : List (Versioned V)) (w : Versioned V)
      → version_of g vs ≡ some w
      → hidden g vs ≡ true
      → visible_now w.committed ≡ false
  version_of-hidden g [] w h k = ground arith
  version_of-hidden g (v ∷ vs) w h k = ground (arith, version_of-hidden g vs w)

  first_visible-replace :
      (g : ℕ) (vs : List (Versioned V)) (w w' : Versioned V)
      → first_visible vs ≡ none
      → version_of g vs ≡ some w
      → visible_now w'.committed ≡ true
      → first_visible (replace g w' vs) ≡ some w'
  first_visible-replace g [] w w' d h k = ground arith
  first_visible-replace g (v ∷ vs) w w' d h k = ground (arith, first_visible-replace g vs w w')

  visible_version-stamp_version :
      (c : Chain V) (g : ℕ) (w w' : Versioned V)
      → visible_version c ≡ none
      → version_of g (versions c) ≡ some w
      → visible_now w'.committed ≡ true
      → visible_version (stamp_version c g w') ≡ some w'
  unfolding visible_version
  visible_version-stamp_version c g w w' d h k = elim (Bool-cases (c.head.generation == g)) [
    | inl t ↦ rw (t, k) refl
    | inr t ↦ elim (Bool-cases (visible_now c.head.committed)) [
      | inl u ↦ ground (arith, u, d)
      | inr u ↦ rw (t, u) (first_visible-replace g c.others w w' (rw u at d) (rw t at h) k)
    ]
  ]

  -- what a key shows after its staged version was published under the stamp
  pub record Published (w : Versioned V) (stamp : ℕ) (x : Option (Chain V)) : Type 0 where
    pub left : Chain V
    pub found : x ≡ some left
    pub shown : visible_version left ≡ some (record w { committed = stamp })

  unmask_found_lem :
      (c : Chain V) (g stamp : ℕ) (w : Versioned V) (n : Counts)
      → visible_version c ≡ none
      → Holds g w c
      → visible_now stamp ≡ true
      → Published w stamp (unmask_found (some c) g stamp n).chain
  unfolding unmask_found
  unmask_found_lem c g stamp w n dark holds drawn =
      let dim = version_of-hidden g (versions c) w holds.held holds.hides in
      record {
        left = stamp_version c g (record w { committed = stamp });
        found = rw (holds.held, dim, unmask_found) refl;
        shown =
            visible_version-stamp_version c g w (record w { committed = stamp }) dark holds.held
              drawn;
      }

  -- An unmasking of a chain that holds a version of the generation, and none of it visible, leaves
  -- a chain that shows this version under the stamp.
  pub unmask_and_compact_lem :
      (c : Chain V) (g stamp : ℕ) (w : Versioned V) (n : Counts)
      → Holds g w c
      → visible_now stamp ≡ true
      → Published w stamp (unmask_and_compact (some c) g stamp n).chain
  unfolding unmask_and_compact
  unmask_and_compact_lem c g stamp w n holds drawn =
      let loop = retire_others (length (versions c)) c g n in
      let done = retire_others_lem (length (versions c)) c g w n (omega arith) holds in
      rw done.found (unmask_found_lem done.left g stamp w loop.1 done.dark done.holds drawn)
