-- ===== src/Monotonic/Store/Erasure.antt =====
-- What an erasure outside a transaction shows, include/smashtable/monotonic_store.hpp.
use smash_table.Base.{
  ℕ, ◌≡◌, refl, sym, ◌∙◌, ap, arith, true, false, ◌&&◌, Bool-cases, Option-cases, inl, inr,
  if◌then◌else◌, ◌==◌, List, [], ◌∷◌, Option, none, some, is_some,
}
use smash_table.Monotonic.{KeyEquality, Versioned, success, key_not_found, visible_now}
use smash_table.Monotonic.Index.{lookup, set, lookup-set, lookup_same}
use smash_table.Monotonic.Chain.{
  Chain, Counts, versions, carries, unlink, detach_head, chain_detach, visible_version,
  first_visible, retire_visible, if_present,
}
use smash_table.Monotonic.Chain.Versions.{==_refl}
use smash_table.Monotonic.Chain.Unmasking.{first_visible_carried, visible_version_first}
use smash_table.Monotonic.Store.{
  Store, committed_of, readable_of, payload_of, find, contains, erase,
}
use smash_table.Monotonic.Store.Updates.{readable_of-committed_of}

not_some : {A : Type 0} (x : Option A) → is_some x ≡ false → x ≡ none
not_some none h = refl
not_some (some a) h = ground arith

module _ {V : Type 0} where
  -- every version is of a generation of its own, and one at most is visible
  abbrev pub IsSettled : List (Versioned V) → Type 0
  IsSettled [] = Unit
  IsSettled (v ∷ vs) =
      (carries v.generation vs ≡ false)
      × ((visible_now v.committed && is_some (first_visible vs)) ≡ false)
      × IsSettled vs

  abbrev pub IsSettledEntry : Option (Chain V) → Type 0
  IsSettledEntry none = Unit
  IsSettledEntry (some c) = IsSettled (versions c)

  first_visible-unlink :
      (vs : List (Versioned V)) (d : Versioned V)
      → IsSettled vs
      → first_visible vs ≡ some d
      → first_visible (unlink d.generation vs) ≡ none
  first_visible-unlink [] d h f = refl
  first_visible-unlink (v ∷ vs) d h f = elim (Bool-cases (visible_now v.committed)) [
    | inl t ↦
        let only : ◌≡◌ {A = Option (Versioned V)} (some v) (some d) = rw t at f in
        let same : v ≡ d = cc only in
        let here : (v.generation == d.generation) ≡ true =
          ap (λ x. v.generation == x.generation) (sym same) ∙ ==_refl v.generation in
        let alone : is_some (first_visible vs) ≡ false = rw t at h.1 in
        rw here (not_some (first_visible vs) alone)
    | inr t ↦
        let later : first_visible vs ≡ some d = rw t at f in
        let there = first_visible_carried vs d later in
        elim (Bool-cases (v.generation == d.generation)) [
          | inl u ↦
              let same : v.generation ≡ d.generation = ground (arith, u) in
              absurd (ground (arith, ap (λ g. carries g vs) same, there, h.0))
          | inr u ↦ rw (u, t) (first_visible-unlink vs d h.2 later)
        ]
  ]

  -- what a detachment from a settled chain leaves visible
  committed_of-detached :
      (h : Versioned V) (others : List (Versioned V)) (g : ℕ)
      → IsSettled (h ∷ others)
      → carries g (h ∷ others) ≡ true
      → committed_of (chain_detach (record { head = h; others = others }) g).chain
        ≡ first_visible (unlink g (h ∷ others))
  unfolding chain_detach detach_head visible_version
  committed_of-detached h [] g settled there =
      let t : (h.generation == g) ≡ true = ground (arith, there) in rw t refl
  committed_of-detached h (promoted ∷ rest) g settled there =
      elim (Bool-cases (carries g (promoted ∷ rest))) [
        | inl t ↦
            let u : (h.generation == g) ≡ false = elim (Bool-cases (h.generation == g)) [
              | inl w ↦
                  let same : h.generation ≡ g = ground (arith, w) in
                  absurd (ground (arith, ap (λ n. carries n (promoted ∷ rest)) same, t, settled.0))
              | inr w ↦ w
            ] in
            rw (t, u) refl
        | inr t ↦ let u : (h.generation == g) ≡ true = ground (arith, there, t) in rw (t, u) refl
      ]

  -- a settled chain shows nothing once its visible version was retired
  committed_of-retire_visible :
      (c : Chain V) (n : Counts)
      → IsSettled (versions c)
      → committed_of (retire_visible c n).0.chain ≡ none
  unfolding retire_visible
  committed_of-retire_visible c n settled = elim (Option-cases (visible_version c)) [
    | inl f ↦ rw (f, retire_visible) f
    | inr d ↦
        let seen = sym (visible_version_first c) ∙ d.1 in
        rw (d.1, retire_visible)
          (committed_of-detached c.head c.others d.0.generation settled
              (first_visible_carried (versions c) d.0 seen)
            ∙ first_visible-unlink (versions c) d.0 settled seen)
  ]

module _ {K V : Type 0} ⦃e : KeyEquality K⦄ where
  find_committed :
      (s : Store K V) (p : K)
      → find s p ≡ payload_of (if_present (committed_of (lookup s.entries p)))
  unfolding find
  find_committed s p = ap payload_of (readable_of-committed_of (lookup s.entries p))

  find_same : (s : Store K V) (q p : K) → e.same q p ≡ true → find s q ≡ find s p
  unfolding find
  find_same s q p h = ap (λ x. payload_of (readable_of x)) (lookup_same s.entries q p h)

  -- A direct erasure succeeds exactly for a key that reads as present. Afterwards the key reads as
  -- absent and every other as before. The versions of the key are each of a generation of their own,
  -- and one at most is visible; those that transactions have staged do not hinder it.
  pub erase_direct_lem :
      (s : Store K V) (q p : K)
      → IsSettledEntry (lookup s.entries q)
      → ((erase s q).1 ≡ (if contains s q then success else key_not_found))
        × (find (erase s q).0 p ≡ (if e.same q p then none else find s p))
  unfolding erase contains
  erase_direct_lem s q p settled = elim (Bool-cases (contains s q)) [
    | inr f ↦
        rw (f, erase)
          (
            refl,
            elim (Bool-cases (e.same q p)) [
              | inl h ↦ rw h (sym (find_same s q p h) ∙ not_some (find s q) f)
              | inr h ↦ rw h refl
            ],
          )
    | inl f ↦ elim (Option-cases (lookup s.entries q)) [
      | inl n ↦
          let never : is_some (find s q) ≡ false =
            ap is_some
              (find_committed s q ∙ ap (λ x. payload_of (if_present (committed_of x))) n) in
          absurd (ground (arith, never, f))
      | inr c ↦
          let left = (retire_visible c.0 s.counts).0.chain in
          let kept : IsSettled (versions c.0) = rw c.1 at settled in
          let dark = committed_of-retire_visible c.0 s.counts kept in
          let at = lookup-set s.entries q left p in
          let after = record s {
            entries = set q left s.entries;
            counts = (retire_visible c.0 s.counts).1;
          } in
          rw (f, c.1, erase)
            (
              refl,
              elim (Bool-cases (e.same q p)) [
                | inl h ↦ rw h (
                    find_committed after p
                    ∙ ap (λ x. payload_of (if_present (committed_of x))) (at ∙ rw h refl)
                    ∙ ap (λ x. payload_of (if_present x)) dark)
                | inr h ↦ rw h (
                    find_committed after p
                    ∙ ap (λ x. payload_of (if_present (committed_of x))) (at ∙ rw h refl)
                    ∙ sym (find_committed s p))
              ],
            )
    ]
  ]
