-- ===== src/Monotonic/Store/Updates.antt =====
-- What the writes outside a transaction show to a reader of the store,
-- include/smashtable/monotonic_store.hpp.
use smash_table.Base.{
  ℕ, ◌+◌, ◌<◌, ◌≡◌, refl, sym, ◌∙◌, ap, arith, Bool, true, false, Bool-cases, Option-cases, inl,
  inr, if◌then◌else◌, List, [], ◌∷◌, Option, none, some, not, ◌&&◌,
}
use smash_table.Monotonic.{
  KeyEquality, Item, Versioned, failed, present, visible_now, visible_at, uncommitted_k,
}
use smash_table.Monotonic.Index.{lookup, lookup-put, lookup_same}
use smash_table.Monotonic.Chain.{
  Chain, Counts, visible_version, readable_version, first_visible, if_present, overwrite,
  replace_visible, publish_directly,
}
use smash_table.Monotonic.Store.{Store, committed_of, readable_of, payload_of, find, upsert, file}

if_swap :
    {A : Type 0} (b : Bool) (x y : A) → (if b then x else y) ≡ (if not b && true then y else x)
if_swap true x y = refl
if_swap false x y = refl

if_neither : {A : Type 0} (b : Bool) (x y : A) → (if not b && false then y else x) ≡ x
if_neither true x y = refl
if_neither false x y = refl

module _ {V : Type 0} where
  first_visible-overwrite :
      (vs : List (Versioned V)) (d w : Versioned V)
      → first_visible vs ≡ some d
      → visible_now w.committed ≡ true
      → first_visible (overwrite w vs) ≡ some w
  first_visible-overwrite [] d w f h = absurd (ground (arith, f))
  first_visible-overwrite (v ∷ vs) d w f h = elim (Bool-cases (visible_now v.committed)) [
    | inl t ↦ rw (t, h) refl
    | inr t ↦ rw (t, t) (first_visible-overwrite vs d w (rw t at f) h)
  ]

  visible_version-replace_visible :
      (c : Chain V) (d w : Versioned V)
      → visible_version c ≡ some d
      → visible_now w.committed ≡ true
      → visible_version (replace_visible c w) ≡ some w
  unfolding visible_version
  visible_version-replace_visible c d w f h = elim (Bool-cases (visible_now c.head.committed)) [
    | inl t ↦ rw (t, h) refl
    | inr t ↦ rw (t, t) (first_visible-overwrite c.others d w (rw t at f) h)
  ]

  visible_version-front :
      (c : Chain V) (w : Versioned V)
      → visible_version c ≡ none
      → visible_now w.committed ≡ true
      → visible_version (record c { others = w ∷ c.others }) ≡ some w
  unfolding visible_version
  visible_version-front c w f h = elim (Bool-cases (visible_now c.head.committed)) [
    | inl t ↦ absurd (ground (arith, t, f))
    | inr t ↦ rw (t, h) refl
  ]

  -- a direct write to a key with a chain is what the key shows, or is refused and changes nothing
  publish_directly_lem :
      (c : Chain V) (w : Versioned V) (can_allocate : Bool) (n : Counts)
      → visible_now w.committed ≡ true
      → visible_version (publish_directly c w can_allocate n).0
        ≡ (if failed (publish_directly c w can_allocate n).2 then visible_version c else some w)
  unfolding publish_directly
  publish_directly_lem c w can_allocate n h = elim (Option-cases (visible_version c)) [
    | inr d ↦ rw (d.1, publish_directly) (visible_version-replace_visible c d.0 w d.1 h)
    | inl f ↦ elim (Bool-cases can_allocate) [
      | inl t ↦ rw (f, t, publish_directly) (visible_version-front c w f h)
      | inr t ↦ rw (f, t, publish_directly) f
    ]
  ]

  pub readable_of-committed_of :
      (x : Option (Chain V)) → readable_of x ≡ if_present (committed_of x)
  unfolding readable_version visible_version
  readable_of-committed_of none = refl
  readable_of-committed_of (some c) = refl

-- a stamp short of the sentinel is visible
pub visible_drawn : (stamp : ℕ) → stamp < uncommitted_k → visible_now stamp ≡ true
unfolding visible_now visible_at
visible_drawn stamp h = ground arith

module _ {K V : Type 0} ⦃e : KeyEquality K⦄ ⦃i : Item K V⦄ where
  -- the version that a key shows once another was filed under a key
  pub file_at :
      (s : Store K V) (q : K) (w : Versioned V) (can_allocate : Bool) (p : K)
      → visible_now w.committed ≡ true
      → committed_of (lookup (file s q w can_allocate).0.entries p) ≡ (
          if not (failed (file s q w can_allocate).1) && e.same q p
          then some w
          else committed_of (lookup s.entries p))
  unfolding visible_version
  file_at s q w can_allocate p h = elim (Option-cases (lookup s.entries q)) [
    | inr c ↦
        let direct = publish_directly_lem c.0 w can_allocate s.counts h in
        let refused = failed (publish_directly c.0 w can_allocate s.counts).2 in
        let at = lookup-put s.entries q (publish_directly c.0 w can_allocate s.counts).0 p in
        elim (Bool-cases (e.same q p)) [
          | inl t ↦
              let before : lookup s.entries p ≡ some c.0 =
                sym (lookup_same s.entries q p t) ∙ c.1 in
              rw (c.1, file, at, t, before)
                (direct ∙ if_swap refused (visible_version c.0) (some w))
          | inr t ↦
              rw (c.1, file, at, t)
                (sym (if_neither refused (committed_of (lookup s.entries p)) (some w)))
        ]
    | inl n ↦ elim (Bool-cases can_allocate) [
      | inl b ↦ elim (Bool-cases (e.same q p)) [
        | inl t ↦ rw (n, b, file, lookup-put s.entries q _ p, t, h) refl
        | inr t ↦ rw (n, b, file, lookup-put s.entries q _ p, t) refl
      ]
      | inr b ↦ rw (n, b, file) refl
    ]
  ]

  -- A direct upsert that succeeds is what its key reads as from then on, and no other key is touched;
  -- one that is refused for want of memory changes no read. The clock of commits has not run out.
  pub upsert_lem :
      (s : Store K V) (v : V) (can_allocate : Bool) (p : K)
      → s.commits + 1 < uncommitted_k
      → find (upsert s v can_allocate).0 p ≡ (
          if not (failed (upsert s v can_allocate).1) && e.same (i.key v) p
          then some v
          else find s p)
  unfolding upsert find
  upsert_lem s v can_allocate p clock =
      let w : Versioned V = record {
        payload = v;
        generation = s.generation + 1;
        presence = present;
        committed = s.commits + 1;
      } in
      let drawn = record s { generation = s.generation + 1; commits = s.commits + 1 } in
      let out = file drawn (i.key v) w can_allocate in
      let here = file_at drawn (i.key v) w can_allocate p (visible_drawn (s.commits + 1) clock) in
      ap payload_of (readable_of-committed_of (lookup out.0.entries p) ∙ ap if_present here)
      ∙ elim (Bool-cases (not (failed out.1) && e.same (i.key v) p)) [
        | inl t ↦ rw t refl
        | inr t ↦ rw (t, readable_of-committed_of (lookup s.entries p)) refl
      ]
