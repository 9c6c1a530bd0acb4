-- ===== src/Monotonic/Commit/Recovery.antt =====
-- The loop of `rollback`, key by key, include/smashtable/monotonic_store.hpp.
use smash_table.Base.{
  ℕ, ◌+◌, ◌≡◌, refl, sym, ◌∙◌, ap, arith, true, false, Bool-cases, inl, inr, List, [], ◌∷◌, Option,
  none, some, is_some,
}
use smash_table.Monotonic.{KeyEquality, Versioned}
use smash_table.Monotonic.Index.{
  IsIndex, lookup, put, set, lookup-put, lookup-set, put-IsIndex, lookup_same,
}
use smash_table.Monotonic.Chain.{Chain, chain_discard}
use smash_table.Monotonic.Chain.Versions.{staged_chain}
use smash_table.Monotonic.Transaction.Reserving.{lists}
use smash_table.Monotonic.Commit.{Recovered, recover, recover_all}
use smash_table.Monotonic.Commit.Publish.{IsDistinct, lists_same}
use smash_table.Monotonic.Commit.Retreat.{discard-staged_chain}

module _ {V : Type 0} where
  -- what the lookup of a key finds is the key's earlier chain with a version of the generation
  pub record HasStaged (g : ℕ) (found : Option (Chain V)) : Type 0 where
    pub before : Option (Chain V)
    pub version : Versioned V
    pub shape : found ≡ some (staged_chain before version)
    pub own : version.generation ≡ g

  abbrev pub restamp : ℕ → Versioned V → Versioned V
  restamp resumed w = record w { generation = resumed }

  abbrev pub restamped : ℕ → Option (Versioned V) → Option (Versioned V)
  restamped resumed none = none
  restamped resumed (some w) = some (restamp resumed w)

  pub is_some-restamped :
      (resumed : ℕ) (x : Option (Versioned V)) → is_some (restamped resumed x) ≡ is_some x
  is_some-restamped resumed none = refl
  is_some-restamped resumed (some w) = refl

module _ {K : Type 0} ⦃e : KeyEquality K⦄ where
  different : (qs : List K) (q p : K) → lists qs q ≡ false → lists qs p ≡ true → e.same q p ≡ false
  different qs q p n l = elim (Bool-cases (e.same q p)) [
    | inl t ↦ absurd (ground (arith, lists_same qs q p t, n, l))
    | inr t ↦ t
  ]

module _ {K V : Type 0} ⦃e : KeyEquality K⦄ where
  -- one key brought back
  abbrev recovered : K → ℕ → Option (Chain V) → Versioned V → Recovered K V → Recovered K V
  recovered q resumed before w r = record r {
    entries = set q before r.entries;
    changes = put q (restamp resumed w) r.changes;
  }

  recover_staged :
      (q : K) (g resumed : ℕ) (r : Recovered K V) (h : HasStaged g (lookup r.entries q))
      → recover q g resumed true r ≡ recovered q resumed h.before h.version r
  recover_staged q g resumed r h =
      let out = discard-staged_chain h.before h.version g h.own in
      let all = ap (λ x. chain_discard x g) h.shape in
      let taken = ap (λ d. d.destination) all ∙ out.1 in
      let left = ap (λ d. d.chain) all ∙ out.0 in rw (taken, left, recover) refl

  -- every listed key has a version to give back
  abbrev pub Holding : List K → ℕ → Recovered K V → Type 0
  Holding qs g r = (p : K) → lists qs p ≡ true → HasStaged g (lookup r.entries p)

  later-Holding :
      (q : K) (qs : List K) (g resumed : ℕ) (r : Recovered K V) (x : Option (Chain V))
      (w : Versioned V)
      → lists qs q ≡ false
      → Holding (q ∷ qs) g r
      → Holding qs g (recovered q resumed x w r)
  later-Holding q qs g resumed r x w n h p l =
      let other = different qs q p n l in
      let old = h p (ground (arith, l)) in
      record {
        before = old.before;
        version = old.version;
        shape = lookup-set r.entries q x p ∙ rw other old.shape;
        own = old.own;
      }

  pub recover_all_result :
      (qs : List K) (index g resumed : ℕ) (r : Recovered K V)
      → IsDistinct qs
      → Holding qs g r
      → (recover_all qs index g resumed (λ _. true) r).result ≡ r.result
  recover_all_result [] index g resumed r d h = refl
  recover_all_result (q ∷ qs) index g resumed r d h =
      let old = h q (rw (e.same_refl q) refl) in
      rw (recover_staged q g resumed r old, recover_all)
        (recover_all_result qs (index + 1) g resumed (recovered q resumed old.before old.version r)
          d.1 (later-Holding q qs g resumed r old.before old.version d.0 h))

  pub recover_all_other :
      (qs : List K) (index g resumed : ℕ) (r : Recovered K V) (p : K)
      → IsDistinct qs
      → Holding qs g r
      → lists qs p ≡ false
      → (lookup (recover_all qs index g resumed (λ _. true) r).entries p ≡ lookup r.entries p)
        × (lookup (recover_all qs index g resumed (λ _. true) r).changes p ≡ lookup r.changes p)
  recover_all_other [] index g resumed r p d h n = (refl, refl)
  recover_all_other (q ∷ qs) index g resumed r p d h n =
      let old = h q (rw (e.same_refl q) refl) in
      let other : e.same q p ≡ false = ground (arith, n) in
      let r' = recovered q resumed old.before old.version r in
      let rest =
        recover_all_other qs (index + 1) g resumed r' p d.1
          (later-Holding q qs g resumed r old.before old.version d.0 h) (rw other at n) in
      rw (recover_staged q g resumed r old, recover_all)
        (
          rest.0 ∙ lookup-set r.entries q old.before p ∙ rw other refl,
          rest.1 ∙ lookup-put r.changes q (restamp resumed old.version) p ∙ rw other refl,
        )

  pub recover_all_own :
      (qs : List K) (index g resumed : ℕ) (r : Recovered K V) (p : K) (x : Option (Chain V))
      (w : Versioned V)
      → IsDistinct qs
      → Holding qs g r
      → lists qs p ≡ true
      → lookup r.entries p ≡ some (staged_chain x w)
      → w.generation ≡ g
      → (lookup (recover_all qs index g resumed (λ _. true) r).entries p ≡ x)
        × (lookup (recover_all qs index g resumed (λ _. true) r).changes p
            ≡ some (restamp resumed w))
  recover_all_own [] index g resumed r p x w d h l f o = absurd (ground (arith, l))
  recover_all_own (q ∷ qs) index g resumed r p x w d h l f o = elim (Bool-cases (e.same q p)) [
    | inl s ↦
        let here : HasStaged g (lookup r.entries q) = record {
          before = x;
          version = w;
          shape = lookup_same r.entries q p s ∙ f;
          own = o;
        } in
        let unlisted : lists qs p ≡ false = sym (lists_same qs q p s) ∙ d.0 in
        let r' = recovered q resumed x w r in
        let rest =
          recover_all_other qs (index + 1) g resumed r' p d.1
            (later-Holding q qs g resumed r x w d.0 h) unlisted in
        rw (recover_staged q g resumed r here, recover_all)
          (
            rest.0 ∙ lookup-set r.entries q x p ∙ rw s refl,
            rest.1 ∙ lookup-put r.changes q (restamp resumed w) p ∙ rw s refl,
          )
    | inr s ↦
        let old = h q (rw (e.same_refl q) refl) in
        let r' = recovered q resumed old.before old.version r in
        rw (recover_staged q g resumed r old, recover_all)
          (recover_all_own qs (index + 1) g resumed r' p x w d.1
            (later-Holding q qs g resumed r old.before old.version d.0 h) (rw s at l)
            (lookup-set r.entries q old.before p ∙ rw s f) o)
  ]

  pub recover_all-IsIndex :
      (qs : List K) (index g resumed : ℕ) (r : Recovered K V)
      → IsDistinct qs
      → Holding qs g r
      → IsIndex r.changes
      → IsIndex (recover_all qs index g resumed (λ _. true) r).changes
  recover_all-IsIndex [] index g resumed r d h u = u
  recover_all-IsIndex (q ∷ qs) index g resumed r d h u =
      let old = h q (rw (e.same_refl q) refl) in
      rw (recover_staged q g resumed r old, recover_all)
        (recover_all-IsIndex qs (index + 1) g resumed (recovered q resumed old.before old.version r)
          d.1 (later-Holding q qs g resumed r old.before old.version d.0 h)
          (put-IsIndex r.changes q (restamp resumed old.version) u))
