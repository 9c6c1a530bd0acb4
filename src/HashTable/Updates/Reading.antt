-- ===== src/HashTable/Updates/Reading.antt =====
-- What a lookup of the hash table returns is what the table holds,
-- include/smashtable/basic_hash_table.hpp.
use smash_table.Base.{
  ◌≡◌, refl, sym, ◌∙◌, ap, true, false, Option, none, some, inl, inr, Option-cases,
}
use smash_table.Monotonic.{KeyEquality}
use smash_table.Monotonic.Index.{same_sym}
use smash_table.HashTable.{populated, Storage, Hashing}
use smash_table.HashTable.Sound.{IsSound}
use smash_table.HashTable.Sound.Written.{Reads}
use smash_table.HashTable.Probes.{probe_to_find}
use smash_table.HashTable.Probes.Found.{Finds, probe_to_find_lem}
use smash_table.HashTable.Updates.{at}

module _ {K V : Type 0} ⦃e : KeyEquality K⦄ ⦃h : Hashing K⦄ where
  pub at-Reads : (t : Storage K V) (q : K) → IsSound t → Reads t q (at t q)
  unfolding at
  at-Reads t q w =
      let found = probe_to_find_lem t q w in
      elim (Option-cases (probe_to_find t q)) [
        | inl n ↦ rw (n, at) (rw n at found)
        | inr (i, f) ↦
            let x : Finds t q (some i) = rw f at found in rw (f, at, x.3) (i, x.0, x.2, x.3, x.4)
      ]

  -- a table reads as one thing under each key
  Reads-unique :
      (t : Storage K V) (q : K) (x y : Option V) → IsSound t → Reads t q x → Reads t q y → x ≡ y
  Reads-unique t q none none w r s = refl
  Reads-unique t q none (some v) w r (i, k, b, x, same) =
      let never : false ≡ true = sym (r i k v b x) ∙ same in absurd (cc never)
  Reads-unique t q (some u) none w (i, k, b, x, same) s =
      let never : false ≡ true = sym (s i k u b x) ∙ same in absurd (cc never)
  Reads-unique t q (some u) (some v) w (i, k, b, x, same) (j, k', c, y, alike) =
      let both : e.same k k' ≡ true = e.same_congr k q k' same ∙ same_sym k' q alike in
      let here : i ≡ j = w.unique i j k k' u v b c x y both in
      let one : populated k u ≡ populated k' v = sym x ∙ ap t.slots here ∙ y in
      let it : u ≡ v = cc one in ap some it

  pub at_of_Reads : (t : Storage K V) (q : K) (x : Option V) → IsSound t → Reads t q x → at t q ≡ x
  at_of_Reads t q x w r = Reads-unique t q (at t q) x w (at-Reads t q w) r
