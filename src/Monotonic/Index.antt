-- ===== src/Monotonic/Index.antt =====
-- The core that a store keeps its entries in, seen as a finite map: what `find`, `upsert` and
-- `erase` of an index by key do. It stands for `entries_` and `changes_` of
-- include/smashtable/monotonic_store.hpp, whichever container they are.
use smash_table.Base.{
  ◌≡◌, refl, sym, ◌∙◌, true, false, Bool-cases, inl, inr, arith, if◌then◌else◌, List, [], ◌∷◌,
  Option, none, some,
}
use smash_table.Monotonic.{KeyEquality}

-- entries under their keys
abbrev pub Index : Type 0 → Type 0 → Type 0
Index K A = List (K × A)

module _ {K : Type 0} ⦃e : KeyEquality K⦄ where
  pub same_sym : (j k : K) → e.same j k ≡ true → e.same k j ≡ true
  same_sym j k h = sym (e.same_congr j k j h) ∙ e.same_refl j

  -- two keys that are the same are the same as every third
  pub same_right : (m j k : K) → e.same j k ≡ true → e.same m j ≡ e.same m k
  same_right m j k h = elim (Bool-cases (e.same m j)) [
    | inl t ↦ ground (arith, e.same_congr m j k t, h)
    | inr t ↦ elim (Bool-cases (e.same m k)) [
      | inl u ↦ ground (arith, e.same_congr m k j u, same_sym j k h)
      | inr u ↦ t ∙ sym u
    ]
  ]

  pub differs_sym : (j k : K) → e.same j k ≡ false → e.same k j ≡ false
  differs_sym j k h = elim (Bool-cases (e.same k j)) [
    | inl t ↦ absurd (ground (arith, same_sym k j t, h))
    | inr t ↦ t
  ]

module _ {K : Type 0} {A : Type 0} ⦃e : KeyEquality K⦄ where
  abbrev pub lookup : Index K A → K → Option A
  lookup [] q = none
  lookup ((k, a) ∷ m) q = if e.same k q then some a else lookup m q

  abbrev pub put : K → A → Index K A → Index K A
  put q a [] = (q, a) ∷ []
  put q a ((k, b) ∷ m) = if e.same k q then (k, a) ∷ m else (k, b) ∷ put q a m

  abbrev pub remove : K → Index K A → Index K A
  remove q [] = []
  remove q ((k, b) ∷ m) = if e.same k q then remove q m else (k, b) ∷ remove q m

  -- what a change of the entry of `q` leaves there: none takes it out
  abbrev pub set : K → Option A → Index K A → Index K A
  set q none m = remove q m
  set q (some a) m = put q a m

  -- no two entries under one key
  abbrev pub IsIndex : Index K A → Type 0
  IsIndex [] = Unit
  IsIndex ((k, a) ∷ m) = (lookup m k ≡ none) × IsIndex m

  pub lookup_same : (m : Index K A) (j k : K) → e.same j k ≡ true → lookup m j ≡ lookup m k
  lookup_same [] j k h = refl
  lookup_same ((n, a) ∷ m) j k h = rw (same_right n j k h, lookup_same m j k h) refl

  pub lookup-put :
      (m : Index K A) (q : K) (a : A) (p : K)
      → lookup (put q a m) p ≡ (if e.same q p then some a else lookup m p)
  lookup-put [] q a p = refl
  lookup-put ((k, b) ∷ m) q a p = elim (Bool-cases (e.same k q)) [
    | inl t ↦ rw (t, e.same_congr k q p t) (ground arith)
    | inr t ↦
        rw (t, lookup-put m q a p)
          (elim (Bool-cases (e.same k p)) [
            | inl u ↦
                let v : e.same q p ≡ false = elim (Bool-cases (e.same q p)) [
                  | inl w ↦ let never = sym (same_right k q p w ∙ u) ∙ t in absurd (cc never)
                  | inr w ↦ w
                ] in
                rw (u, v) refl
            | inr u ↦ rw u refl
          ])
  ]

  pub lookup-remove :
      (m : Index K A) (q p : K) → lookup (remove q m) p ≡ (if e.same q p then none else lookup m p)
  lookup-remove [] q p = ground arith
  lookup-remove ((k, b) ∷ m) q p = elim (Bool-cases (e.same k q)) [
    | inl t ↦ rw (t, lookup-remove m q p, e.same_congr k q p t) (ground arith)
    | inr t ↦
        rw (t, lookup-remove m q p)
          (elim (Bool-cases (e.same k p)) [
            | inl u ↦
                let v : e.same q p ≡ false = elim (Bool-cases (e.same q p)) [
                  | inl w ↦ let never = sym (same_right k q p w ∙ u) ∙ t in absurd (cc never)
                  | inr w ↦ w
                ] in
                rw (u, v) refl
            | inr u ↦ rw u refl
          ])
  ]

  -- every change is seen under its own key, and under no other
  pub lookup-set :
      (m : Index K A) (q : K) (x : Option A) (p : K)
      → lookup (set q x m) p ≡ (if e.same q p then x else lookup m p)
  lookup-set m q none p = lookup-remove m q p
  lookup-set m q (some a) p = lookup-put m q a p

  pub put-IsIndex : (m : Index K A) (q : K) (a : A) → IsIndex m → IsIndex (put q a m)
  put-IsIndex [] q a h = (refl, tt)
  put-IsIndex ((k, b) ∷ m) q a h = elim (Bool-cases (e.same k q)) [
    | inl t ↦ rw t h
    | inr t ↦ rw t (lookup-put m q a k ∙ rw (differs_sym k q t) (h.0), put-IsIndex m q a h.1)
  ]
