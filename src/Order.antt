-- ===== src/Order.antt =====
-- The comparator and the key extraction (`mapping_key_or_itself`) that the containers are given.
use smash_table.Base.{ℕ, ◌≤◌, ◌≡◌, ◌⊎◌, Bool, true, false, not, ◌&&◌, inl, inr, arith, Bool-cases}

-- `comparator_t`, with the laws of a strict weak order that the containers ask of it.
pub record Comparator (K : Type 0) : Type 0 where
  pub less : K → K → Bool
  pub less_irrefl : (a : K) → less a a ≡ false
  pub less_trans : (a b c : K) → less a b ≡ true → less b c ≡ true → less a c ≡ true
  pub less_cotrans : (a b c : K) → less a c ≡ true → (less a b ≡ true) ⊎ (less b c ≡ true)

-- What an ordered container reads of an entry: its key, and the count of the augmentation policy
-- (constantly 0 where there is none).
pub record Entry (V : Type 0) : Type 1 where
  pub Key : Type 0
  pub key : V → Key
  pub augmented_count : V → ℕ
  pub augmented_count-le_one : (v : V) → augmented_count v ≤ 1
  pub order : Comparator Key
  pub open order use {less}

infix 50 ◌≺◌
abbrev pub ◌≺◌ : {V : Type 0} ⦃e : Entry V⦄ → V → V → Type 0
◌≺◌ ⦃e⦄ a b = e.less (e.key a) (e.key b) ≡ true

-- neither side of the comparison holds
abbrev pub equivalent : {K : Type 0} → Comparator K → K → K → Bool
equivalent o a b = not (o.less a b) && not (o.less b a)

module _ {K : Type 0} (o : Comparator K) where
  pub less_asymm : (a b : K) → o.less a b ≡ true → o.less b a ≡ false
  less_asymm a b h = elim (Bool-cases (o.less b a)) [
    | inl e ↦ ground (arith, o.less_trans a b a h e, o.less_irrefl a)
    | inr e ↦ e
  ]

  -- a key that is not above `b`, below what is above `b`
  pub le_lt_trans : (a b c : K) → o.less b a ≡ false → o.less b c ≡ true → o.less a c ≡ true
  le_lt_trans a b c h k = ground (arith, o.less_cotrans b a c k)

  pub lt_le_trans : (a b c : K) → o.less a b ≡ true → o.less c b ≡ false → o.less a c ≡ true
  lt_le_trans a b c h k = ground (arith, o.less_cotrans a c b h)
