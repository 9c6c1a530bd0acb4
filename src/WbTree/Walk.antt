-- ===== src/WbTree/Walk.antt =====
-- Walks of the weight-balanced tree with a callback, include/smashtable/basic_wb_tree.hpp.
-- A callback is a function of the state that it writes to, and may halt the walk.
pub mod Order
use smash_table.Base.{not, ◌&&◌, if◌then◌else◌, List, [], ◌∷◌}
use smash_table.Order.{Entry}
use smash_table.WbTree.{Tree, null, node}

-- `walk_control_t`
pub data WalkControl : Type 0 where
  resume halt : WalkControl

-- the next step of a walk, made only where the step before did not halt it
abbrev pub unless_halted : {S : Type 0} → S × WalkControl → (S → S × WalkControl) → S × WalkControl
unless_halted (s, resume) next = next s
unless_halted (s, halt) next = (s, halt)

module _ {V : Type 0} {S : Type 0} where
  unfoldable pub for_each_left_right : Tree V → (V → S → S × WalkControl) → S → S × WalkControl
  for_each_left_right null callback s = (s, resume)
  for_each_left_right (node l v _ _ r) callback s =
      unless_halted (for_each_left_right l callback s)
        (λ s. unless_halted (callback v s) (for_each_left_right r callback))

  unfoldable pub for_each_bottom_up : Tree V → (V → S → S) → S → S
  for_each_bottom_up null callback s = s
  for_each_bottom_up (node l v _ _ r) callback s =
      callback v (for_each_bottom_up r callback (for_each_bottom_up l callback s))

  -- the same walk along a sequence, which the theorems compare with
  unfoldable pub walk : List V → (V → S → S × WalkControl) → S → S × WalkControl
  walk [] callback s = (s, resume)
  walk (x ∷ xs) callback s = unless_halted (callback x s) (walk xs callback)

module _ {V : Type 0} {S : Type 0} ⦃e : Entry V⦄ where
  unfoldable pub range : Tree V → e.Key → e.Key → (V → S → S × WalkControl) → S → S × WalkControl
  range null low high callback s = (s, resume)
  range (node l v _ _ r) low high callback s =
      if e.less (e.key v) high && not (e.less (e.key v) low)
      then unless_halted (range l low high callback s)
          (λ s. unless_halted (callback v s) (range r low high callback))
      else (if e.less (e.key v) low
          then range r low high callback s
          else range l low high callback s)
