-- ===== src/Queue/Buffered.antt =====
-- A buffered channel of Go: the values that wait in it, oldest first, and its capacity.
use event_driven_arch.Common.{
  ℕ, List, [], ◌∷◌, ◌++◌, Option, none, some, ltb, length, if◌then◌else◌,
}

pub record Chan (A : Type 0) : Type 0 where
  pub capacity : ℕ
  pub waiting : List A

module _ {A : Type 0} where
  -- `make(chan A, n)`
  unfoldable pub make : ℕ → Chan A
  make n = record { capacity = n; waiting = [] }

  -- A send under `select` with a `default`: `none` where the buffer is full.
  unfoldable pub try_send : A → Chan A → Option (Chan A)
  try_send a c =
      if ltb (length c.waiting) c.capacity
      then some (record c { waiting = c.waiting ++ a ∷ [] })
      else none

  first : ℕ → List A → Option (A × Chan A)
  first n [] = none
  first n (a ∷ rest) = some (a, record { capacity = n; waiting = rest })

  -- A receive that is ready only if a value waits.
  unfoldable pub try_recv : Chan A → Option (A × Chan A)
  unfolding first
  try_recv c = first c.capacity c.waiting

  -- `len(c)`
  unfoldable pub depth : Chan A → ℕ
  depth c = length c.waiting
