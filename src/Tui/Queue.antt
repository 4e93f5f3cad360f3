-- ===== src/Tui/Queue.antt =====
-- `BasicEventQueue` of src/tui/queue.hpp. Each method holds the one mutex from its start to its end,
-- so a run of threads is a sequence of whole method calls. `wait_next` that finds the queue empty
-- gives up its wait (`none`) or is woken by a later call, after which it is a call of its own.
pub mod Order
use shigoku.Common.{
  ℕ, Bool, true, false, ◌||◌, List, [], ◌∷◌, ◌++◌, Option, none, some, if◌then◌else◌, leb, length,
}

-- `kMaxDepth`.
abbrev pub max_depth : ℕ
max_depth = 1024

pub record EventQueue (E : Type 0) : Type 0 where
  pub q : List E
  pub is_shutdown : Bool

module _ {E : Type 0} where
  -- The queue, and whether the event was taken.
  unfoldable pub try_post : E → EventQueue E → EventQueue E × Bool
  try_post ev s =
      if s.is_shutdown || leb max_depth (length s.q)
      then (s, false)
      else (record s { q = s.q ++ ev ∷ [] }, true)

  abbrev pub pop_front : List E → EventQueue E → EventQueue E × Option E
  pop_front [] s = (s, none)
  pop_front (ev ∷ rest) s = (record s { q = rest }, some ev)

  unfoldable pub wait_next : EventQueue E → EventQueue E × Option E
  wait_next s = pop_front s.q s

  unfoldable pub shutdown : EventQueue E → EventQueue E
  shutdown s = record s { is_shutdown = true }

abbrev pub new_queue : {E : Type 0} → EventQueue E
new_queue = record { q = []; is_shutdown = false }
