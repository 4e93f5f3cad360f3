-- ===== src/Tui/Tests.antt =====
-- The toasts and the event queue at sample states.
use shigoku.Common.{ℕ, refl, true, List, [], ◌∷◌, codes, arith}
use shigoku.Tui.Toast.{Toast, ToastKind}
use shigoku.Tui.Queue.{new_queue}
use shigoku.Tui.Queue.Order.{Call, Trace, IsFifo, calls, calls-IsFifo}

abbrev unreachable : Toast
unreachable = record {
  kind = ToastKind.error;
  text = codes "unreachable";
  persistent = true;
  topic = codes "senshi";
  born = 3;
}

abbrev full : List Toast
full = unreachable ∷ unreachable ∷ unreachable ∷ []

abbrev start : Trace ℕ
start = record { queue = new_queue; taken = []; given = [] }

abbrev script : List (Call ℕ)
script = Call.post 1 ∷ Call.post 2 ∷ Call.next ∷ Call.close ∷ Call.post 3 ∷ Call.next ∷ []

calls-IsFifo_example : IsFifo (calls script start)
calls-IsFifo_example = calls-IsFifo script start (record { balance = refl; bounded = omega arith })
