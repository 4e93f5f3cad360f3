-- ===== src/Tui/Queue/Order.antt =====
-- src/tui/queue.hpp: runs of the event queue, as sequences of calls from any threads.
use mathlib.Core.List.{append_assoc}
use shigoku.Common.{
  ◌≤◌, ◌≡◌, refl, Bool, true, false, ◌||◌, List, [], ◌∷◌, ◌++◌, Option, none, some, arith, length,
  length-append, leb, Bool-cases, inl, inr, ◌∙◌, sym, ap, ◌+◌,
}
use shigoku.Tui.Queue.{EventQueue, max_depth, try_post, wait_next, shutdown, pop_front}

-- One call of the queue, from any thread.
pub data Call (E : Type 0) : Type 0 where
  post : E → Call E
  next : Call E
  close : Call E

-- The queue, the events taken in so far and those handed out, each in the order of the calls.
pub record Trace (E : Type 0) : Type 0 where
  pub queue : EventQueue E
  pub taken : List E
  pub given : List E

-- What was taken in is what was handed out, and then what is still there.
pub record IsFifo {E : Type 0} (t : Trace E) : Type 0 where
  pub balance : t.taken ≡ t.given ++ t.queue.q
  pub bounded : length t.queue.q ≤ max_depth

abbrev pub taken_by : {E : Type 0} → Bool → E → List E
taken_by true ev = ev ∷ []
taken_by false ev = []

abbrev pub given_by : {E : Type 0} → Option E → List E
given_by none = []
given_by (some ev) = ev ∷ []

module _ {E : Type 0} where
  unfoldable pub call : Call E → Trace E → Trace E
  call (post ev) t = record t {
    queue = (try_post ev t.queue).0;
    taken = t.taken ++ taken_by (try_post ev t.queue).1 ev;
  }
  call next t = record t {
    queue = (wait_next t.queue).0;
    given = t.given ++ given_by (wait_next t.queue).1;
  }
  call close t = record t { queue = shutdown t.queue }

  unfoldable pub calls : List (Call E) → Trace E → Trace E
  calls [] t = t
  calls (c ∷ cs) t = calls cs (call c t)

  append_nil : (xs : List E) → xs ++ [] ≡ xs
  append_nil [] = refl
  append_nil (x ∷ xs) = ap (◌∷◌ x) (append_nil xs)

  post-IsFifo : (ev : E) (t : Trace E) → IsFifo t → IsFifo (call (post ev) t)
  unfolding call try_post
  post-IsFifo ev t f = elim (Bool-cases (t.queue.is_shutdown || leb max_depth (length t.queue.q))) [
    | inl h ↦ rw h (record { balance = append_nil t.taken ∙ f.balance; bounded = f.bounded })
    | inr h ↦
        let room : length t.queue.q + 1 ≤ max_depth = ground arith in
        rw h (record {
          balance = ap (λ l. l ++ ev ∷ []) f.balance ∙ append_assoc t.given t.queue.q (ev ∷ []);
          bounded = omega (arith, room, length-append t.queue.q (ev ∷ []));
        })
  ]

  next-IsFifo : (t : Trace E) → IsFifo t → IsFifo (call next t)
  unfolding call wait_next
  next-IsFifo t f = go t.queue.q refl
    where
      go :
          (q : List E)
          → t.queue.q ≡ q
          → IsFifo (record t {
            queue = (pop_front q t.queue).0;
            given = t.given ++ given_by (pop_front q t.queue).1;
          })
      go [] e = record {
        balance = f.balance ∙ ap (λ l. l ++ t.queue.q) (sym (append_nil t.given));
        bounded = f.bounded;
      }
      go (ev ∷ rest) e = record {
        balance = f.balance ∙ ap (λ l. t.given ++ l) e ∙ sym (append_assoc t.given (ev ∷ []) rest);
        bounded = ground (arith, f.bounded);
      }

  call-IsFifo : (c : Call E) (t : Trace E) → IsFifo t → IsFifo (call c t)
  call-IsFifo (post ev) t f = post-IsFifo ev t f
  call-IsFifo next t f = next-IsFifo t f
  call-IsFifo close t f =
      unfold call in unfold shutdown in record { balance = f.balance; bounded = f.bounded }

  -- Whatever calls the threads make, and in whatever order: the events taken in so far are those
  -- handed out, in the same order, followed by those still queued, and at most 1024 are queued.
  pub calls-IsFifo : (cs : List (Call E)) (t : Trace E) → IsFifo t → IsFifo (calls cs t)
  unfolding calls
  calls-IsFifo [] t f = f
  calls-IsFifo (c ∷ cs) t f = calls-IsFifo cs (call c t) (call-IsFifo c t f)
