-- ===== src/Queue/History.antt =====
-- Sequences of calls to queue.c on one queue, in the order in which the event loop makes them.
use disqueue.Base.{Bool, Option, List, [], ◌∷◌, Bytes, ok, Result, ◌>>=◌}
use disqueue.Queue.State.{Store, Invoke}
use disqueue.Queue.Item.{Alloc}
use disqueue.Queue.Ops.{Status, queue_take, queue_put, queue_wait, empty_queue}

-- A call, with what malloc answers in it.
pub data Op (C : Type 0) : Type 0 where
  puts : Option Bytes → Bytes → Alloc → Op C
  takes : Option Bytes → Op C
  waits : Option Bytes → C → Bool → Op C

module _ {C X : Type 0} where
  abbrev pub drop_status : Result (Status × Store C X) → Result (Store C X)
  drop_status r = r >>= λ p. ok p.1

  unfoldable pub step : Invoke C X → Op C → Store C X → Result (Store C X)
  step invoke (puts key value mem) s = drop_status (queue_put invoke key value mem s)
  step invoke (takes key) s = ok (queue_take key s).1
  step invoke (waits key c mem) s = drop_status (queue_wait invoke key c mem s)

  unfoldable pub run : Invoke C X → List (Op C) → Store C X → Result (Store C X)
  unfolding step
  run invoke [] s = ok s
  run invoke (o ∷ os) s = step invoke o s >>= run invoke os

  -- The store before the first call.
  abbrev pub initial : Bytes → X → Store C X
  initial id x = record { queue = empty_queue id; detached = []; next = 0; ext = x }
