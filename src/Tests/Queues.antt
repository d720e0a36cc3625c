-- ===== src/Tests/Queues.antt =====
-- The theorems on queue.c, at the queues of Tests/Data.
use disqueue.Base.{
  ℕ, ◌≡◌, refl, true, none, some, List, [], ◌∷◌, codes, ok, arith, find, split_first, strcase_eq,
  tolower,
}
use disqueue.Queue.State.{Store}
use disqueue.Queue.Ops.{queue_put, queue_take, queue_wait, queue_free}
use disqueue.Queue.First.{Puts, Takes, Waits, queue_put-Puts, queue_take-Takes, queue_wait-Waits}
use disqueue.Queue.History.{Op, puts, takes, waits, run, initial}
use disqueue.Queue.Mailbox.{empty_mailbox, deliver_all, deliver, calm, fits}
use disqueue.Queue.Refinement.{Shows, run-deliver_all}
use disqueue.Queue.Release.{queue_free-Owned}
use disqueue.Manager.Uuid.{sample}
use disqueue.Connection.Wait.{connection_queue_callback_wait_}
use disqueue.Connection.Wait.Runs.{Faults, run-Faults}
use disqueue.Tests.Data.{
  documents, outside, world, apple, stocked-Counts, awaited-Counts, stocked_store, awaited_store,
  memory, tally,
}

queue_put-Puts_example :
    Puts tally
      (some apple)
      (codes "v")
      memory
      awaited_store
      (queue_put tally (some apple) (codes "v") memory awaited_store)
queue_put-Puts_example =
    queue_put-Puts tally (some apple) (codes "v") memory awaited_store awaited-Counts (omega arith)

queue_take-Takes_example : Takes (some apple) stocked_store (queue_take (some apple) stocked_store)
queue_take-Takes_example = queue_take-Takes (some apple) stocked_store stocked-Counts (omega arith)

queue_wait-Waits_example :
    Waits tally
      (some apple)
      5
      true
      stocked_store
      (queue_wait tally (some apple) 5 true stocked_store)
queue_wait-Waits_example =
    queue_wait-Waits tally (some apple) 5 true stocked_store stocked-Counts (omega arith)

abbrev calls : List (Op ℕ)
calls =
    waits (some apple) 5 true
    ∷ puts none (codes "a") memory
    ∷ puts (some (codes "pear")) (codes "b") memory
    ∷ takes none
    ∷ []

run-deliver_all_example :
    Shows 4
      (deliver_all calls empty_mailbox)
      (run (connection_queue_callback_wait_ documents outside) calls (initial sample world))
unfolding calm deliver split_first fits strcase_eq tolower
run-deliver_all_example =
    run-deliver_all (connection_queue_callback_wait_ documents outside) sample world calls
      (omega arith) refl

abbrev meeting : List (Op ℕ)
meeting = puts (some apple) (codes "a") memory ∷ waits none 5 true ∷ []

run-Faults_example :
    Faults documents outside
      (run (connection_queue_callback_wait_ documents outside) meeting (initial sample world))
unfolding calm deliver split_first fits strcase_eq tolower
run-Faults_example = run-Faults documents outside sample world meeting (omega arith) refl

queue_free-Owned_example :
    (t : Store ℕ ℕ) × (queue_free stocked_store ≡ ok t)
    × (t.queue.items ≡ [])
    × (t.queue.callbacks ≡ [])
    × (t.queue.callback_count ≡ 0)
    × (t.queue.keyed_callback_count ≡ 0)
    × (t.detached ≡ [])
    × (t.ext ≡ 0)
    × (t.next ≡ stocked_store.next)
unfolding find
queue_free-Owned_example =
    queue_free-Owned stocked_store stocked-Counts ((refl, refl), ((refl, refl), tt))
