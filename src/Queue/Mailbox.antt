-- ===== src/Queue/Mailbox.antt =====
-- What src/queue.h promises of a queue, without counters, addresses and locks: letters that lie in the
-- order of their arrival, and clients that wait in the order of theirs.
use disqueue.Base.{
  Bool, true, false, Option, none, some, List, [], ◌∷◌, ◌++◌, Bytes, strcase_eq, if◌then◌else◌,
  split_first, not, ◌&&◌, is_some,
}
use disqueue.Queue.First.{has_memory}
use disqueue.Queue.History.{Op, puts, takes, waits}

pub record Letter : Type 0 where
  pub key : Option Bytes
  pub value : Bytes

pub record Waiter (C : Type 0) : Type 0 where
  pub key : Option Bytes
  pub client : Option C

pub record Mailbox (C : Type 0) : Type 0 where
  pub letters : List Letter
  pub waiters : List (Waiter C)

-- Whether a key is one that is asked for; no key asks for any.
unfoldable pub fits : Option Bytes → Option Bytes → Bool
fits none key = true
fits (some wanted) none = false
fits (some wanted) (some key) = strcase_eq key wanted

module _ {C : Type 0} where
  abbrev pub empty_mailbox : Mailbox C
  empty_mailbox = record { letters = []; waiters = [] }

  -- By the waiter that gets the letter, if there is one.
  abbrev pub offered : Letter → Mailbox C → Option (Waiter C × List (Waiter C)) → Mailbox C
  offered letter m none = record m { letters = m.letters ++ letter ∷ [] }
  offered letter m (some (waiter, rest)) = record m { waiters = rest }

  abbrev pub fetched : Mailbox C → Option (Letter × List Letter) → Mailbox C
  fetched m none = m
  fetched m (some (letter, rest)) = record m { letters = rest }

  abbrev pub awaited : Waiter C → Bool → Mailbox C → Option (Letter × List Letter) → Mailbox C
  awaited waiter mem m none = if mem then record m { waiters = m.waiters ++ waiter ∷ [] } else m
  awaited waiter mem m (some (letter, rest)) = record m { letters = rest }

  unfoldable pub deliver : Op C → Mailbox C → Mailbox C
  unfolding fits
  deliver (puts key value mem) m =
      if has_memory key mem
      then offered (record { key = key; value = value }) m
          (split_first (λ (w : Waiter C). fits w.key key) m.waiters)
      else m
  deliver (takes key) m = fetched m (split_first (λ (l : Letter). fits key l.key) m.letters)
  deliver (waits key c mem) m =
      awaited (record { key = key; client = some c }) mem m
        (split_first (λ (l : Letter). fits key l.key) m.letters)

  unfoldable pub deliver_all : List (Op C) → Mailbox C → Mailbox C
  unfolding deliver
  deliver_all [] m = m
  deliver_all (o ∷ os) m = deliver_all os (deliver o m)

  -- Whether a call hands a letter to a client that waits.
  abbrev pub hands : Op C → Mailbox C → Bool
  hands (puts key value mem) m =
      has_memory key mem && is_some (split_first (λ (w : Waiter C). fits w.key key) m.waiters)
  hands (takes key) m = false
  hands (waits key c mem) m = is_some (split_first (λ (l : Letter). fits key l.key) m.letters)

  -- Whether no call of the sequence does.
  unfoldable pub calm : List (Op C) → Mailbox C → Bool
  unfolding fits deliver
  calm [] m = true
  calm (o ∷ os) m = not (hands o m) && calm os (deliver o m)
