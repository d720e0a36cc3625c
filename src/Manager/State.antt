-- ===== src/Manager/State.antt =====
-- The structs of src/manager-internal.h. Pointers to a manager_queue, a want and a connection are
-- numbers; the context is a record. `detached` and `next` are the memory that the queues share.
use disqueue.Base.{ℕ, Bool, List, [], Bytes}
use disqueue.Queue.State.{Item, Queue}

pub record Want : Type 0 where
  pub addr : ℕ
  pub identifier : Bytes
  pub cancelled : Bool
  pub queue : ℕ
  pub client : ℕ

-- The argument of the callback that a queue keeps is the address of a want.
pub record ManagerQueue : Type 0 where
  pub addr : ℕ
  pub q : Queue ℕ
  pub id : Bytes

-- A server is known by its evhttp and its evws.
pub record Server : Type 0 where
  pub http : ℕ
  pub ws : ℕ

pub record Manager : Type 0 where
  pub servers : List Server
  pub queues : List ManagerQueue
  pub wants : List Want
  pub detached : List Item
  pub next : ℕ

-- manager_startup.
unfoldable pub manager_startup : Manager → Manager
manager_startup m = record m { servers = []; queues = []; wants = [] }
