-- ===== src/TwoLockQueue.antt =====
-- concurrent_queue/include/concurrent_queue/two_lock_queue.h: any threads that enqueue and dequeue, as
-- steps between two locks. A lock admits one thread, so that its holder's progress is a field of the
-- queue. A node is made when it is linked: before that no other thread can see it.
pub mod Links
pub mod Linear
pub mod Run
mod Examples
use cpp_util.Util.{
  ℕ, zero, suc, ◌+◌, Option, none, some, List, [], ◌∷◌, ◌++◌, get_elem?, length, set, if◌then◌else◌,
  ◌==◌,
}
use cpp_util.Container.Outcome.{Outcome, ok, throw, Error, ◌>>=◌}

-- `Node`: its value and the node behind it, or memory that was deleted.
pub data Node : Type 0 where
  cell : ℕ → Option ℕ → Node
  deleted : Node

-- Who holds `tail_lock_`: nobody, a thread in `Enqueue` before it links its node, or one that has
-- linked it and has not yet moved `tail_`.
pub data Enqueuer : Type 0 where
  tail_free : Enqueuer
  entered : ℕ → Enqueuer
  linked : ℕ → Enqueuer

-- Who holds `head_lock_`: nobody, a thread in `Dequeue`, or one that has read a node behind the head.
pub data Dequeuer : Type 0 where
  head_free waiting : Dequeuer
  reading : ℕ → ℕ → Dequeuer

-- What calls do, at the steps where the others see it.
pub data Event : Type 0 where
  enqueued dequeued : ℕ → Event
  found_empty : Event

-- The fields of the queue, its nodes in the order in which they were linked, the nodes that threads
-- are about to delete, and the events so far, the last one first.
pub record Queue : Type 0 where
  pub nodes : List Node
  pub head : ℕ
  pub tail : ℕ
  pub enqueuer : Enqueuer
  pub dequeuer : Dequeuer
  pub retired : List ℕ
  pub events : List Event

-- `TwoLockQueue()`.
abbrev pub new_queue : Queue
new_queue = record {
  nodes = cell 0 none ∷ [];
  head = 0;
  tail = 0;
  enqueuer = tail_free;
  dequeuer = head_free;
  retired = [];
  events = [];
}

-- Access to the node behind a pointer.
unfoldable pub read : List Node → ℕ → Outcome (ℕ × Option ℕ)
read nodes i = elim (get_elem? nodes i) [
  | none ↦ throw Error.out_of_range
  | some n ↦ elim n [ cell v next ↦ ok (v, next) | deleted ↦ throw Error.dangling ]
]

-- The steps of `Enqueue`. A thread that cannot go on waits, and nothing changes.
unfoldable pub lock_tail : ℕ → Queue → Outcome Queue
lock_tail v q = elim q.enqueuer [
  | tail_free ↦ ok (record q { enqueuer = entered v })
  | entered w ↦ ok q
  | linked n ↦ ok q
]

-- `tail_->next.store(node)`.
unfoldable pub link_node : Queue → Outcome Queue
link_node q = elim q.enqueuer [
  | tail_free ↦ ok q
  | entered v ↦ read q.nodes q.tail >>= λ last. ok (record q {
    nodes = set q.nodes q.tail (cell last.0 (some (length q.nodes))) ++ cell v none ∷ [];
    enqueuer = linked (length q.nodes);
    events = enqueued v ∷ q.events;
  })
  | linked n ↦ ok q
]

-- `tail_ = node`, and the end of the locked part.
unfoldable pub move_tail : Queue → Outcome Queue
move_tail q = elim q.enqueuer [
  | tail_free ↦ ok q
  | entered v ↦ ok q
  | linked n ↦ ok (record q { tail = n; enqueuer = tail_free })
]

-- The steps of `Dequeue`.
unfoldable pub lock_head : Queue → Outcome Queue
lock_head q = elim q.dequeuer [
  | head_free ↦ ok (record q { dequeuer = waiting })
  | waiting ↦ ok q
  | reading n next ↦ ok q
]

-- `node = head_` and `node->next.load()`; where it is null, `Dequeue` returns false.
unfoldable pub read_next : Queue → Outcome Queue
read_next q = elim q.dequeuer [
  | head_free ↦ ok q
  | waiting ↦ read q.nodes q.head >>= λ node. elim node.1 [
    | none ↦ ok (record q { dequeuer = head_free; events = found_empty ∷ q.events })
    | some new_head ↦ ok (record q { dequeuer = reading q.head new_head })
  ]
  | reading n next ↦ ok q
]

-- `*value = new_head->value` and `head_ = new_head`, and the end of the locked part.
unfoldable pub take_value : Queue → Outcome Queue
take_value q = elim q.dequeuer [
  | head_free ↦ ok q
  | waiting ↦ ok q
  | reading n new_head ↦ read q.nodes new_head >>= λ node. ok (record q {
    head = new_head;
    dequeuer = head_free;
    retired = n ∷ q.retired;
    events = dequeued node.0 ∷ q.events;
  })
]

-- `delete node`, by any of the threads that have left the lock.
unfoldable pub without : ℕ → List ℕ → List ℕ
without k [] = []
without zero (n ∷ ns) = ns
without (suc k) (n ∷ ns) = n ∷ without k ns

unfoldable pub delete_node : ℕ → Queue → Outcome Queue
delete_node k q = elim (get_elem? q.retired k) [
  | none ↦ ok q
  | some n ↦ read q.nodes n >>= λ node.
      ok (record q { nodes = set q.nodes n deleted; retired = without k q.retired })
]

-- `~TwoLockQueue()`, when no thread uses the queue any more. With a round for each node and one more.
unfoldable pub destroy_nodes : ℕ → List Node → Option ℕ → Outcome (List Node)
destroy_nodes zero nodes p = throw Error.no_fuel
destroy_nodes (suc fuel) nodes none = ok nodes
destroy_nodes (suc fuel) nodes (some n) =
    read nodes n >>= λ node. destroy_nodes fuel (set nodes n deleted) node.1

unfoldable pub destroy : Queue → Outcome (List Node)
destroy q = destroy_nodes (length q.nodes + 1) q.nodes (some q.head)

pub data Action : Type 0 where
  act_lock_tail : ℕ → Action
  act_link_node act_move_tail act_lock_head act_read_next act_take_value : Action
  act_delete_node : ℕ → Action

unfoldable pub step : Queue → Action → Outcome Queue
step q (act_lock_tail v) = lock_tail v q
step q act_link_node = link_node q
step q act_move_tail = move_tail q
step q act_lock_head = lock_head q
step q act_read_next = read_next q
step q act_take_value = take_value q
step q (act_delete_node k) = delete_node k q

unfoldable pub run : Queue → List Action → Outcome Queue
run q [] = ok q
run q (a ∷ rest) = step q a >>= λ q'. run q' rest

-- The abstract queue: a list of values. Each event is one operation of it, or is refused.
unfoldable pub apply : Event → List ℕ → Option (List ℕ)
apply (enqueued v) vs = some (vs ++ v ∷ [])
apply (dequeued v) [] = none
apply (dequeued v) (w ∷ vs) = if v == w then some vs else none
apply found_empty [] = some []
apply found_empty (w ∷ vs) = none

-- The events from the first to the last.
unfoldable pub replay : List Event → Option (List ℕ)
replay [] = some []
replay (e ∷ es) = elim (replay es) [ none ↦ none | some vs ↦ apply e vs ]
