-- ===== src/TwoLockQueue/Examples.antt =====
-- Short interleavings of the queue's steps: tests, and the theorem at one of them.
use cpp_util.Util.{◌≡◌, refl, [], ◌∷◌, some, none, List}
use cpp_util.Container.Outcome.{ok}
use cpp_util.TwoLockQueue.{
  enqueued, dequeued, found_empty, cell, deleted, head_free, tail_free, linked, new_queue, read,
  lock_tail, link_node, move_tail, lock_head, read_next, take_value, without, delete_node, destroy,
  destroy_nodes, Action, act_lock_tail, act_link_node, act_move_tail, act_lock_head, act_read_next,
  act_take_value, act_delete_node, step, run, apply, replay,
}
use cpp_util.TwoLockQueue.Linear.{Linearizes}
use cpp_util.TwoLockQueue.Run.{run-Linearizes}

-- A value is dequeued while the thread that enqueues it has not yet moved the tail.
abbrev overlapping : List Action
overlapping =
    act_lock_tail 7
    ∷ act_lock_head
    ∷ act_link_node
    ∷ act_read_next
    ∷ act_lock_tail 8
    ∷ act_take_value
    ∷ act_delete_node 0
    ∷ []

overlaps :
    run new_queue overlapping
    ≡ ok (record {
      nodes = deleted ∷ cell 7 none ∷ [];
      head = 1;
      tail = 0;
      enqueuer = linked 1;
      dequeuer = head_free;
      retired = [];
      events = dequeued 7 ∷ enqueued 7 ∷ [];
    })
unfolding run step lock_tail link_node lock_head read_next take_value delete_node without read
overlaps = refl

-- An empty queue is reported before the value is linked.
abbrev early : List Action
early = act_lock_tail 7 ∷ act_lock_head ∷ act_read_next ∷ act_link_node ∷ act_move_tail ∷ []

reports_empty :
    run new_queue early
    ≡ ok (record {
      nodes = cell 0 (some 1) ∷ cell 7 none ∷ [];
      head = 0;
      tail = 1;
      enqueuer = tail_free;
      dequeuer = head_free;
      retired = [];
      events = enqueued 7 ∷ found_empty ∷ [];
    })
unfolding run step lock_tail link_node move_tail lock_head read_next read
reports_empty = refl

replays : replay (enqueued 7 ∷ found_empty ∷ []) ≡ some (7 ∷ [])
unfolding replay apply
replays = refl

out_of_order : replay (dequeued 8 ∷ enqueued 8 ∷ enqueued 7 ∷ []) ≡ none
unfolding replay apply
out_of_order = refl

-- A value that is left over goes with the queue.
destroys :
    destroy (record new_queue { nodes = cell 0 (some 1) ∷ cell 7 none ∷ []; tail = 1 })
    ≡ ok (deleted ∷ deleted ∷ [])
unfolding destroy destroy_nodes read
destroys = refl

run-Linearizes_example : Linearizes (run new_queue overlapping)
run-Linearizes_example = run-Linearizes overlapping
