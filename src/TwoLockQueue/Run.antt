-- ===== src/TwoLockQueue/Run.antt =====
-- The step that takes a value, and every interleaving of the steps.
use cpp_util.Util.{
  ℕ, suc, ◌+◌, ◌≡◌, ◌∙◌, sym, refl, Option, none, some, List, [], ◌∷◌, ◌++◌, get_elem?, length,
  length-append, append_assoc, arith, subst,
}
use cpp_util.Container.Outcome.{◌>>=◌}
use cpp_util.TwoLockQueue.{
  Node, cell, Enqueuer, Dequeuer, head_free, waiting, reading, Event, dequeued, Queue, new_queue,
  take_value, Action, act_lock_tail, act_link_node, act_move_tail, act_lock_head, act_read_next,
  act_take_value, act_delete_node, step, run, replay,
}
use cpp_util.TwoLockQueue.Links.{links, read-cell}
use cpp_util.TwoLockQueue.Linear.{
  TailAt, IsLinear, linear, Linearizes, at_phase, replay-next, apply-dequeued, lock_tail-Linearizes,
  move_tail-Linearizes, lock_head-Linearizes, link_node-Linearizes, get-head, read_next-Linearizes,
  delete_node-Linearizes,
}

-- The pointer in the first of the linked nodes.
abbrev first_next : ℕ → List ℕ → Option ℕ
first_next i [] = none
first_next i (w ∷ vs) = some (i + 1)

links-first : (i v : ℕ) (vs : List ℕ) → get_elem? (links i v vs) 0 ≡ some (cell v (first_next i vs))
links-first i v [] = refl
links-first i v (w ∷ vs) = refl

-- The node behind the head becomes the head, and the old head waits to be deleted.
module _ (nodes : List Node) (head tail : ℕ) (retired : List ℕ) (events : List Event) where
  take_value-Linearizes :
      (vs : List ℕ) (e : Enqueuer) (d : Dequeuer)
      → IsLinear (at_phase nodes head tail retired events vs e d) vs
      → Linearizes (take_value (at_phase nodes head tail retired events vs e d))
  unfolding take_value
  take_value-Linearizes vs e head_free l = (_, vs, refl, l)
  take_value-Linearizes vs e waiting l = (_, vs, refl, l)
  take_value-Linearizes [] e (reading n next)
        (linear passed v same at log tail_at (old_head, behind, some_left) old) =
      absurd (omega arith)
  take_value-Linearizes (w ∷ rest) e (reading n next)
        (linear passed v same at log tail_at (old_head, behind, some_left) old) =
      let c = cell v (some (head + 1)) in
      let same' : nodes ≡ (passed ++ c ∷ []) ++ links next w rest =
        rw behind (same ∙ sym (append_assoc passed (c ∷ []) (links (head + 1) w rest))) in
      let at' : length (passed ++ c ∷ []) ≡ next =
        rw (length-append passed (c ∷ [])) (omega arith) in
      let here =
        get-head nodes next tail retired events rest (passed ++ c ∷ []) w same' at'
        ∙ links-first next w rest in
      let head_cell = get-head nodes head tail retired events (w ∷ rest) passed v same at in
      let counts : head + 1 + suc (length rest) ≡ next + 1 + length rest = omega arith in
      (
        record (at_phase nodes head tail retired events rest e head_free) {
          head = next;
          retired = n ∷ retired;
          events = dequeued w ∷ events;
        },
        rest,
        rw (read-cell nodes next w (first_next next rest) here, take_value, ◌>>=◌) refl,
        linear (passed ++ c ∷ []) w same' at'
            (replay-next (dequeued w) events (w ∷ rest) rest log (apply-dequeued w rest))
            (subst (TailAt e tail) counts tail_at) tt
            (omega arith, ((v, some (head + 1)), rw old_head head_cell), rw old_head old),
      )

step-Linearizes : (q : Queue) (a : Action) (vs : List ℕ) → IsLinear q vs → Linearizes (step q a)
unfolding step
step-Linearizes q (act_lock_tail w) vs l =
    lock_tail-Linearizes q.nodes q.head q.tail q.retired q.events vs w q.enqueuer q.dequeuer l
step-Linearizes q act_link_node vs l =
    link_node-Linearizes q.nodes q.head q.tail q.retired q.events vs q.enqueuer q.dequeuer l
step-Linearizes q act_move_tail vs l =
    move_tail-Linearizes q.nodes q.head q.tail q.retired q.events vs q.enqueuer q.dequeuer l
step-Linearizes q act_lock_head vs l =
    lock_head-Linearizes q.nodes q.head q.tail q.retired q.events vs q.enqueuer q.dequeuer l
step-Linearizes q act_read_next vs l =
    read_next-Linearizes q.nodes q.head q.tail q.retired q.events vs q.enqueuer q.dequeuer l
step-Linearizes q act_take_value vs l =
    take_value-Linearizes q.nodes q.head q.tail q.retired q.events vs q.enqueuer q.dequeuer l
step-Linearizes q (act_delete_node k) vs l =
    delete_node-Linearizes q.nodes q.head q.tail q.retired q.events vs k q.enqueuer q.dequeuer l

Linearizes-run :
    (actions : List Action) (q : Queue) (vs : List ℕ) → IsLinear q vs → Linearizes (run q actions)
unfolding run
Linearizes-run [] q vs l = (q, vs, refl, l)
Linearizes-run (a ∷ rest) q vs l =
    let (q', vs', made, l') = step-Linearizes q a vs l in
    rw (made, run, ◌>>=◌) (Linearizes-run rest q' vs' l')

-- Every interleaving of the steps of `Enqueue` and `Dequeue`, from the empty queue on, returns:
-- no step reaches a deleted node or one that was never made. The events, in the order of their
-- steps, are a run of a list of values from which the first is taken, and which `Dequeue` finds
-- empty only where it is; what that run leaves are the values of the linked nodes behind the
-- head, the tail is the last node or the one before it, and the nodes that wait for their
-- deletion are all different and below the head.
pub run-Linearizes : (actions : List Action) → Linearizes (run new_queue actions)
run-Linearizes actions =
    Linearizes-run actions new_queue []
      (linear [] 0 refl refl (unfold replay in refl) (omega arith) tt tt)
