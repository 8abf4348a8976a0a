-- ===== src/TwoLockQueue/Linear.antt =====
-- The steps of the queue, against the abstract queue of its events.
use cpp_util.Util.{
  ℕ, ◌+◌, ◌≤◌, ◌≡◌, ◌∙◌, refl, ap, true, none, some, List, [], ◌∷◌, ◌++◌, get_elem?, length, set,
  length-append, length-set, append_assoc, arith, inl, inr, Option-cases, ◌==◌,
}
use cpp_util.Container.Outcome.{Outcome, ok, ◌>>=◌}
use cpp_util.TwoLockQueue.{
  Node, cell, deleted, Enqueuer, tail_free, entered, linked, Dequeuer, head_free, waiting, reading,
  Event, enqueued, dequeued, found_empty, Queue, lock_tail, link_node, move_tail, lock_head,
  read_next, without, delete_node, apply, replay,
}
use cpp_util.TwoLockQueue.Links.{
  links, last_value, length-links, get_elem?-links, set-links, get_elem?-append, set-append,
  set-left, read-cell, AreRetired, AreRetired-set, AreRetired-without, AreRetired-append,
}

-- Where the tail is: at the last node, or at the one before it, of as many nodes as given.
abbrev pub TailAt : Enqueuer → ℕ → ℕ → Type 0
TailAt tail_free tail count = tail + 1 ≡ count
TailAt (entered v) tail count = tail + 1 ≡ count
TailAt (linked n) tail count = (tail + 2 ≡ count) × (n + 1 ≡ count)

-- What a thread has read in `Dequeue`: the head, and the node behind it.
abbrev pub HeadRead : Dequeuer → ℕ → List ℕ → Type 0
HeadRead head_free head vs = Unit
HeadRead waiting head vs = Unit
HeadRead (reading n next) head vs = (n ≡ head) × (next ≡ head + 1) × (1 ≤ length vs)

-- The linked nodes hold the values of the abstract queue, behind the nodes that were passed.
pub data IsLinear (q : Queue) (vs : List ℕ) : Type 0 where
  linear :
      (passed : List Node) (v : ℕ)
      → q.nodes ≡ passed ++ links q.head v vs
      → length passed ≡ q.head
      → replay q.events ≡ some vs
      → TailAt q.enqueuer q.tail (q.head + 1 + length vs)
      → HeadRead q.dequeuer q.head vs
      → AreRetired q.nodes q.head q.retired
      → IsLinear q vs

-- A step that returns, and leaves the nodes in line with the abstract queue of the events.
abbrev pub Linearizes : Outcome Queue → Type 0
Linearizes m = (q : Queue) × (vs : List ℕ) × (m ≡ ok q) × IsLinear q vs

pub replay-next :
    (e : Event) (es : List Event) (vs ws : List ℕ)
    → replay es ≡ some vs
    → apply e vs ≡ some ws
    → replay (e ∷ es) ≡ some ws
unfolding replay
replay-next e es vs ws log next = rw (log) next

pub apply-dequeued : (v : ℕ) (vs : List ℕ) → apply (dequeued v) (v ∷ vs) ≡ some vs
unfolding apply
apply-dequeued v vs = let self : (v == v) ≡ true = ground arith in rw self refl

module _ (nodes : List Node) (head tail : ℕ) (retired : List ℕ) (events : List Event)
    (vs : List ℕ) where
  -- The queue of these fields, for each progress of the two holders.
  abbrev pub at_phase : Enqueuer → Dequeuer → Queue
  at_phase e d = record {
    nodes = nodes;
    head = head;
    tail = tail;
    enqueuer = e;
    dequeuer = d;
    retired = retired;
    events = events;
  }

  pub lock_tail-Linearizes :
      (w : ℕ) (e : Enqueuer) (d : Dequeuer)
      → IsLinear (at_phase e d) vs
      → Linearizes (lock_tail w (at_phase e d))
  unfolding lock_tail
  lock_tail-Linearizes w tail_free d (linear passed v same at log tail_at head_read old) =
      (_, vs, refl, linear passed v same at log tail_at head_read old)
  lock_tail-Linearizes w (entered u) d l = (_, vs, refl, l)
  lock_tail-Linearizes w (linked n) d l = (_, vs, refl, l)

  pub move_tail-Linearizes :
      (e : Enqueuer) (d : Dequeuer)
      → IsLinear (at_phase e d) vs
      → Linearizes (move_tail (at_phase e d))
  unfolding move_tail
  move_tail-Linearizes tail_free d l = (_, vs, refl, l)
  move_tail-Linearizes (entered u) d l = (_, vs, refl, l)
  move_tail-Linearizes (linked n) d (linear passed v same at log tail_at head_read old) =
      (_, vs, refl, linear passed v same at log tail_at.1 head_read old)

  pub lock_head-Linearizes :
      (e : Enqueuer) (d : Dequeuer)
      → IsLinear (at_phase e d) vs
      → Linearizes (lock_head (at_phase e d))
  unfolding lock_head
  lock_head-Linearizes e head_free (linear passed v same at log tail_at head_read old) =
      (_, vs, refl, linear passed v same at log tail_at tt old)
  lock_head-Linearizes e waiting l = (_, vs, refl, l)
  lock_head-Linearizes e (reading n next) l = (_, vs, refl, l)

  HeadRead-longer : (d : Dequeuer) (w : ℕ) → HeadRead d head vs → HeadRead d head (vs ++ w ∷ [])
  HeadRead-longer head_free w r = tt
  HeadRead-longer waiting w r = tt
  HeadRead-longer (reading n next) w (a, b, c) = (a, b, omega (arith, length-append vs (w ∷ [])))

  -- The node at the tail is the last one, and what is linked behind it comes last.
  pub link_node-Linearizes :
      (e : Enqueuer) (d : Dequeuer)
      → IsLinear (at_phase e d) vs
      → Linearizes (link_node (at_phase e d))
  unfolding link_node
  link_node-Linearizes tail_free d l = (_, vs, refl, l)
  link_node-Linearizes (linked n) d l = (_, vs, refl, l)
  link_node-Linearizes (entered w) d (linear passed v same at log tail_at head_read old) =
      let place : tail ≡ length passed + length vs = omega arith in
      let last : get_elem? nodes tail ≡ some (cell (last_value v vs) none) =
        rw (same, place)
          (get_elem?-append passed (links head v vs) (length vs) ∙ get_elem?-links head v vs) in
      let total : length nodes ≡ head + 1 + length vs =
        rw (same, length-append passed (links head v vs), length-links head v vs) (omega arith) in
      let node = cell (last_value v vs) (some (length nodes)) in
      let changed : set nodes tail node ++ cell w none ∷ []
          ≡ passed ++ links head v (vs ++ w ∷ []) =
        ap (λ ns. ns ++ cell w none ∷ [])
          (ap (λ (ns : List Node). set ns tail node) same
            ∙ ap (λ k. set (passed ++ links head v vs) k node) place
            ∙ set-append passed (links head v vs) (length vs) node)
        ∙ append_assoc passed (set (links head v vs) (length vs) node) (cell w none ∷ [])
        ∙ ap (λ ns. passed ++ ns) (set-links head v vs w (length nodes) total) in
      (
        record (at_phase (linked (length nodes)) d) {
          nodes = set nodes tail node ++ cell w none ∷ [];
          events = enqueued w ∷ events;
        },
        vs ++ w ∷ [],
        rw (read-cell nodes tail _ none last, link_node, ◌>>=◌) refl,
        linear passed v changed at (replay-next (enqueued w) events vs _ log (unfold apply in refl))
            (rw (length-append vs (w ∷ [])) (omega arith, omega arith))
            (HeadRead-longer d w head_read)
            (AreRetired-append (set nodes tail node) (cell w none ∷ []) head retired
              (AreRetired-set nodes head tail node retired (omega arith) old)),
      )

  pub get-head :
      (passed : List Node) (v : ℕ)
      → nodes ≡ passed ++ links head v vs
      → length passed ≡ head
      → get_elem? nodes head ≡ get_elem? (links head v vs) 0
  get-head passed v same at =
      let place : head ≡ length passed + 0 = omega arith in
      rw (same) (
        ap (get_elem? (passed ++ links head v vs)) place
        ∙ get_elem?-append passed (links head v vs) 0)

  -- The thread sees the node behind the head, or that the queue is empty.
  pub read_next-Linearizes :
      (e : Enqueuer) (d : Dequeuer)
      → IsLinear (at_phase e d) vs
      → Linearizes (read_next (at_phase e d))
  unfolding read_next
  read_next-Linearizes e head_free l = (_, vs, refl, l)
  read_next-Linearizes e (reading n next) l = (_, vs, refl, l)
  read_next-Linearizes e waiting (linear passed v same at log tail_at head_read old) =
      by_rest vs refl
    where
      by_rest : (rest : List ℕ) → vs ≡ rest → Linearizes (read_next (at_phase e waiting))
      by_rest [] none_left =
          let here : get_elem? nodes head ≡ some (cell v none) =
            get-head passed v same at ∙ ap (λ us. get_elem? (links head v us) 0) none_left in
          (
            record (at_phase e head_free) { events = found_empty ∷ events },
            vs,
            rw (read-cell nodes head v none here, read_next, ◌>>=◌) refl,
            linear passed v same at
                (replay-next found_empty events vs vs log (rw none_left (unfold apply in refl)))
                tail_at tt old,
          )
      by_rest (w ∷ rest) some_left =
          let here : get_elem? nodes head ≡ some (cell v (some (head + 1))) =
            get-head passed v same at ∙ ap (λ us. get_elem? (links head v us) 0) some_left in
          (
            at_phase e (reading head (head + 1)),
            vs,
            rw (read-cell nodes head v (some (head + 1)) here, read_next, ◌>>=◌) refl,
            linear passed v same at log tail_at (refl, refl, rw some_left (omega arith)) old,
          )

  pub delete_node-Linearizes :
      (k : ℕ) (e : Enqueuer) (d : Dequeuer)
      → IsLinear (at_phase e d) vs
      → Linearizes (delete_node k (at_phase e d))
  unfolding delete_node
  delete_node-Linearizes k e d (linear passed v same at log tail_at head_read old) =
      elim (Option-cases (get_elem? retired k)) [
        | inl gone ↦ (
          at_phase e d,
          vs,
          rw (gone, delete_node) refl,
          linear passed v same at log tail_at head_read old,
        )
        | inr (n, there) ↦
            let (below, (cell_of, alive), rest) =
              AreRetired-without nodes head retired k n old there in
            (
              record (at_phase e d) { nodes = set nodes n deleted; retired = without k retired },
              vs,
              rw (there, read-cell nodes n cell_of.0 cell_of.1 alive, delete_node, ◌>>=◌) refl,
              linear (set passed n deleted) v
                  (ap (λ (ns : List Node). set ns n deleted) same
                    ∙ set-left passed (links head v vs) n deleted (omega arith))
                  (length-set passed n deleted ∙ at) log tail_at head_read rest,
            )
      ]
