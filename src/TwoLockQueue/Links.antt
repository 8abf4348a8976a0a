-- ===== src/TwoLockQueue/Links.antt =====
-- The linked nodes of the queue: reading them, putting one behind the last, and deleting one that was
-- left behind.
use mathlib.Core.Option.{some-injective}
use cpp_util.Util.{◌≢◌}
use cpp_util.Util.{
  ℕ, zero, suc, ◌+◌, ◌≤◌, ◌<◌, ◌≡◌, ◌∙◌, refl, ap, Option, none, some, List, [], ◌∷◌, ◌++◌,
  get_elem?, length, set, arith,
}
use cpp_util.Container.Outcome.{ok}
use cpp_util.TwoLockQueue.{Node, cell, deleted, read, without}

-- The nodes from index `i` on: the first one's value has been taken, the others' wait.
abbrev pub links : ℕ → ℕ → List ℕ → List Node
links i v [] = cell v none ∷ []
links i v (w ∷ vs) = cell v (some (i + 1)) ∷ links (i + 1) w vs

abbrev pub last_value : ℕ → List ℕ → ℕ
last_value v [] = v
last_value v (w ∷ vs) = last_value w vs

pub length-links : (i v : ℕ) (vs : List ℕ) → length (links i v vs) ≡ 1 + length vs
length-links i v [] = refl
length-links i v (w ∷ vs) = omega (arith, length-links (i + 1) w vs)

pub get_elem?-links :
    (i v : ℕ) (vs : List ℕ)
    → get_elem? (links i v vs) (length vs) ≡ some (cell (last_value v vs) none)
get_elem?-links i v [] = refl
get_elem?-links i v (w ∷ vs) = get_elem?-links (i + 1) w vs

-- A node is linked behind the last.
pub set-links :
    (i v : ℕ) (vs : List ℕ) (w n : ℕ)
    → n ≡ i + 1 + length vs
    → set (links i v vs) (length vs) (cell (last_value v vs) (some n)) ++ cell w none ∷ []
      ≡ links i v (vs ++ w ∷ [])
set-links i v [] w n e = let next : n ≡ i + 1 = omega arith in rw next refl
set-links i v (u ∷ vs) w n e =
    ap (◌∷◌ (cell v (some (i + 1)))) (set-links (i + 1) u vs w n (omega arith))

pub get_elem?-append :
    (xs ys : List Node) (k : ℕ) → get_elem? (xs ++ ys) (length xs + k) ≡ get_elem? ys k
get_elem?-append [] ys k = let same : 0 + k ≡ k = omega arith in rw same refl
get_elem?-append (x ∷ xs) ys k =
    let next : suc (length xs) + k ≡ suc (length xs + k) = omega arith in
    rw next (get_elem?-append xs ys k)

pub set-append :
    (xs ys : List Node) (k : ℕ) (n : Node) → set (xs ++ ys) (length xs + k) n ≡ xs ++ set ys k n
set-append [] ys k n = let same : 0 + k ≡ k = omega arith in rw same refl
set-append (x ∷ xs) ys k n =
    let next : suc (length xs) + k ≡ suc (length xs + k) = omega arith in
    rw next (ap (◌∷◌ x) (set-append xs ys k n))

pub set-left :
    (xs ys : List Node) (k : ℕ) (n : Node) → k < length xs → set (xs ++ ys) k n ≡ set xs k n ++ ys
set-left [] ys k n h = absurd (omega arith)
set-left (x ∷ xs) ys zero n h = refl
set-left (x ∷ xs) ys (suc k) n h = ap (◌∷◌ x) (set-left xs ys k n (omega arith))

abbrev pub IsAlive : List Node → ℕ → Type 0
IsAlive nodes i = (n : ℕ × Option ℕ) × (get_elem? nodes i ≡ some (cell n.0 n.1))

pub read-cell :
    (nodes : List Node) (i v : ℕ) (next : Option ℕ)
    → get_elem? nodes i ≡ some (cell v next)
    → read nodes i ≡ ok (v, next)
unfolding read
read-cell nodes i v next at = rw (at, read) refl

-- The nodes that threads are about to delete: alive, all below the head, and no two the same.
abbrev pub AreRetired : List Node → ℕ → List ℕ → Type 0
AreRetired nodes bound [] = Unit
AreRetired nodes bound (n ∷ ns) = (n < bound) × IsAlive nodes n × AreRetired nodes n ns

get_elem?-set_other :
    (nodes : List Node) (i j : ℕ) (n : Node)
    → i ≢ j
    → get_elem? (set nodes j n) i ≡ get_elem? nodes i
get_elem?-set_other [] i j n d = refl
get_elem?-set_other (x ∷ xs) zero zero n d = absurd (d refl)
get_elem?-set_other (x ∷ xs) (suc i) zero n d = refl
get_elem?-set_other (x ∷ xs) zero (suc j) n d = refl
get_elem?-set_other (x ∷ xs) (suc i) (suc j) n d = get_elem?-set_other xs i j n (λ e. d (ap suc e))

IsAlive-set :
    (nodes : List Node) (i j : ℕ) (n : Node) → i ≢ j → IsAlive nodes i → IsAlive (set nodes j n) i
IsAlive-set nodes i j n d (v, e) = (v, get_elem?-set_other nodes i j n d ∙ e)

pub AreRetired-set :
    (nodes : List Node) (bound j : ℕ) (n : Node) (ns : List ℕ)
    → bound ≤ j
    → AreRetired nodes bound ns
    → AreRetired (set nodes j n) bound ns
AreRetired-set nodes bound j n [] h r = tt
AreRetired-set nodes bound j n (i ∷ ns) h (below, here, rest) = (
  below,
  IsAlive-set nodes i j n (λ e. absurd (omega arith)) here,
  AreRetired-set nodes i j n ns (omega arith) rest,
)

pub AreRetired-le :
    (nodes : List Node) (a b : ℕ) (ns : List ℕ)
    → a ≤ b
    → AreRetired nodes a ns
    → AreRetired nodes b ns
AreRetired-le nodes a b [] h r = tt
AreRetired-le nodes a b (i ∷ ns) h (below, here, rest) = (omega arith, here, rest)

-- A retired node that is picked is alive, and when it is deleted the others still are.
pub AreRetired-without :
    (nodes : List Node) (bound : ℕ) (ns : List ℕ) (k i : ℕ)
    → AreRetired nodes bound ns
    → get_elem? ns k ≡ some i
    → (i < bound) × IsAlive nodes i × AreRetired (set nodes i deleted) bound (without k ns)
unfolding without
AreRetired-without nodes bound [] k i r at = absurd (cc at)
AreRetired-without nodes bound (n ∷ ns) zero i (below, here, rest) at =
    let same = some-injective n i at in
    rw (← same) (
      below,
      here,
      AreRetired-le _ n bound ns (omega arith)
          (AreRetired-set nodes n n deleted ns (omega arith) rest),
    )
AreRetired-without nodes bound (n ∷ ns) (suc k) i (below, here, rest) at =
    let (i_below, i_here, i_rest) = AreRetired-without nodes n ns k i rest at in
    (
      omega arith,
      i_here,
      (below, IsAlive-set nodes n i deleted (λ e. absurd (omega arith)) here, i_rest),
    )

-- More nodes, and a change of one that is not retired.
pub AreRetired-append :
    (nodes more : List Node) (bound : ℕ) (ns : List ℕ)
    → AreRetired nodes bound ns
    → AreRetired (nodes ++ more) bound ns
AreRetired-append nodes more bound [] r = tt
AreRetired-append nodes more bound (i ∷ ns) (below, here, rest) =
    (below, (here.0, get_elem?-left nodes i _ here.1), AreRetired-append nodes more i ns rest)
  where
    get_elem?-left :
        (xs : List Node) (i : ℕ) (n : Node)
        → get_elem? xs i ≡ some n
        → get_elem? (xs ++ more) i ≡ some n
    get_elem?-left [] i n e = absurd (cc e)
    get_elem?-left (x ∷ xs) zero n e = e
    get_elem?-left (x ∷ xs) (suc i) n e = get_elem?-left xs i n e
