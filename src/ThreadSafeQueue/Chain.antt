-- ===== src/ThreadSafeQueue/Chain.antt =====
-- The nodes of a queue in memory: a chain from front to rear, and what a valid queue holds.
use my_common.Common.{
  ℕ, ◌≡◌, ◌≢◌, refl, sym, ap, ◌∙◌, Option, none, some, List, [], ◌∷◌, ◌++◌, length, All, ◌⊎◌, inl,
  inr, arith,
}
use my_common.Common.Distinct.{DistinctBy}
use my_common.Common.Heap.{Heap, store, store-at, store-off}
use my_common.ThreadSafeQueue.{Node, Store}

-- A node: its address, its data pointer and the size of the data.
pub record Cell : Type 0 where
  pub addr : ℕ
  pub data_ptr : ℕ
  pub data_size : ℕ

-- The pointer to the first of some nodes, or what follows them.
abbrev pub first : List Cell → Option ℕ → Option ℕ
first [] stop = stop
first (c ∷ cs) stop = some c.addr

-- The pointer to the last of some nodes.
abbrev pub last : List Cell → Option ℕ
last [] = none
last (c ∷ []) = some c.addr
last (c ∷ (d ∷ cs)) = last (d ∷ cs)

abbrev pub node : Cell → Option ℕ → Node
node c next = record { data_ptr = c.data_ptr; data_size = c.data_size; next = next }

-- Each of the nodes is in memory and points to the one behind it, the last to `stop`.
abbrev pub Chain : Heap Node → List Cell → Option ℕ → Type 0
Chain h [] stop = Unit
Chain h (c ∷ cs) stop = (h c.addr ≡ some (node c (first cs stop))) × Chain h cs stop

-- The nodes have different addresses.
abbrev pub Distinct : List Cell → Type 0
Distinct = DistinctBy (λ c. c.addr)

-- The queue holds these nodes, front to rear, and nothing else.
pub record Holds (s : Store) (cs : List Cell) : Type 0 where
  pub front_at : s.queue.front ≡ first cs none
  pub rear_at : s.queue.rear ≡ last cs
  pub size_at : s.queue.size ≡ length cs
  pub chain : Chain s.heap cs none
  pub distinct : Distinct cs

pub first-append :
    (cs ds : List Cell) (stop : Option ℕ) → first (cs ++ ds) stop ≡ first cs (first ds stop)
first-append [] ds stop = refl
first-append (c ∷ cs) ds stop = refl

pub last-snoc : (cs : List Cell) (c : Cell) → last (cs ++ (c ∷ [])) ≡ some c.addr
last-snoc [] c = refl
last-snoc (d ∷ []) c = refl
last-snoc (d ∷ (e ∷ cs)) c = last-snoc (e ∷ cs) c

pub Chain-append :
    (h : Heap Node) (cs ds : List Cell) (stop : Option ℕ)
    → Chain h cs (first ds stop)
    → Chain h ds stop
    → Chain h (cs ++ ds) stop
Chain-append h [] ds stop a b = b
Chain-append h (c ∷ cs) ds stop a b = (rw (first-append) (a.0), Chain-append h cs ds stop a.1 b)

pub Chain-left :
    (h : Heap Node) (cs ds : List Cell) (stop : Option ℕ)
    → Chain h (cs ++ ds) stop
    → Chain h cs (first ds stop)
Chain-left h [] ds stop a = tt
Chain-left h (c ∷ cs) ds stop a =
    (rw (← first-append cs ds stop) (a.0), Chain-left h cs ds stop a.1)

pub Chain-right :
    (h : Heap Node) (cs ds : List Cell) (stop : Option ℕ)
    → Chain h (cs ++ ds) stop
    → Chain h ds stop
Chain-right h [] ds stop a = a
Chain-right h (c ∷ cs) ds stop a = Chain-right h cs ds stop a.1

-- A change of memory that spares the nodes.
pub Chain-store :
    (h : Heap Node) (a : ℕ) (v : Option Node) (cs : List Cell) (stop : Option ℕ)
    → All (λ c. c.addr ≢ a) cs
    → Chain h cs stop
    → Chain (store a v h) cs stop
Chain-store h a v [] stop out k = tt
Chain-store h a v (c ∷ cs) stop out k =
    (store-off a v h (c.addr) (out.0) ∙ k.0, Chain-store h a v cs stop out.1 k.1)

-- The last node is pointed somewhere else.
pub Chain-relink :
    (h : Heap Node) (cs : List Cell) (c : Cell) (stop stop' : Option ℕ)
    → All (λ d. d.addr ≢ c.addr) cs
    → Chain h (cs ++ (c ∷ [])) stop
    → Chain (store c.addr (some (node c stop')) h) (cs ++ (c ∷ [])) stop'
Chain-relink h cs c stop stop' out k =
    Chain-append (store c.addr (some (node c stop')) h) cs (c ∷ []) stop'
      (Chain-store h (c.addr) (some (node c stop')) cs (some c.addr) out
        (Chain-left h cs (c ∷ []) stop k))
      (store-at (c.addr) (some (node c stop')) h, tt)

none_ne_some : {A : Type 0} {x : A} → ¬ (none ≡ some x)
none_ne_some e = ground arith

-- The node at an unused address is none of the chain.
pub Chain-fresh :
    (h : Heap Node) (a : ℕ) (cs : List Cell) (stop : Option ℕ)
    → h a ≡ none
    → Chain h cs stop
    → All (λ c. c.addr ≢ a) cs
Chain-fresh h a [] stop free k = tt
Chain-fresh h a (c ∷ cs) stop free k =
    (λ e. none_ne_some (sym free ∙ ap h (sym e) ∙ k.0), Chain-fresh h a cs stop free k.1)

-- A list is empty or ends in an element.
pub snoc-cases :
    (cs : List Cell) → (cs ≡ []) ⊎ ((ds : List Cell) × (d : Cell) × (cs ≡ ds ++ (d ∷ [])))
snoc-cases [] = inl refl
snoc-cases (c ∷ cs) = elim (snoc-cases cs) [
  | inl e ↦ inr ([], c, ap (λ l. c ∷ l) e)
  | inr (ds, d, e) ↦ inr (c ∷ ds, d, ap (λ l. c ∷ l) e)
]
