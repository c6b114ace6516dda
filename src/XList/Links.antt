-- ===== src/XList/Links.antt =====
-- The nodes of the list of common/xlist.c in memory.
use my_common.Common.{
  ℕ, ◌≡◌, ◌≢◌, refl, sym, ap, ◌∙◌, Option, none, some, List, [], ◌∷◌, ◌++◌, length, All, arith,
}
use my_common.Common.Distinct.{DistinctBy}
use my_common.Common.Heap.{Heap, store, store-at, store-off}
use my_common.XList.{StdNode, Lists, set_next, set_prev}

-- The pointer to the first of some nodes, or what follows them.
abbrev pub first : List ℕ → Option ℕ → Option ℕ
first [] stop = stop
first (n ∷ ns) stop = some n

-- The pointer to the last of some nodes, or what precedes them.
abbrev pub last : Option ℕ → List ℕ → Option ℕ
last before [] = before
last before (n ∷ ns) = last (some n) ns

-- Each node is in memory between its neighbours, the first behind `before`, the last before `stop`.
abbrev pub Links : Heap StdNode → Option ℕ → List ℕ → Option ℕ → Type 0
Links h before [] stop = Unit
Links h before (n ∷ ns) stop =
    (h n ≡ some (record { next = first ns stop; prev = before })) × Links h (some n) ns stop

-- The list has these nodes, in both directions, and no node twice.
pub record Holds (s : Lists) (ns : List ℕ) : Type 0 where
  pub head_at : s.list.head ≡ first ns none
  pub tail_at : s.list.tail ≡ last none ns
  pub size_at : s.list.size ≡ length ns
  pub links : Links s.nodes none ns none
  pub distinct : DistinctBy (λ n. n) ns

pub Links-store :
    (h : Heap StdNode) (a : ℕ) (v : Option StdNode) (before stop : Option ℕ) (ns : List ℕ)
    → All (λ n. n ≢ a) ns
    → Links h before ns stop
    → Links (store a v h) before ns stop
Links-store h a v before stop [] out l = tt
Links-store h a v before stop (n ∷ ns) out l =
    (store-off a v h n out.0 ∙ l.0, Links-store h a v (some n) stop ns out.1 l.1)

pub Links-append :
    (h : Heap StdNode) (before stop : Option ℕ) (ns ms : List ℕ)
    → Links h before ns (first ms stop)
    → Links h (last before ns) ms stop
    → Links h before (ns ++ ms) stop
Links-append h before stop [] ms l k = k
Links-append h before stop (n ∷ []) ms l k = (l.0, k)
Links-append h before stop (n ∷ (m ∷ ns)) ms l k =
    (l.0, Links-append h (some n) stop (m ∷ ns) ms l.1 k)

pub Links-split :
    (h : Heap StdNode) (before stop : Option ℕ) (ns ms : List ℕ)
    → Links h before (ns ++ ms) stop
    → Links h before ns (first ms stop) × Links h (last before ns) ms stop
Links-split h before stop [] ms l = (tt, l)
Links-split h before stop (n ∷ []) ms l = ((l.0, tt), l.1)
Links-split h before stop (n ∷ (m ∷ ns)) ms l =
    let (a, b) = Links-split h (some n) stop (m ∷ ns) ms l.1 in ((l.0, a), b)

-- What `set_next` and `set_prev` leave: other nodes and fields.
pub record NextSet (ns : List ℕ) (before v : Option ℕ) (s s' : Lists) : Type 0 where
  pub links_at : Links s'.nodes before ns v
  pub kept : (a : ℕ) → All (λ n. n ≢ a) ns → s'.nodes a ≡ s.nodes a
  pub head_at : s'.list.head ≡ first ns v
  pub tail_at : s'.list.tail ≡ s.list.tail
  pub size_at : s'.list.size ≡ s.list.size

pub record PrevSet (ns : List ℕ) (stop v : Option ℕ) (s s' : Lists) : Type 0 where
  pub links_at : Links s'.nodes v ns stop
  pub kept : (a : ℕ) → All (λ n. n ≢ a) ns → s'.nodes a ≡ s.nodes a
  pub tail_at : s'.list.tail ≡ last v ns
  pub head_at : s'.list.head ≡ s.list.head
  pub size_at : s'.list.size ≡ s.list.size

-- The last of some nodes, which is pointed somewhere else.
pub last-relinked :
    (h : Heap StdNode) (before stop v : Option ℕ) (n : ℕ) (ns : List ℕ)
    → Links h before (n ∷ ns) stop
    → DistinctBy (λ x. x) (n ∷ ns)
    → (z : ℕ) × (x : StdNode) × (last (some n) ns ≡ some z)
      × (h z ≡ some x)
      × Links (store z (some (record x { next = v })) h) before (n ∷ ns) v
      × ((a : ℕ) → All (λ y. y ≢ a) (n ∷ ns) → z ≢ a)
last-relinked h before stop v n [] l d = (
  n,
  record { next = stop; prev = before },
  refl,
  l.0,
  (store-at n (some (record { next = v; prev = before })) h, tt),
  λ a out. out.0,
)
last-relinked h before stop v n (m ∷ ns) l d =
    let (z, x, ez, ex, k, out) = last-relinked h (some n) stop v m ns l.1 d.1 in
    (
      z,
      x,
      ez,
      ex,
      (store-off z (some (record x { next = v })) h n (λ e. out n d.0 (sym e)) ∙ l.0, k),
      λ a o. out a o.1,
    )

set_next-some :
    (z : ℕ) (x : StdNode) (v : Option ℕ) (s : Lists)
    → s.nodes z ≡ some x
    → set_next (some z) v s
      ≡ some (record s { nodes = store z (some (record x { next = v })) s.nodes })
unfolding set_next
set_next-some z x v s e = ground (arith, e)

set_prev-some :
    (z : ℕ) (x : StdNode) (v : Option ℕ) (s : Lists)
    → s.nodes z ≡ some x
    → set_prev (some z) v s
      ≡ some (record s { nodes = store z (some (record x { prev = v })) s.nodes })
unfolding set_prev
set_prev-some z x v s e = ground (arith, e)

-- `set_next` behind the nodes from the head on.
pub set_next-NextSet :
    (ns : List ℕ) (stop v : Option ℕ) (s : Lists)
    → Links s.nodes none ns stop
    → DistinctBy (λ x. x) ns
    → s.list.head ≡ first ns s.list.head
    → (s' : Lists) × (set_next (last none ns) v s ≡ some s') × NextSet ns none v s s'
unfolding set_next
set_next-NextSet [] stop v s l d hd = (
  record s { list = record s.list { head = v } },
  refl,
  record { links_at = tt; kept = λ a o. refl; head_at = refl; tail_at = refl; size_at = refl },
)
set_next-NextSet (n ∷ ns) stop v s l d hd =
    let (z, x, ez, ex, k, out) = last-relinked (s.nodes) none stop v n ns l d in
    (
      record s { nodes = store z (some (record x { next = v })) s.nodes },
      ap (λ p. set_next p v s) ez ∙ set_next-some z x v s ex,
      record {
        links_at = k;
        kept = λ a o. store-off z (some (record x { next = v })) (s.nodes) a (λ e. out a o (sym e));
        head_at = hd;
        tail_at = refl;
        size_at = refl;
      },
    )

-- `set_prev` before the nodes up to the tail.
pub set_prev-PrevSet :
    (ns : List ℕ) (before v : Option ℕ) (s : Lists)
    → Links s.nodes before ns none
    → DistinctBy (λ x. x) ns
    → s.list.tail ≡ last s.list.tail ns
    → (s' : Lists) × (set_prev (first ns none) v s ≡ some s') × PrevSet ns none v s s'
unfolding set_prev
set_prev-PrevSet [] before v s l d td = (
  record s { list = record s.list { tail = v } },
  refl,
  record { links_at = tt; kept = λ a o. refl; head_at = refl; tail_at = refl; size_at = refl },
)
set_prev-PrevSet (n ∷ ns) before v s l d td = (
  record s { nodes = store n (some (record { next = first ns none; prev = v })) s.nodes },
  set_prev-some n (record { next = first ns none; prev = before }) v s l.0,
  record {
    links_at = (
      store-at n (some (record { next = first ns none; prev = v })) (s.nodes),
      Links-store (s.nodes) n (some (record { next = first ns none; prev = v })) (some n) none ns
          d.0 l.1,
    );
    kept = λ a o.
        store-off n (some (record { next = first ns none; prev = v })) (s.nodes) a
          (λ e. o.0 (sym e));
    head_at = refl;
    tail_at = td;
    size_at = refl;
  },
)
