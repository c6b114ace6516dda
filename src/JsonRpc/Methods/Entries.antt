-- ===== src/JsonRpc/Methods/Entries.antt =====
-- A method more or less: lists of methods, and the memory that has them.
use my_common.Common.{
  ℕ, true, Option, none, some, List, [], ◌∷◌, ◌++◌, length, All, ◌≡◌, ◌≢◌, refl, ap, ◌∙◌, arith,
}
use my_common.Common.Strings.{str_eq}
use my_common.Common.Heap.{Heap, store, store-off}
use my_common.XList.{StdNode, Lists}
use my_common.XList.Links.{Links-store, Holds}
use my_common.JsonRpc.Methods.{Method, find_method, with_method, without_method, joined}
use my_common.JsonRpc.Methods.Find.{Entries, NoName}

pub find_method-none :
    (name : List ℕ) (ms : List Method) → All (NoName name) ms → find_method name ms ≡ none
unfolding find_method
find_method-none name [] out = refl
find_method-none name (m ∷ ms) out = rw out.0 (find_method-none name ms out.1)

pub with_method-none :
    (m : Method) (ms : List Method)
    → All (NoName m.method_name) ms
    → with_method m ms ≡ ms ++ (m ∷ [])
unfolding with_method
with_method-none m ms out = ap (joined m ms) (find_method-none m.method_name ms out)

pub without_method-none :
    (name : List ℕ) (ms : List Method) → All (NoName name) ms → without_method name ms ≡ ms
unfolding without_method
without_method-none name [] out = refl
without_method-none name (m ∷ ms) out =
    rw out.0 (ap (λ l. m ∷ l) (without_method-none name ms out.1))

pub find_method-hit :
    (name : List ℕ) (xs : List Method) (m : Method) (ys : List Method)
    → All (NoName name) xs
    → str_eq m.method_name name ≡ true
    → find_method name (xs ++ (m ∷ ys)) ≡ some m
unfolding find_method
find_method-hit name [] m ys out same = rw same refl
find_method-hit name (x ∷ xs) m ys out same = rw out.0 (find_method-hit name xs m ys out.1 same)

pub with_method-hit :
    (m : Method) (ms xs : List Method) (x : Method) (ys : List Method)
    → ms ≡ xs ++ (x ∷ ys)
    → All (NoName m.method_name) xs
    → str_eq x.method_name m.method_name ≡ true
    → with_method m ms ≡ ms
unfolding with_method
with_method-hit m ms xs x ys em out same =
    ap (joined m ms)
      (ap (find_method m.method_name) em ∙ find_method-hit m.method_name xs x ys out same)

pub without_method-hit :
    (name : List ℕ) (xs : List Method) (m : Method) (ys : List Method)
    → All (NoName name) xs
    → str_eq m.method_name name ≡ true
    → without_method name (xs ++ (m ∷ ys)) ≡ xs ++ ys
unfolding without_method
without_method-hit name [] m ys out same = rw same refl
without_method-hit name (x ∷ xs) m ys out same =
    rw out.0 (ap (λ l. x ∷ l) (without_method-hit name xs m ys out.1 same))

pub Entries-split :
    (h : Heap Method) (ks : List ℕ) (n : ℕ) (ls : List ℕ) (xs : List Method) (m : Method)
    (ys : List Method)
    → length ks ≡ length xs
    → Entries h (ks ++ (n ∷ ls)) (xs ++ (m ∷ ys))
    → (h n ≡ some m) × Entries h (ks ++ ls) (xs ++ ys)
Entries-split h [] n ls [] m ys el e = e
Entries-split h [] n ls (x ∷ xs) m ys el e = absurd (omega (arith, el))
Entries-split h (k ∷ ks) n ls [] m ys el e = absurd (omega (arith, el))
Entries-split h (k ∷ ks) n ls (x ∷ xs) m ys el e =
    let (at, rest) = Entries-split h ks n ls xs m ys (omega (arith, el)) e.1 in (at, (e.0, rest))

pub Entries-store :
    (h : Heap Method) (a : ℕ) (v : Option Method) (ns : List ℕ) (ms : List Method)
    → All (λ n. n ≢ a) ns
    → Entries h ns ms
    → Entries (store a v h) ns ms
Entries-store h a v [] [] out e = tt
Entries-store h a v [] (m ∷ ms) out e = absurd e
Entries-store h a v (n ∷ ns) [] out e = absurd e
Entries-store h a v (n ∷ ns) (m ∷ ms) out e =
    (store-off a v h n out.0 ∙ e.0, Entries-store h a v ns ms out.1 e.1)

pub Entries-snoc :
    (h : Heap Method) (a : ℕ) (m : Method) (ns : List ℕ) (ms : List Method)
    → h a ≡ some m
    → Entries h ns ms
    → Entries h (ns ++ (a ∷ [])) (ms ++ (m ∷ []))
Entries-snoc h a m [] [] at e = (at, tt)
Entries-snoc h a m [] (x ∷ ms) at e = absurd e
Entries-snoc h a m (n ∷ ns) [] at e = absurd e
Entries-snoc h a m (n ∷ ns) (x ∷ ms) at e = (e.0, Entries-snoc h a m ns ms at e.1)

-- Memory that no node has plays no part in a list.
pub Holds-store :
    (s : Lists) (ns : List ℕ) (a : ℕ) (v : Option StdNode)
    → All (λ n. n ≢ a) ns
    → Holds s ns
    → Holds (record s { nodes = store a v s.nodes }) ns
Holds-store s ns a v out h = record {
  head_at = h.head_at;
  tail_at = h.tail_at;
  size_at = h.size_at;
  links = Links-store s.nodes a v none none ns out h.links;
  distinct = h.distinct;
}
