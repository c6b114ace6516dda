-- ===== src/JsonRpc/Methods/Find.antt =====
-- The search for a method in a valid list.
use my_common.Common.{
  ℕ, zero, suc, ◌<◌, true, false, Option, none, some, List, [], ◌∷◌, ◌++◌, length, Bool-cases, All,
  ◌≡◌, refl, sym, ap, arith, inl, inr, subst,
}
use my_common.Common.Strings.{str_eq}
use my_common.Common.Heap.{Heap}
use my_common.XList.Links.{first, Links, Holds}
use my_common.JsonRpc.Methods.{Method, Table, find_from, method_find_node}

-- Each node has its method.
abbrev pub Entries : Heap Method → List ℕ → List Method → Type 0
Entries h [] [] = Unit
Entries h [] (m ∷ ms) = ⊥
Entries h (n ∷ ns) [] = ⊥
Entries h (n ∷ ns) (m ∷ ms) = (h n ≡ some m) × Entries h ns ms

-- The table is a valid list of nodes with these methods.
pub record Represents (t : Table) (ns : List ℕ) (ms : List Method) : Type 0 where
  pub nodes : Holds t.lists ns
  pub entries : Entries t.methods ns ms

abbrev pub NoName : List ℕ → Method → Type 0
NoName name m = str_eq m.method_name name ≡ false

-- The search ends at the first method of the name, or finds none.
pub data Search (t : Table) (name : List ℕ) (ns : List ℕ) (ms : List Method)
    (answer : Option (Option ℕ)) : Type 0 where
  missing : answer ≡ some none → All (NoName name) ms → Search t name ns ms answer
  hit :
      (ks : List ℕ) (n : ℕ) (ls : List ℕ) (xs : List Method) (m : Method) (ys : List Method)
      → ns ≡ ks ++ (n ∷ ls)
      → ms ≡ xs ++ (m ∷ ys)
      → length ks ≡ length xs
      → All (NoName name) xs
      → str_eq m.method_name name ≡ true
      → answer ≡ some (some n)
      → Search t name ns ms answer

Search-later :
    (t : Table) (name : List ℕ) (n : ℕ) (m : Method) (ns : List ℕ) (ms : List Method)
    (answer : Option (Option ℕ))
    → NoName name m
    → Search t name ns ms answer
    → Search t name (n ∷ ns) (m ∷ ms) answer
Search-later t name n m ns ms answer ne (missing e out) = missing e (ne, out)
Search-later t name n m ns ms answer ne (hit ks k ls xs x ys en em el out same e) =
    hit (n ∷ ks) k ls (m ∷ xs) x ys (ap (λ l. n ∷ l) en) (ap (λ l. m ∷ l) em) (ap suc el) (ne, out)
      same e

find_from-Search :
    (fuel : ℕ) (t : Table) (name : List ℕ) (before : Option ℕ) (ns : List ℕ) (ms : List Method)
    → length ns < fuel
    → Links t.lists.nodes before ns none
    → Entries t.methods ns ms
    → Search t name ns ms (find_from fuel name (first ns none) t)
unfolding find_from
find_from-Search zero t name before ns ms lt l e = absurd (omega arith)
find_from-Search (suc fuel) t name before [] [] lt l e = missing refl tt
find_from-Search (suc fuel) t name before [] (m ∷ ms) lt l e = absurd e
find_from-Search (suc fuel) t name before (n ∷ ns) [] lt l e = absurd e
find_from-Search (suc fuel) t name before (n ∷ ns) (m ∷ ms) lt l e =
    rw (l.0, e.0)
      (elim (Bool-cases (str_eq m.method_name name)) [
        | inl y ↦ rw y (hit [] n ns [] m ms refl refl refl tt y refl)
        | inr no_match ↦ rw no_match (
            Search-later t name n m ns ms _ no_match
              (find_from-Search fuel t name (some n) ns ms (omega arith) l.1 e.1))
      ])

pub method_find_node-Search :
    (fuel : ℕ) (name : List ℕ) (t : Table) (ns : List ℕ) (ms : List Method)
    → Represents t ns ms
    → length ns < fuel
    → Search t name ns ms (method_find_node fuel name t)
unfolding method_find_node
method_find_node-Search fuel name t ns ms v lt =
    subst (λ cur. Search t name ns ms (find_from fuel name cur t)) (sym v.nodes.head_at)
      (find_from-Search fuel t name none ns ms lt v.nodes.links v.entries)
