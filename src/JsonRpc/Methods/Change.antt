-- ===== src/JsonRpc/Methods/Change.antt =====
-- The calls on a service's methods against a list of methods.
use my_common.Common.{
  ℕ, ◌<◌, Option, none, some, List, [], ◌∷◌, ◌++◌, length, All, ◌≡◌, ◌≢◌, refl, sym, ap, ◌∙◌, subst,
}
use my_common.Common.StateCode.{StateCode, no_error, allocation_failure}
use my_common.Common.Distinct.{DistinctBy-middle}
use my_common.Common.Heap.{store, store-at}
use my_common.XList.{◌>>=◌}
use my_common.XList.Links.{Holds}
use my_common.XList.Calls.{push-Holds}
use my_common.XList.Remove.{remove_node-Holds}
use my_common.JsonRpc.Methods.{
  Method, Table, method_find_node, add_method, register_method, drop_method, unregister_method,
  find_method, with_method, without_method,
}
use my_common.JsonRpc.Methods.Find.{
  Entries, Represents, Search, missing, hit, method_find_node-Search,
}
use my_common.JsonRpc.Methods.Entries.{
  find_method-none, with_method-none, without_method-none, find_method-hit, with_method-hit,
  without_method-hit, Entries-split, Entries-store, Entries-snoc, Holds-store,
}

-- The method at an address that a search gave.
abbrev pub method_at : Table → Option ℕ → Option Method
method_at t none = none
method_at t (some n) = t.methods n

-- A call that returns a code and leaves a table with these methods.
abbrev pub Leaves : Option (StateCode × Table) → StateCode → List Method → Type 0
Leaves r code ms = (t : Table) × (ns : List ℕ) × (r ≡ some (code, t)) × Represents t ns ms

abbrev pub refused_code : Option Method → StateCode
refused_code none = allocation_failure
refused_code (some m) = no_error

module _ (t : Table) (ns : List ℕ) (ms : List Method) (v : Represents t ns ms) where
  find_lem :
      (name : List ℕ) (answer : Option (Option ℕ))
      → Search t name ns ms answer
      → (o : Option ℕ) × (answer ≡ some o) × (method_at t o ≡ find_method name ms)
  find_lem name answer (missing e out) = (none, e, sym (find_method-none name ms out))
  find_lem name answer (hit ks n ls xs m ys en em el out same e) = (
    some n,
    e,
    (Entries-split t.methods ks n ls xs m ys el (
          subst (λ l. Entries t.methods l (xs ++ (m ∷ ys))) en
            (subst (λ l. Entries t.methods ns l) em v.entries))).0
        ∙ sym (ap (find_method name) em ∙ find_method-hit name xs m ys out same),
  )

  add_lem :
      (a : ℕ) (m : Method) (answer : Option (Option ℕ))
      → All (λ n. n ≢ a) ns
      → Search t m.method_name ns ms answer
      → Leaves (answer >>= (λ found. add_method (some a) m found t)) no_error (with_method m ms)
  add_lem a m answer out (missing e none_named) =
      let blank = some (record { next = none; prev = none }) in
      let ready = record t.lists { nodes = store a blank t.lists.nodes } in
      let (s, es, hs) =
        (push-Holds a (record { next = none; prev = none }) ready ns
          (Holds-store t.lists ns a blank out v.nodes) (store-at a blank t.lists.nodes) out).0 in
      (
        record { lists = s; methods = store a (some m) t.methods },
        ns ++ (a ∷ []),
        rw e (rw es refl),
        subst (Represents _ (ns ++ (a ∷ []))) (sym (with_method-none m ms none_named)) (record {
          nodes = hs;
          entries =
              Entries-snoc (store a (some m) t.methods) a m ns ms (store-at a (some m) t.methods)
                (Entries-store t.methods a (some m) ns ms out v.entries);
        }),
      )
  add_lem a m answer out (hit ks n ls xs x ys en em el none_named same e) = (
    t,
    ns,
    rw e refl,
    subst (Represents t ns) (sym (with_method-hit m ms xs x ys em none_named same)) v,
  )

  drop_lem :
      (name : List ℕ) (answer : Option (Option ℕ))
      → Search t name ns ms answer
      → Leaves (answer >>= (λ found. drop_method found t)) no_error (without_method name ms)
  drop_lem name answer (missing e out) = (t, ns, rw e refl, rw (without_method-none name ms out) v)
  drop_lem name answer (hit ks n ls xs m ys en em el out same e) =
      let (s, es, hs, at_n) =
        remove_node-Holds n t.lists ks ls (subst (Holds t.lists) en v.nodes) in
      let away =
        DistinctBy-middle (λ (k : ℕ). k) ks n ls (subst (Holds t.lists) en v.nodes).distinct in
      (
        record {
          lists = record s { nodes = store n none s.nodes };
          methods = store n none t.methods;
        },
        ks ++ ls,
        rw e (rw es refl),
        subst (Represents _ (ks ++ ls))
            (sym (ap (without_method name) em ∙ without_method-hit name xs m ys out same))
            (record {
              nodes = Holds-store s (ks ++ ls) n none away hs;
              entries =
                  Entries-store t.methods n none (ks ++ ls) (xs ++ ys) away
                    (Entries-split t.methods ks n ls xs m ys el (
                      subst (λ l. Entries t.methods l (xs ++ (m ∷ ys))) en
                        (subst (λ l. Entries t.methods ns l) em v.entries))).1;
            }),
      )

  refuse_lem :
      (m : Method) (answer : Option (Option ℕ))
      → Search t m.method_name ns ms answer
      → (answer >>= (λ found. add_method none m found t))
        ≡ some (refused_code (find_method m.method_name ms), t)
  refuse_lem m answer (missing e out) = rw (e, find_method-none m.method_name ms out) refl
  refuse_lem m answer (hit ks n ls xs x ys en em el out same e) =
      e_then (ap (find_method m.method_name) em ∙ find_method-hit m.method_name xs x ys out same)
    where
      e_then :
          find_method m.method_name ms ≡ some x
          → (answer >>= (λ found. add_method none m found t))
            ≡ some (refused_code (find_method m.method_name ms), t)
      e_then known = rw (e, known) refl

  -- On a valid list of methods, with more rounds than nodes, MethodFindNode finds the first
  -- method of the name or none; a registration with memory that no node has appends the method,
  -- or changes nothing where the name is there; without memory it changes nothing and fails
  -- where the name is new; and unregistering takes the first method of the name out, or changes
  -- nothing; the list is valid behind each of them.
  pub calls-Represents :
      (fuel : ℕ) (name : List ℕ) (m : Method) (a : ℕ)
      → length ns < fuel
      → All (λ n. n ≢ a) ns
      → ((o : Option ℕ) × (method_find_node fuel name t ≡ some o)
          × (method_at t o ≡ find_method name ms))
        × Leaves (register_method fuel (some a) m t) no_error (with_method m ms)
        × (register_method fuel none m t ≡ some (refused_code (find_method m.method_name ms), t))
        × Leaves (unregister_method fuel name t) no_error (without_method name ms)
  unfolding register_method unregister_method
  calls-Represents fuel name m a enough out =
      let s = method_find_node-Search fuel name t ns ms v enough in
      let sm = method_find_node-Search fuel m.method_name t ns ms v enough in
      (
        find_lem name (method_find_node fuel name t) s,
        add_lem a m (method_find_node fuel m.method_name t) out sm,
        refuse_lem m (method_find_node fuel m.method_name t) sm,
        drop_lem name (method_find_node fuel name t) s,
      )
