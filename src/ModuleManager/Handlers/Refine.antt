-- ===== src/ModuleManager/Handlers/Refine.antt =====
-- That the calls on a table of message handlers answer as those on the map do.
use my_common.Common.{
  ℕ, Bool, true, false, Option, none, some, List, [], ◌∷◌, ◌++◌, map, map-append, ◌==◌,
  if◌then◌else◌, Bool-cases, ==_iff, ◌≡◌, ◌≢◌, refl, ap, ap₂, ◌∙◌, subst, inl, inr, arith, All,
}
use my_common.Common.Distinct.{DistinctBy, DistinctBy-snoc}
use my_common.Common.StateCode.{StateCode, no_error, invalid_param}
use my_common.ModuleManager.{
  HandlerEntry, replace_handler, register_handler, enable_handler, is_handler_enabled,
  handlers_called, call_of, registered,
}
use my_common.ModuleManager.Handlers.{
  TableOp, register, enable, query, deliver, TableReply, flag, code, called, table_step, table_run,
  HandlerMap, map_register, map_enable, is_on, calls_for, map_step, map_run,
}

-- The entry of a type in the table.
abbrev entry_of : ℕ → List HandlerEntry → Option (Option ℕ × Bool)
entry_of t [] = none
entry_of t (e ∷ es) = if e.msg_type == t then some (e.handler, e.enabled) else entry_of t es

abbrev types : List HandlerEntry → List ℕ
types = map (λ (e : HandlerEntry). e.msg_type)

abbrev entry_as : Option (ℕ × Bool) → Option (Option ℕ × Bool)
entry_as none = none
entry_as (some (h, on)) = some (some h, on)

-- The table has each type once and says of each what the map says.
record Holds (es : List HandlerEntry) (s : HandlerMap) : Type 0 where
  once : DistinctBy (λ (t : ℕ). t) (types es)
  agrees : (t : ℕ) → entry_of t es ≡ entry_as (s t)

-- What a search through the table for a type to be replaced gives.
abbrev Replaced : ℕ → ℕ → List HandlerEntry → Option (List HandlerEntry) → Type 0
Replaced t h es none = All (λ u. u ≢ t) (types es) × (entry_of t es ≡ none)
Replaced t h es (some es') =
    (types es' ≡ types es)
    × (entry_of t es ≢ none)
    × ((u : ℕ) → entry_of u es' ≡ (if t == u then some (some h, true) else entry_of u es))

replace_other :
    (t h : ℕ) (e : HandlerEntry) (es : List HandlerEntry) (r : Option (List HandlerEntry))
    → (e.msg_type == t) ≡ false
    → Replaced t h es r
    → Replaced t h (e ∷ es) (elim r [ none ↦ none | some es' ↦ some (e ∷ es') ])
replace_other t h e es none ne ih = ((ground arith, ih.0), rw ne ih.1)
replace_other t h e es (some es') ne ih =
    (ap (λ l. e.msg_type ∷ l) ih.0, rw ne ih.1, λ u. ground (arith, ih.2 u))

replace-Replaced : (t h : ℕ) (es : List HandlerEntry) → Replaced t h es (replace_handler t h es)
unfolding replace_handler
replace-Replaced t h [] = (tt, refl)
replace-Replaced t h (e ∷ es) = elim (Bool-cases (e.msg_type == t)) [
  | inl y ↦ rw y (refl, (λ p. cc), λ u. ground arith)
  | inr n ↦ rw n (replace_other t h e es (replace_handler t h es) n (replace-Replaced t h es))
]

-- What a switch of a type leaves.
abbrev Switched : ℕ → Bool → List HandlerEntry → StateCode × List HandlerEntry → Type 0
Switched t on es (c, es') =
    (types es' ≡ types es)
    × (c ≡ (elim (entry_of t es) [ none ↦ invalid_param | some v ↦ no_error ]))
    × ((u : ℕ)
        → entry_of u es' ≡ (
            if t == u
            then elim (entry_of t es) [ none ↦ none | some v ↦ some (v.0, on) ]
            else entry_of u es))

enable-Switched :
    (t : ℕ) (on : Bool) (es : List HandlerEntry) → Switched t on es (enable_handler t on es)
unfolding enable_handler
enable-Switched t on [] = (refl, refl, λ u. ground arith)
enable-Switched t on (e ∷ es) = elim (Bool-cases (e.msg_type == t)) [
  | inl y ↦ rw y (refl, refl, λ u. ground arith)
  | inr n ↦
      let (same, c, ih) = enable-Switched t on es in
      rw n (ap (λ l. e.msg_type ∷ l) same, c, λ u. ground (arith, ih u))
]

entry-append :
    (t u : ℕ) (h : Option ℕ) (es : List HandlerEntry)
    → entry_of t es ≡ none
    → entry_of u (es ++ (record { msg_type = t; handler = h; enabled = true } ∷ []))
      ≡ (if t == u then some (h, true) else entry_of u es)
entry-append t u h [] out = refl
entry-append t u h (e ∷ es) out = ground (arith, entry-append t u h es)

-- A type that the table does not have is called nowhere.
called-absent :
    (t : ℕ) (es : List HandlerEntry) → All (λ u. u ≢ t) (types es) → handlers_called t es ≡ []
unfolding handlers_called
called-absent t [] out = refl
called-absent t (e ∷ es) out = ground (arith, called-absent t es out.1, out.0)

-- The entry of a type, where no later entry has it, is called as the map says.
call_first :
    (on : Bool) (h : Option ℕ) (v : Option (ℕ × Bool))
    → some (h, on) ≡ entry_as v
    → call_of on h [] ≡ calls_for v
call_first on h none e = cc
call_first true h (some (k, true)) e = ground arith
call_first true h (some (k, false)) e = ground arith
call_first false h (some (k, true)) e = ground arith
call_first false h (some (k, false)) e = ground arith

called_lem :
    (t : ℕ) (v : Option (ℕ × Bool)) (es : List HandlerEntry)
    → DistinctBy (λ (u : ℕ). u) (types es)
    → entry_of t es ≡ entry_as v
    → handlers_called t es ≡ calls_for v
unfolding handlers_called
called_lem t none [] once e = refl
called_lem t (some v) [] once e = cc
called_lem t v (x ∷ es) once e = elim (Bool-cases (x.msg_type == t)) [
  | inl y ↦ rw y (
      rw (called-absent t es (subst (λ u. All (λ k. k ≢ u) (types es)) ((==_iff _ _).0 y) once.0))
        (call_first x.enabled x.handler v (ground arith)))
  | inr n ↦ rw n (called_lem t v es once.1 (ground arith))
]

enabled_lem :
    (t : ℕ) (v : Option (ℕ × Bool)) (es : List HandlerEntry)
    → entry_of t es ≡ entry_as v
    → is_handler_enabled t es ≡ is_on v
unfolding is_handler_enabled
enabled_lem t none [] e = refl
enabled_lem t (some v) [] e = cc
enabled_lem t v (x ∷ es) e = ground (arith, enabled_lem t v es)

-- A step answers as the map does and keeps the table to the map.
abbrev Same : TableReply × List HandlerEntry → TableReply × HandlerMap → Type 0
Same (r, es) (r', s) = (r ≡ r') × Holds es s

module _ {es : List HandlerEntry} {s : HandlerMap} (h : Holds es s) where
  register-found :
      (t k : ℕ) (grown : Bool) (es' : List HandlerEntry) (v : Option (ℕ × Bool))
      → s t ≡ v
      → Replaced t k es (some es')
      → Same (flag true, es') (map_register grown t k v s)
  register-found t k grown es' none e (same, known, now) =
      absurd (known (h.agrees t ∙ ap entry_as e))
  register-found t k grown es' (some v) e (same, known, now) =
      (refl, record { once = rw same h.once; agrees = λ u. ground (arith, now u, h.agrees u) })

  register-absent :
      (t k : ℕ) (grown : Bool) (v : Option (ℕ × Bool))
      → s t ≡ v
      → Replaced t k es none
      → Same
          (flag (registered grown t k es none).0, (registered grown t k es none).1)
          (map_register grown t k v s)
  register-absent t k grown (some v) e (out, none_here) = absurd (ground (arith, h.agrees t))
  register-absent t k false none e (out, none_here) = (refl, h)
  register-absent t k true none e (out, none_here) = (
    refl,
    record {
      once =
          rw (map-append (λ (x : HandlerEntry). x.msg_type) es)
            (DistinctBy-snoc (λ (u : ℕ). u) (types es) t out h.once);
      agrees = λ u. ground (arith, entry-append t u (some k) es none_here, h.agrees u);
    },
  )

  enable-Same :
      (t : ℕ) (on : Bool) (v : Option (ℕ × Bool)) (es' : List HandlerEntry) (c : StateCode)
      → s t ≡ v
      → Switched t on es (c, es')
      → Same (code c, es') (map_enable t on v s)
  enable-Same t on none es' c e (same, answer, now) = (
    ground (arith, h.agrees t),
    record { once = rw same h.once; agrees = λ u. ground (arith, now u, h.agrees u, h.agrees t) },
  )
  enable-Same t on (some (k, was)) es' c e (same, answer, now) = (
    ground (arith, h.agrees t),
    record { once = rw same h.once; agrees = λ u. ground (arith, now u, h.agrees u, h.agrees t) },
  )

  registered-Same :
      (t k : ℕ) (grown : Bool) (r : Option (List HandlerEntry))
      → Replaced t k es r
      → Same
          (flag (registered grown t k es r).0, (registered grown t k es r).1)
          (map_step (register grown t (some k)) s)
  registered-Same t k grown (some es') r = register-found t k grown es' (s t) refl r
  registered-Same t k grown none r = register-absent t k grown (s t) refl r

  register-Same :
      (t k : ℕ) (grown : Bool)
      → Same (table_step (register grown t (some k)) es) (map_step (register grown t (some k)) s)
  unfolding register_handler
  register-Same t k grown =
      registered-Same t k grown (replace_handler t k es) (replace-Replaced t k es)

  step-Same : (o : TableOp) → Same (table_step o es) (map_step o s)
  unfolding register_handler
  step-Same (register grown t none) = (refl, h)
  step-Same (register grown t (some k)) = register-Same t k grown
  step-Same (enable t on) =
      enable-Same t on (s t) (enable_handler t on es).1 (enable_handler t on es).0 refl
        (enable-Switched t on es)
  step-Same (query t) = (ap flag (enabled_lem t (s t) es (h.agrees t)), h)
  step-Same (deliver t) = (ap called (called_lem t (s t) es h.once (h.agrees t)), h)

run-agrees :
    (os : List TableOp) {es : List HandlerEntry} {s : HandlerMap}
    → Holds es s
    → table_run os es ≡ map_run os s
run-agrees [] h = refl
run-agrees (o ∷ os) {es} {s} h =
    let (answer, next) = step-Same h o in ap₂ ◌∷◌ answer (run-agrees os next)

-- However a new module registers handlers, where memory may run out, switches them, asks whether
-- they are enabled and is handed messages, every call answers as on a map that gives each message
-- type one handler at most, on or off: a registration replaces and switches on, and a message
-- calls the handler of its type exactly when that is on, once.
pub table_run-map_run : (os : List TableOp) → table_run os [] ≡ map_run os (λ t. none)
table_run-map_run os = run-agrees os (record { once = tt; agrees = λ t. refl })
