-- ===== src/ModuleManager/Handlers.antt =====
-- The table of message handlers of module_manager.c against a map from message types.
pub mod Refine
use my_common.Common.{
  ℕ, Bool, true, false, ◌||◌, Option, none, some, List, [], ◌∷◌, ◌++◌, map, map-append, ◌==◌,
  if◌then◌else◌, Bool-cases, ==_iff, ◌≡◌, ◌≢◌, refl, ap, ap₂, ◌∙◌, subst, inl, inr, arith, All,
}
use my_common.Common.Distinct.{DistinctBy, DistinctBy-snoc}
use my_common.Common.StateCode.{StateCode, no_error, invalid_param}
use my_common.ModuleManager.{
  HandlerEntry, replace_handler, register_handler, enable_handler, is_handler_enabled,
  handlers_called, call_of, registered,
}

-- The calls on one module's table: a registration, where `realloc` may fail, a switch, a query, and
-- the delivery of a message of a type.
pub data TableOp : Type 0 where
  register : Bool → ℕ → Option ℕ → TableOp
  enable : ℕ → Bool → TableOp
  query : ℕ → TableOp
  deliver : ℕ → TableOp

pub data TableReply : Type 0 where
  flag : Bool → TableReply
  code : StateCode → TableReply
  called : List ℕ → TableReply

abbrev pub table_step : TableOp → List HandlerEntry → TableReply × List HandlerEntry
table_step (register grown t h) es = let (r, es') = register_handler grown t h es in (flag r, es')
table_step (enable t on) es = let (r, es') = enable_handler t on es in (code r, es')
table_step (query t) es = (flag (is_handler_enabled t es), es)
table_step (deliver t) es = (called (handlers_called t es), es)

abbrev pub table_run : List TableOp → List HandlerEntry → List TableReply
table_run [] es = []
table_run (o ∷ os) es = let (r, es') = table_step o es in r ∷ table_run os es'

-- The specification: each message type has one handler at most, which is on or off.
abbrev pub HandlerMap : Type 0
HandlerMap = ℕ → Option (ℕ × Bool)

abbrev pub with_handler : ℕ → ℕ × Bool → HandlerMap → HandlerMap
with_handler t v s u = if t == u then some v else s u

abbrev pub map_register : Bool → ℕ → ℕ → Option (ℕ × Bool) → HandlerMap → TableReply × HandlerMap
map_register grown t h (some v) s = (flag true, with_handler t (h, true) s)
map_register true t h none s = (flag true, with_handler t (h, true) s)
map_register false t h none s = (flag false, s)

abbrev pub map_enable : ℕ → Bool → Option (ℕ × Bool) → HandlerMap → TableReply × HandlerMap
map_enable t on none s = (code invalid_param, s)
map_enable t on (some (h, was)) s = (code no_error, with_handler t (h, on) s)

abbrev pub is_on : Option (ℕ × Bool) → Bool
is_on none = false
is_on (some (h, on)) = on

abbrev pub calls_for : Option (ℕ × Bool) → List ℕ
calls_for none = []
calls_for (some (h, true)) = h ∷ []
calls_for (some (h, false)) = []

abbrev pub map_step : TableOp → HandlerMap → TableReply × HandlerMap
map_step (register grown t none) s = (flag false, s)
map_step (register grown t (some h)) s = map_register grown t h (s t) s
map_step (enable t on) s = map_enable t on (s t) s
map_step (query t) s = (flag (is_on (s t)), s)
map_step (deliver t) s = (called (calls_for (s t)), s)

abbrev pub map_run : List TableOp → HandlerMap → List TableReply
map_run [] s = []
map_run (o ∷ os) s = let (r, s') = map_step o s in r ∷ map_run os s'
