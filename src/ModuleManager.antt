-- ===== src/ModuleManager.antt =====
-- common/module_manager.c and common/module_manager.h: modules with their tables of message
-- handlers, registered in a framework that hands messages to them.
-- The null-handle guards are written out where the call has one; elsewhere the object is there.
pub mod Handlers
pub mod Registry
pub mod Message
pub mod Delivery
pub mod Dispatch
pub mod Round
pub mod Lost
pub mod Lifecycle
pub mod Balance
mod Tests
use my_common.Common.{
  ℕ, ◌+◌, Bool, true, false, ◌||◌, Option, none, some, List, [], ◌∷◌, ◌++◌, ◌==◌, if◌then◌else◌,
}
use my_common.Common.StateCode.{StateCode, no_error, invalid_param, invalid_handle}
use my_common.Common.Words.{add32}

-- `struct message_handler_entry`; a handler is the function pointer's number, and NULL is `none`.
pub record HandlerEntry : Type 0 where
  pub msg_type : ℕ
  pub handler : Option ℕ
  pub enabled : Bool

-- `struct module`, without the pointers to its framework and its private data.
pub record Module : Type 0 where
  pub id : ℕ
  pub run : ℕ
  pub destroy : ℕ
  pub msg_handlers : List HandlerEntry

-- `struct framework_context`; of the message queue only whether there is one.
pub record Context : Type 0 where
  pub modules : List Module
  pub module_count : ℕ
  pub has_queue : Bool
  pub is_running : Bool
  pub next_module_id : ℕ

-- What `framework_create` leaves when its two allocations succeed.
abbrev pub new_context : Context
new_context = record {
  modules = [];
  module_count = 0;
  has_queue = true;
  is_running = false;
  next_module_id = 1;
}

unfoldable pub find_module : ℕ → List Module → Option Module
find_module id [] = none
find_module id (m ∷ ms) = if m.id == id then some m else find_module id ms

unfoldable pub get_module_by_id : Context → ℕ → Option Module
unfolding find_module
get_module_by_id c id = if id == 0 then none else find_module id c.modules

abbrev pub is_found : Option Module → Bool
is_found none = false
is_found (some m) = true

unfoldable pub module_exists : Option Context → ℕ → Bool
unfolding get_module_by_id
module_exists none id = false
module_exists (some c) id = is_found (get_module_by_id c id)

unfoldable pub get_module_count : Option Context → ℕ
get_module_count none = 0
get_module_count (some c) = c.module_count

-- The module's `init`: whether it succeeds, and what it leaves of the module and of the context.
abbrev pub Init : Type 0
Init = Module → Context → Bool × Module × Context

-- The end of `framework_register_module`, behind a successful `init`.
unfoldable pub add_module : Module → Context → ℕ × Context
add_module m c = (
  c.next_module_id,
  record c {
    modules = m ∷ c.modules;
    module_count = add32 c.module_count 1;
    next_module_id = add32 c.next_module_id 1;
  },
)

-- `framework_register_module` with its three functions given: `allocated` says whether there is
-- memory for the module.
unfoldable pub register_module : Bool → Init → ℕ → ℕ → Context → ℕ × Context
unfolding add_module
register_module allocated init run destroy c =
    if allocated
    then (let m : Module = record {
      id = c.next_module_id;
      run = run;
      destroy = destroy;
      msg_handlers = [];
    } in
        let (ok, m', c') = init m c in if ok then add_module m' c' else (0, c'))
    else (0, c)

-- `framework_stop_main_loop`.
unfoldable pub stop_main_loop : Context → Context
stop_main_loop c = record c { is_running = false }

-- The loop of `module_register_handler` over the table: `none` where no entry has the type.
unfoldable pub replace_handler : ℕ → ℕ → List HandlerEntry → Option (List HandlerEntry)
replace_handler t h [] = none
replace_handler t h (e ∷ es) =
    let rest = replace_handler t h es in
    if e.msg_type == t
    then some (record e { handler = some h; enabled = true } ∷ es)
    else elim rest [ none ↦ none | some es' ↦ some (e ∷ es') ]

-- What follows that loop: an entry of the type is replaced, or a new one is appended, where
-- `realloc` gives the longer table.
abbrev pub registered :
    Bool → ℕ → ℕ → List HandlerEntry → Option (List HandlerEntry) → Bool × List HandlerEntry
registered grown t h es (some es') = (true, es')
registered true t h es none =
    (true, es ++ (record { msg_type = t; handler = some h; enabled = true } ∷ []))
registered false t h es none = (false, es)

-- `module_register_handler` on a module.
unfoldable pub register_handler : Bool → ℕ → Option ℕ → List HandlerEntry → Bool × List HandlerEntry
unfolding replace_handler
register_handler grown t none es = (false, es)
register_handler grown t (some h) es = registered grown t h es (replace_handler t h es)

unfoldable pub enable_handler : ℕ → Bool → List HandlerEntry → StateCode × List HandlerEntry
enable_handler t on [] = (invalid_param, [])
enable_handler t on (e ∷ es) =
    if e.msg_type == t
    then (no_error, record e { enabled = on } ∷ es)
    else (let (code, es') = enable_handler t on es in (code, e ∷ es'))

unfoldable pub is_handler_enabled : ℕ → List HandlerEntry → Bool
is_handler_enabled t [] = false
is_handler_enabled t (e ∷ es) = if e.msg_type == t then e.enabled else is_handler_enabled t es

-- The call of an entry that has the message's type, before the calls of the later entries.
abbrev pub call_of : Bool → Option ℕ → List ℕ → List ℕ
call_of true (some h) rest = h ∷ rest
call_of true none rest = rest
call_of false h rest = rest

-- The loop over one module's table for a message of type `t`: the handlers that it calls, in order.
unfoldable pub handlers_called : ℕ → List HandlerEntry → List ℕ
handlers_called t [] = []
handlers_called t (e ∷ es) =
    let rest = handlers_called t es in
    if e.msg_type == t then call_of e.enabled e.handler rest else rest
