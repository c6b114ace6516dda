-- ===== src/ModuleManager/Lifecycle.antt =====
-- `framework_create`, `framework_destroy` and the main loop of common/module_manager.c, with what the
-- calls acquire and release, down to the parts of the message queue.
use my_common.Common.{
  ℕ, zero, suc, Bool, true, false, Option, none, some, List, [], ◌∷◌, ◌++◌, map, ◌==◌,
  if◌then◌else◌,
}
use my_common.Common.Events.{Event, acquire, release}
use my_common.CommQue.Create.{Platform}
use my_common.MsgQueue.{MsgQueue}
use my_common.MsgQueue.Create
use my_common.ModuleManager.{HandlerEntry, Module, Context, new_context, stop_main_loop}
use my_common.ModuleManager.Registry.{Registration}

-- The context, the parts of the queue, and each module with its table of handlers, by its id.
pub data Resource : Type 0 where
  context : Resource
  queue : Create.Resource → Resource
  object handlers : ℕ → Resource

abbrev pub same : Resource → Resource → Bool
same context context = true
same (queue a) (queue b) = Create.same a b
same (object a) (object b) = a == b
same (handlers a) (handlers b) = a == b
same _ _ = false

abbrev pub on_queue : Event Create.Resource → Event Resource
on_queue (acquire r) = acquire (queue r)
on_queue (release r) = release (queue r)

abbrev pub with_queue :
    Option MsgQueue × List (Event Create.Resource) → Option Context × List (Event Resource)
with_queue (none, es) = (none, acquire context ∷ (map on_queue es ++ (release context ∷ [])))
with_queue (some q, es) = (some new_context, acquire context ∷ map on_queue es)

-- `framework_create`; `context_ok` and `handle_ok` say whether there is memory for the context and
-- for the handle of the queue.
unfoldable pub framework_create :
    Bool → Bool → Platform → ℕ → Option Context × List (Event Resource)
unfolding Create.create
framework_create context_ok handle_ok p max_msg_count =
    if context_ok then with_queue (Create.create handle_ok p max_msg_count) else (none, [])

-- The table of a module, where it has registered a handler.
abbrev pub table_of : ℕ → List HandlerEntry → List Resource
table_of id [] = []
table_of id (e ∷ es) = handlers id ∷ []

abbrev pub acquired : List Resource → List (Event Resource)
acquired [] = []
acquired (r ∷ rs) = acquire r ∷ acquired rs

abbrev pub released : List Resource → List (Event Resource)
released [] = []
released (r ∷ rs) = release r ∷ released rs

-- What `framework_register_module` acquires and releases: `init` may make the table.
abbrev pub init_events : ℕ → Bool × Module × Context → List (Event Resource)
init_events id (ok, m, c) =
    acquire (object id)
    ∷ (acquired (table_of id m.msg_handlers) ++ (if ok then [] else release (object id) ∷ []))

unfoldable pub register_events : Registration → Context → List (Event Resource)
register_events r c =
    if r.allocated
    then init_events c.next_module_id (
        r.init
          (record { id = c.next_module_id; run = r.run; destroy = r.destroy; msg_handlers = [] }) c)
    else []

-- `framework_destroy`: what it releases, and the modules whose `destroy` it calls, in order.
abbrev pub module_resources : List Module → List Resource
module_resources [] = []
module_resources (m ∷ ms) = table_of m.id m.msg_handlers ++ (object m.id ∷ module_resources ms)

unfoldable pub framework_destroy : Context → List (Event Resource) × List ℕ × Context
unfolding Create.destroy_events stop_main_loop
framework_destroy c = (
  released (module_resources c.modules)
      ++ (map on_queue Create.destroy_events ++ (release context ∷ [])),
  map (λ (m : Module). m.id) c.modules,
  stop_main_loop c,
)

-- The pass over the modules in `framework_start_main_loop`: `act` is what a module's `run` does.
unfoldable pub run_modules : (Module → Context → Context) → List Module → Context → Context
run_modules act [] c = c
run_modules act (m ∷ ms) c =
    let rest = run_modules act ms (act m c) in if c.is_running then rest else c

-- Its loop; `process` is `process_framework_message_queue`. Behind `fuel` rounds it gives none.
unfoldable pub main_loop :
    ℕ → (Context → Context) → (Module → Context → Context) → Context → Option Context
unfolding run_modules
main_loop zero process act c = none
main_loop (suc fuel) process act c =
    let after = process c in
    let rest = main_loop fuel process act (run_modules act after.modules after) in
    if c.is_running then rest else some c

unfoldable pub start_main_loop :
    ℕ → (Context → Context) → (Module → Context → Context) → Context → Option (Bool × Context)
unfolding main_loop
start_main_loop fuel process act c =
    if c.is_running
    then some (false, c)
    else elim (main_loop fuel process act (record c { is_running = true })) [
      | none ↦ none
      | some c' ↦ some (true, c')
    ]
