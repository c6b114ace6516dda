-- ===== src/ModuleManager/Tests.antt =====
-- Calls of module_manager.c on small frameworks, and the theorems at such frameworks.
use my_common.Common.{
  ℕ, Bool, true, false, not, ◌&&◌, none, some, List, [], ◌∷◌, map, ◌==◌, leb, ◌≡◌, refl, arith,
}
use my_common.Common.StateCode.{no_error, invalid_param}
use my_common.CommQue.{no_wait}
use my_common.CommQue.Create.{fresh}
use my_common.ModuleManager.{
  Module, Context, new_context, Init, module_exists, register_module, get_module_by_id,
}
use my_common.ModuleManager.Handlers.{
  TableOp, register, enable, query, deliver, flag, code, called, table_run, map_run,
}
use my_common.ModuleManager.Handlers.Refine.{table_run-map_run}
use my_common.ModuleManager.Registry.{
  Registration, register_one, register_all, Answers, register_all-Answers,
}
use my_common.Common.Events.{held_after}
use my_common.CommQue.Create.{Platform}
use my_common.ModuleManager.Lifecycle.{handlers, same, framework_create, register_events}
use my_common.ModuleManager.Balance.{IsBalanced, framework_create-IsBalanced}
use my_common.ModuleManager.Message.{ModuleMsg, shallow, read_msg}
use my_common.ModuleManager.Dispatch.{SlotQueue, sent, send_message, dispatch, process_queue, Act}
use my_common.ModuleManager.Lost.{send_message-process_queue}

abbrev script : List TableOp
script =
    register true 5 (some 50)
    ∷ register false 6 (some 60)
    ∷ register true 6 (some 61)
    ∷ deliver 5
    ∷ enable 5 false
    ∷ query 5
    ∷ deliver 5
    ∷ register false 5 (some 52)
    ∷ deliver 5
    ∷ enable 7 true
    ∷ []

table_run-script :
    table_run script []
    ≡ flag true
      ∷ flag false
      ∷ flag true
      ∷ called (50 ∷ [])
      ∷ code no_error
      ∷ flag false
      ∷ called []
      ∷ flag true
      ∷ called (52 ∷ [])
      ∷ code invalid_param
      ∷ []
table_run-script = table_run-map_run script

table_run-map_run_example : table_run script [] ≡ map_run script (λ t. none)
table_run-map_run_example = table_run-map_run script

-- An `init` that only succeeds or fails.
abbrev init_to : Bool → Init
init_to ok m c = (ok, m, c)

abbrev plain : Bool → Registration
plain ok = record { allocated = true; init = init_to ok; run = 1; destroy = 2 }

abbrev two_modules : Context
two_modules = register_all (plain true ∷ plain false ∷ plain true ∷ []) new_context

register_all-Answers_example :
    ((id : ℕ)
      → module_exists (some two_modules) id ≡ (not (id == 0) && leb id two_modules.module_count))
    × Answers two_modules (register_one (plain true) two_modules)
register_all-Answers_example =
    register_all-Answers (plain true ∷ plain false ∷ plain true ∷ []) (plain true)
      ((λ m c. (refl, refl)), ((λ m c. (refl, refl)), ((λ m c. (refl, refl)), tt)))
      (λ m c. (refl, refl)) (omega arith)

-- An `init` that registers another module: both get the id 1, and the caller is told 2.
abbrev nested : Init
nested m c = (true, m, (register_module true (init_to true) 1 2 c).1)

nested_ids :
    (map (λ (m : Module). m.id) (register_module true nested 3 4 new_context).1.modules
      ≡ 1 ∷ 1 ∷ [])
    × ((register_module true nested 3 4 new_context).0 ≡ 2)
unfolding register_module
nested_ids = (refl, refl)

-- A framework of one module that handles type 0, and a message of type 9 to it.
abbrev running : Context
running = record new_context {
  modules =
      record {
        id = 1;
        run = 1;
        destroy = 2;
        msg_handlers = record { msg_type = 0; handler = some 70; enabled = true } ∷ [];
      }
      ∷ [];
  module_count = 1;
  is_running = true;
  next_module_id = 2;
}

abbrev hello : ModuleMsg
hello = record {
  sender = 1;
  receiver = 1;
  msg_type = 9;
  timestamp = 1000;
  call_id = 3;
  data_len = 4;
  payload = 4096;
  copy_type = shallow;
}

abbrev empty_queue : SlotQueue
empty_queue = record { que = fresh 2 56; slots = λ p i. 0 }

abbrev quiet : Act
quiet k m s = s

send_message-process_queue_example :
    (queued left : SlotQueue) × (got : ModuleMsg) × (send_message no_wait [] 8192
        (λ i. 0)
        hello
        running
        empty_queue
      ≡ sent no_error [] queued)
    × (process_queue 2 quiet running (true, queued)
        ≡ some ((got, dispatch running (record hello { msg_type = 0 })) ∷ [], true, left))
    × (got.sender ≡ 1)
    × (got.receiver ≡ 1)
    × (got.msg_type ≡ 0)
    × (got.data_len ≡ 0)
    × (got.payload ≡ 0)
unfolding get_module_by_id read_msg
send_message-process_queue_example =
    send_message-process_queue no_wait [] 8192 (λ i. 0) quiet hello running empty_queue
      (λ k m s. refl) (record { live = refl; nothing = refl; free = omega arith; level = refl })
      (record {
        runs = refl;
        queue = refl;
        sender = omega arith;
        sender_word = omega arith;
        known = refl;
        near = omega arith;
      })
      refl (omega arith)

hello_calls : dispatch running (record hello { msg_type = 0 }) ≡ (1, 70) ∷ []
unfolding dispatch
hello_calls = refl

abbrev granting : Platform
granting = record {
  control_ok = true;
  mutex_ok = true;
  cond_full_ok = true;
  cond_empty_ok = true;
  buffer_ok = λ n. true;
}

-- An `init` that registers a handler and succeeds or fails.
abbrev init_with_handler : Bool → Init
init_with_handler ok m c = (
  ok,
  record m { msg_handlers = record { msg_type = 5; handler = some 50; enabled = true } ∷ [] },
  c,
)

abbrev busy : Registration
busy = record { allocated = true; init = init_with_handler true; run = 1; destroy = 2 }

framework_create-IsBalanced_example :
    IsBalanced (busy ∷ plain false ∷ []) (framework_create true true granting 8)
framework_create-IsBalanced_example =
    framework_create-IsBalanced true true granting 8 (busy ∷ plain false ∷ [])
      ((λ m c. (refl, refl, λ e. cc)), ((λ m c. (refl, refl, λ e. refl)), tt))

-- An `init` that fails behind a registration of a handler leaves the table.
failing_init_leaks :
    held_after same
      (register_events
        (record { allocated = true; init = init_with_handler false; run = 1; destroy = 2 })
        new_context)
      []
    ≡ some (handlers 1 ∷ [])
unfolding register_events
failing_init_leaks = refl
