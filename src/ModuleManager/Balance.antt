-- ===== src/ModuleManager/Balance.antt =====
-- That a framework releases all that it and its modules acquired.
use my_common.Common.{
  ℕ, Bool, true, false, Option, none, some, List, [], ◌∷◌, ◌++◌, map, if◌then◌else◌, Bool-cases,
  inl, inr, All, ◌≡◌, refl, ◌∙◌, arith,
}
use my_common.Common.Events.{Event, acquire, release, held_after}
use my_common.CommQue.Create.{Platform}
use my_common.CommQue.Create as RingParts
use my_common.MsgQueue.Create
use my_common.ModuleManager.{
  HandlerEntry, Module, Context, new_context, add_module, register_module,
}
use my_common.ModuleManager.Registry.{Registration, register_one}
use my_common.ModuleManager.Lifecycle.{
  Resource, context, queue, object, handlers, same, framework_create, table_of, acquired, released,
  init_events, register_events, module_resources, framework_destroy,
}

-- What a framework holds, as long as its modules keep their tables.
abbrev pub owned : Context → List Resource
owned c = module_resources c.modules ++ (map queue Create.owned ++ (context ∷ []))

-- A registration whose `init` keeps the module's id and leaves the framework alone, and whose failing
-- `init` has registered no handler.
abbrev pub IsTidy : Registration → Type 0
IsTidy r =
    (m : Module) (c : Context)
    → ((r.init m c).1.id ≡ m.id)
      × ((r.init m c).2 ≡ c)
      × ((r.init m c).0 ≡ false → (r.init m c).1.msg_handlers ≡ m.msg_handlers)

abbrev pub course_events : List Registration → Context → List (Event Resource)
course_events [] c = (framework_destroy c).0
course_events (r ∷ rs) c = register_events r c ++ course_events rs (register_one r c).1

same_self : (r : Resource) → same r r ≡ true
same_self context = refl
same_self (queue Create.handle) = refl
same_self (queue (Create.ring RingParts.control)) = refl
same_self (queue (Create.ring RingParts.mutex)) = refl
same_self (queue (Create.ring RingParts.cond_full)) = refl
same_self (queue (Create.ring RingParts.cond_empty)) = refl
same_self (queue (Create.ring RingParts.buffer)) = refl
same_self (object n) = ground arith
same_self (handlers n) = ground arith

held-released :
    (rs : List Resource) (fs : List (Event Resource)) (rest : List Resource)
    → held_after same (released rs ++ fs) (rs ++ rest) ≡ held_after same fs rest
held-released [] fs rest = refl
held-released (r ∷ rs) fs rest = ground (arith, same_self r, held-released rs fs rest)

destroy-releases : (c : Context) → held_after same (framework_destroy c).0 (owned c) ≡ some []
unfolding framework_destroy
destroy-releases c =
    held-released (module_resources c.modules) _ (map queue Create.owned ++ (context ∷ []))

-- A module that comes with its table goes before the others.
joins :
    (id : ℕ) (es : List HandlerEntry) (fs : List (Event Resource)) (others rest : List Resource)
    → held_after same
        ((acquire (object id) ∷ (acquired (table_of id es) ++ [])) ++ fs)
        (others ++ rest)
      ≡ held_after same fs ((table_of id es ++ (object id ∷ others)) ++ rest)
joins id [] fs others rest = refl
joins id (e ∷ es) fs others rest = refl

-- A module whose `init` fails leaves nothing, if it has no table.
leaves :
    (id : ℕ) (es : List HandlerEntry) (fs : List (Event Resource)) (held : List Resource)
    → es ≡ []
    → held_after same
        ((acquire (object id) ∷ (acquired (table_of id es) ++ (release (object id) ∷ []))) ++ fs)
        held
      ≡ held_after same fs held
leaves id [] fs held none_made = ground (arith, same_self (object id))
leaves id (e ∷ es) fs held none_made = cc

init-held :
    (ok : Bool) (m : Module) (c c' : Context) (fs : List (Event Resource))
    → m.id ≡ c.next_module_id
    → c' ≡ c
    → (ok ≡ false → m.msg_handlers ≡ [])
    → held_after same (init_events c.next_module_id (ok, m, c') ++ fs) (owned c)
      ≡ held_after same fs (owned (if ok then add_module m c' else (0, c')).1)
unfolding add_module
init-held true m c c' fs at left tidy =
    rw (left, at)
      (joins c.next_module_id m.msg_handlers fs (module_resources c.modules)
        (map queue Create.owned ++ (context ∷ [])))
init-held false m c c' fs at left tidy =
    rw left (leaves c.next_module_id m.msg_handlers fs (owned c) (tidy refl))

register-held :
    (r : Registration) (c : Context) (fs : List (Event Resource))
    → IsTidy r
    → held_after same (register_events r c ++ fs) (owned c)
      ≡ held_after same fs (owned (register_one r c).1)
unfolding register_events register_module
register-held r c fs tidy =
    let m : Module = record {
      id = c.next_module_id;
      run = r.run;
      destroy = r.destroy;
      msg_handlers = [];
    } in
    let (at, left, untouched) = tidy m c in
    elim (Bool-cases r.allocated) [
      | inl y ↦ rw y (init-held (r.init m c).0 (r.init m c).1 c (r.init m c).2 fs at left untouched)
      | inr n ↦ rw n refl
    ]

course-releases :
    (rs : List Registration) (c : Context)
    → All IsTidy rs
    → held_after same (course_events rs c) (owned c) ≡ some []
course-releases [] c tidy = destroy-releases c
course-releases (r ∷ rs) c tidy =
    register-held r c (course_events rs (register_one r c).1) tidy.0
    ∙ course-releases rs (register_one r c).1 tidy.1

-- What a call of `framework_create` leads to: nothing is held when it fails, nor behind a course of
-- registrations and the destruction of the framework that it gives.
abbrev pub IsBalanced : List Registration → Option Context × List (Event Resource) → Type 0
IsBalanced rs (none, es) = held_after same es [] ≡ some []
IsBalanced rs (some c, es) = held_after same (es ++ course_events rs c) [] ≡ some []

-- Whatever requests the platform refuses, framework_create, with the msg_queue_create and
-- CommQue_Create that it calls, releases all that it acquired before it returns NULL; and if it
-- returns a framework, then after any course of registrations, whose init functions keep the id,
-- leave the framework alone and register no handler when they fail, framework_destroy releases
-- all that is held, each part once.
pub framework_create-IsBalanced :
    (context_ok handle_ok : Bool) (p : Platform) (max_msg_count : ℕ) (rs : List Registration)
    → All IsTidy rs
    → IsBalanced rs (framework_create context_ok handle_ok p max_msg_count)
unfolding framework_create
framework_create-IsBalanced context_ok handle_ok p max_msg_count rs tidy =
    ground (arith, course-releases rs new_context tidy)
