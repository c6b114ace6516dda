-- ===== src/ModuleManager/Registry.antt =====
-- The ids of the modules that `framework_register_module` adds, and the search for a module by id.
use my_common.Common.{
  ℕ, zero, suc, ◌+◌, ◌-◌, ◌^◌, ◌<◌, ◌≤◌, Bool, true, false, not, ◌&&◌, some, List, [], ◌∷◌, map,
  length, ◌==◌, leb, if◌then◌else◌, Bool-cases, ◌≡◌, ◌≢◌, refl, ap, ap₂, inl, inr, arith, All,
}
use my_common.Common.Words.{add32}
use my_common.ModuleManager.{
  Module, Context, new_context, find_module, get_module_by_id, module_exists, Init, add_module,
  register_module, is_found,
}

-- The arguments of one registration, and whether there is memory for the module.
pub record Registration : Type 0 where
  pub allocated : Bool
  pub init : Init
  pub run : ℕ
  pub destroy : ℕ

-- The `init` of a registration keeps the module's id and leaves the framework alone.
abbrev pub IsPlain : Registration → Type 0
IsPlain r = (m : Module) (c : Context) → ((r.init m c).1.id ≡ m.id) × ((r.init m c).2 ≡ c)

abbrev pub register_one : Registration → Context → ℕ × Context
register_one r c = register_module r.allocated r.init r.run r.destroy c

abbrev pub register_all : List Registration → Context → Context
register_all [] c = c
register_all (r ∷ rs) c = register_all rs (register_one r c).1

abbrev pub countdown : ℕ → List ℕ
countdown zero = []
countdown (suc n) = suc n ∷ countdown n

abbrev pub module_ids : List Module → List ℕ
module_ids = map (λ (m : Module). m.id)

-- The modules have the ids from their number down to 1, each once, newest first.
pub record IsRegistry (c : Context) : Type 0 where
  pub ids : module_ids c.modules ≡ countdown c.module_count
  pub next_id : c.next_module_id ≡ c.module_count + 1

-- What a registration with plain functions gives: no id and the framework as it was, or the next
-- id, by which the new module is found, and by every other id what was found before.
pub data Answers (c : Context) (answer : ℕ × Context) : Type 0 where
  refused : answer ≡ (0, c) → Answers c answer
  added :
      (m : Module)
      → answer.0 ≡ c.module_count + 1
      → IsRegistry answer.1
      → answer.1.module_count ≡ c.module_count + 1
      → ((id : ℕ)
          → get_module_by_id answer.1 id
            ≡ (if id == answer.0 then some m else get_module_by_id c id))
      → Answers c answer

module _ {c : Context} (v : IsRegistry c) (small : c.module_count < 2 ^ 32 - 2) where
  add_module-Answers : (m : Module) → m.id ≡ c.next_module_id → Answers c (add_module m c)
  unfolding add_module get_module_by_id find_module
  add_module-Answers m same =
      let more : add32 c.module_count 1 ≡ suc c.module_count = omega arith in
      added m v.next_id
        (record {
          ids = rw more (ap₂ ◌∷◌ (omega (arith, v.next_id)) v.ids);
          next_id = ground (arith, v.next_id);
        })
        (omega arith) (λ id. ground (arith, v.next_id))

  init-Answers :
      (ok : Bool) (m : Module) (c' : Context)
      → m.id ≡ c.next_module_id
      → c' ≡ c
      → Answers c (if ok then add_module m c' else (0, c'))
  init-Answers true m c' same left = rw left (add_module-Answers m same)
  init-Answers false m c' same left = refused (ap (λ (x : Context). (0, x)) left)

  pub register_one-Answers : (r : Registration) → IsPlain r → Answers c (register_one r c)
  unfolding register_module
  register_one-Answers r plain =
      let m : Module = record {
        id = c.next_module_id;
        run = r.run;
        destroy = r.destroy;
        msg_handlers = [];
      } in
      elim (Bool-cases r.allocated) [
        | inl y ↦
            rw y (
              init-Answers (r.init m c).0 (r.init m c).1 (r.init m c).2 (plain m c).0 (plain m c).1)
        | inr n ↦ rw n (refused refl)
      ]

-- A registration behind which the ids are as they should be.
answer-IsRegistry :
    {c : Context} {a : ℕ × Context}
    → IsRegistry c
    → Answers c a
    → IsRegistry a.1 × (a.1.module_count ≤ c.module_count + 1)
answer-IsRegistry v (refused e) = rw e (v, omega arith)
answer-IsRegistry v (added m id next count others) = (next, omega arith)

register_all-IsRegistry :
    (rs : List Registration) {c : Context}
    → All IsPlain rs
    → IsRegistry c
    → c.module_count + length rs < 2 ^ 32 - 1
    → IsRegistry (register_all rs c)
      × ((register_all rs c).module_count ≤ c.module_count + length rs)
register_all-IsRegistry [] plain v room = (v, omega arith)
register_all-IsRegistry (r ∷ rs) plain v room =
    let (v', count) = answer-IsRegistry v (register_one-Answers v (omega arith) r plain.0) in
    let (all, few) = register_all-IsRegistry rs plain.1 v' (omega arith) in (all, omega arith)

-- The search finds the ids of the list.
find_module-countdown :
    (id : ℕ) (ms : List Module) (n : ℕ)
    → module_ids ms ≡ countdown n
    → id ≢ 0
    → is_found (find_module id ms) ≡ leb id n
unfolding find_module
find_module-countdown id [] zero e ne = ground arith
find_module-countdown id [] (suc n) e ne = cc
find_module-countdown id (m ∷ ms) zero e ne = cc
find_module-countdown id (m ∷ ms) (suc n) e ne = ground (arith, find_module-countdown id ms n)

exists_lem :
    {c : Context}
    → IsRegistry c
    → (id : ℕ) → module_exists (some c) id ≡ (not (id == 0) && leb id c.module_count)
unfolding module_exists get_module_by_id
exists_lem {c} v id = elim (Bool-cases (id == 0)) [
  | inl y ↦ rw y refl
  | inr n ↦ rw n (find_module-countdown id c.modules c.module_count v.ids (ground arith))
]

-- Behind any course of fewer than 2^32 - 2 registrations whose init functions keep the module's
-- id and leave the framework alone, a module exists for exactly the ids from 1 to the number of
-- modules, and one more such registration either answers 0 and changes nothing, or answers the
-- next id, by which then a module is found, while every other id finds what it found before.
pub register_all-Answers :
    (rs : List Registration) (r : Registration)
    → All IsPlain rs
    → IsPlain r
    → length rs < 2 ^ 32 - 2
    → ((id : ℕ)
        → module_exists (some (register_all rs new_context)) id
          ≡ (not (id == 0) && leb id (register_all rs new_context).module_count))
      × Answers (register_all rs new_context) (register_one r (register_all rs new_context))
register_all-Answers rs r plain plain_r room =
    let all =
      register_all-IsRegistry rs plain (record { ids = refl; next_id = refl }) (omega arith) in
    let below : (register_all rs new_context).module_count < 2 ^ 32 - 2 = omega (arith, all.1) in
    (λ id. exists_lem all.0 id, register_one-Answers all.0 below r plain_r)
