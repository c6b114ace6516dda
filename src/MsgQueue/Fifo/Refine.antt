-- ===== src/MsgQueue/Fifo/Refine.antt =====
-- Any course of calls on the message queue of msgqueue.c returns what the first-in first-out queue
-- returns.
use my_common.Common.{ℕ, ◌*◌, ◌^◌, ◌<◌, ◌≤◌, ◌≡◌, refl, ap₂, List, [], ◌∷◌}
use my_common.CommQue.Create.{fresh}
use my_common.CommQue.Protocol.{initial-IsValid}
use my_common.MsgQueue.{Msg}
use my_common.MsgQueue.Fifo.{
  Op, post, fetch, done, Fifo, fifo_step, fifo_run, Client, client_step, client_run, Represents,
}
use my_common.MsgQueue.Fifo.Post.{post_refines}
use my_common.MsgQueue.Fifo.Fetch.{fetch_refines, done_refines}

pub step_refines :
    (op : Op) {c : Client} {o r : ℕ} {s : Fifo}
    → Represents c o r s
    → (o' r' : ℕ) × ((client_step op c).0 ≡ (fifo_step op s).0)
      × Represents (client_step op c).1 o' r' (fifo_step op s).1
step_refines (post m) {o} {r} rep = let (e, rep') = post_refines rep m in (o, r, e, rep')
step_refines fetch {o} rep = let (r', e, rep') = fetch_refines rep in (o, r', e, rep')
step_refines done rep = done_refines rep

-- However one thread sends, receives and releases without waiting, releasing in the order in
-- which it received, every call on the message queue returns what the bounded first-in first-out
-- queue of messages returns: STATE_CODE_TIME_OUT exactly when pending and unreleased messages
-- fill the pool, and otherwise each message once, in order, as msg_queue_send stored it.
pub client_run_refines :
    (ops : List Op) {c : Client} {o r : ℕ} {s : Fifo}
    → Represents c o r s
    → client_run ops c ≡ fifo_run ops s
unfolding client_run fifo_run
client_run_refines [] rep = refl
client_run_refines (op ∷ ops) rep =
    let (o', r', e, rep') = step_refines op rep in ap₂ ◌∷◌ e (client_run_refines ops rep')

-- The queue of `msg_queue_create`, whatever its slots hold, represents the empty queue of messages.
pub fresh-Represents :
    (count size : ℕ) (pool : ℕ → Msg)
    → 0 < count
    → count ≤ 2 ^ 31
    → 0 < size
    → count * size < 2 ^ 64
    → Represents
        (record { queue = record { que = fresh count size; pool = pool }; got = [] })
        0
        0
        (record { held = []; pending = []; room = count })
fresh-Represents count size pool h k sized fits = record {
  valid = initial-IsValid count size h k;
  live = refl;
  sized = sized;
  fits = fits;
  room_at = refl;
  got_at = refl;
  held_at = refl;
  pending_at = refl;
}
