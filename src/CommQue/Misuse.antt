-- ===== src/CommQue/Misuse.antt =====
-- What comm_que.c does not guard against: a clear while clients hold slots.
use my_common.Common.{ℕ, ◌<◌, ◌≡◌, false, some, arith}
use my_common.CommQue.{
  put_empty, put_full, take_empty, take_full, waits_empty, waits_full, clear, slot_ptr,
}
use my_common.CommQue.Slots.{World, IsValid}

-- After CommQue_Clear on a valid live queue, a CommQue_PutFull of a slot got before it makes the
-- next GetFull and the next GetEmpty both return at once with the same slot, and a
-- CommQue_PutEmpty of such a slot counts more empty slots than there are.
pub clear-shares :
    (w : World) (p : ℕ)
    → IsValid w
    → w.que.is_destroyed ≡ false
    → let cleared = (clear w.que).1 in
      let put = (put_full (some p) cleared).2 in
      (waits_full put ≡ false)
      × (waits_empty put ≡ false)
      × ((take_full put).0 ≡ some (slot_ptr w.que 0))
      × ((take_empty put).0 ≡ some (slot_ptr w.que 0))
      × (cleared.max_count < (put_empty (some p) cleared).2.empty_count)
unfolding clear put_empty put_full take_full take_empty waits_full waits_empty
clear-shares w p v nd = ground arith
