-- ===== src/RequestQueue/Clock.antt =====
-- The time limit of common/request_que.c: `OSAL_GetCpuStartInMsec` of common/osal.c gives the
-- milliseconds since the start in 32 bits.
use my_common.Common.{ℕ, ◌+◌, ◌-◌, ◌%◌, ◌/◌, ◌^◌, ◌≡◌, ◌<◌, ◌≤◌, true, ◌&&◌, ◌==◌, arith, leb}
use my_common.Common.Words.{u32_mod}
use my_common.RequestQueue.{AsyncRequest, positive, expired}

unfoldable pub cpu_start_in_msec : ℕ → ℕ
cpu_start_in_msec ms = ms % u32_mod

-- Less than 2^32 milliseconds after a submission with a positive limit, the request counts as
-- over exactly when the limit has passed and the 32 bits of the clock have not wrapped in
-- between.
pub expired-elapsed :
    (t0 t1 : ℕ) (r : AsyncRequest)
    → r.submit_time ≡ cpu_start_in_msec t0
    → positive r.timeout_ms ≡ true
    → t0 ≤ t1
    → t1 < t0 + 2 ^ 32
    → expired (cpu_start_in_msec t1) r
      ≡ ((t0 / 2 ^ 32 == t1 / 2 ^ 32) && leb r.timeout_ms (t1 - t0))
unfolding cpu_start_in_msec
expired-elapsed t0 t1 r es ep h l = ground (arith, es, ep, h, l)
