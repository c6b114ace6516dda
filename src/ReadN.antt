-- ===== src/ReadN.antt =====
-- common/readn.c: reading and writing a whole buffer through `read` and `write`, whose results come
-- one by one, as the kernel gives them.
pub mod Whole
mod Tests
use my_common.Common.{
  ℕ, zero, suc, ◌+◌, ◌-◌, Option, none, some, List, [], ◌∷◌, ◌++◌, length, take, ◌==◌,
  if◌then◌else◌,
}

-- A `read`: the bytes that it stored, -1 with EINTR, or -1 with another error.
pub data ReadResult : Type 0 where
  bytes : List ℕ → ReadResult
  read_interrupted read_failed : ReadResult

-- A `write`: the number of bytes that it took, or -1.
pub data WriteResult : Type 0 where
  accepted : ℕ → WriteResult
  write_interrupted write_failed : WriteResult

-- What the functions return, with the bytes read into the buffer or written; or the call still runs
-- when the recorded results are used up.
pub data Transfer : Type 0 where
  transferred : ℕ → List ℕ → Transfer
  transfer_error : Transfer
  running : Transfer

-- The loop of `sys_readn` with `nleft` and the bytes that are in the buffer.
unfoldable pub read_loop : ℕ → ℕ → List ℕ → List ReadResult → Transfer
read_loop n left buf [] = if left == 0 then transferred (n - left) buf else running
read_loop n left buf (bytes [] ∷ rs) = transferred (n - left) buf
read_loop n left buf (bytes (b ∷ bs) ∷ rs) =
    let rest = read_loop n (left - length (b ∷ bs)) (buf ++ (b ∷ bs)) rs in
    if left == 0 then transferred (n - left) buf else rest
read_loop n left buf (read_interrupted ∷ rs) =
    let rest = read_loop n left buf rs in if left == 0 then transferred (n - left) buf else rest
read_loop n left buf (read_failed ∷ rs) =
    if left == 0 then transferred (n - left) buf else transfer_error

unfoldable pub sys_readn : ℕ → List ReadResult → Transfer
unfolding read_loop
sys_readn n rs = read_loop n n [] rs

abbrev pub drop : ℕ → List ℕ → List ℕ
drop zero xs = xs
drop (suc k) [] = []
drop (suc k) (x ∷ xs) = drop k xs

-- The loop of `sys_writen` with the bytes that are left and those that are written.
unfoldable pub write_loop : ℕ → List ℕ → List ℕ → List WriteResult → Transfer
write_loop n left out [] = if length left == 0 then transferred n out else running
write_loop n left out (accepted k ∷ rs) =
    let rest = write_loop n (drop k left) (out ++ take k left) rs in
    if length left == 0 then transferred n out else if k == 0 then transfer_error else rest
write_loop n left out (write_interrupted ∷ rs) =
    let rest = write_loop n left out rs in if length left == 0 then transferred n out else rest
write_loop n left out (write_failed ∷ rs) =
    if length left == 0 then transferred n out else transfer_error

unfoldable pub sys_writen : List ℕ → List WriteResult → Transfer
unfolding write_loop
sys_writen content rs = write_loop (length content) content [] rs
