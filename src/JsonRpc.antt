-- ===== src/JsonRpc.antt =====
-- common/jsonrpc: requests and replies over a socket, each as its length in four bytes and its text.
-- Here are the loops over `send` and `recv` of jsonrpcService.c and jsonrpcClient.c, over the
-- results of these calls, as the kernel gives them.
pub mod Frame
pub mod Request
pub mod Client
pub mod Methods
mod Tests
use my_common.Common.{
  ℕ, zero, suc, ◌+◌, ◌-◌, ◌*◌, ◌/◌, ◌%◌, Bool, true, false, not, ◌||◌, Option, none, some, List, [],
  ◌∷◌, ◌++◌, length, take, ltb, ◌==◌, if◌then◌else◌,
}
use my_common.ReadN.{drop}

-- A `send`: the number of bytes that it took, or -1.
pub data SendResult : Type 0 where
  took : ℕ → SendResult
  send_failed : SendResult

-- A `recv`: the bytes that it stored, none at the end of the stream, or -1.
pub data RecvResult : Type 0 where
  chunk : List ℕ → RecvResult
  recv_failed : RecvResult

-- What a sender has put on the wire: all of it (0), a part of it (-1), or it still sends.
pub data Sent : Type 0 where
  all_sent cut_off sending : List ℕ → Sent

-- A text that was received, -1, or a receiver that still waits.
pub data Received : Type 0 where
  received : List ℕ → Received
  broken receiving : Received

-- The loop of `socket_send` with the bytes that are left and those that are sent.
unfoldable pub send_loop : List ℕ → List ℕ → List SendResult → Sent
send_loop left out [] = if length left == 0 then all_sent out else sending out
send_loop left out (took k ∷ rs) =
    let rest = send_loop (drop k left) (out ++ take k left) rs in
    if length left == 0 then all_sent out else if k == 0 then cut_off out else rest
send_loop left out (send_failed ∷ rs) = if length left == 0 then all_sent out else cut_off out

unfoldable pub socket_send : List ℕ → List SendResult → Sent
unfolding send_loop
socket_send text rs = send_loop text [] rs

-- `htonl` of a length, byte by byte, and `ntohl` of what was received.
unfoldable pub header : ℕ → List ℕ
header n = (n / 16777216 % 256) ∷ (n / 65536 % 256) ∷ (n / 256 % 256) ∷ (n % 256) ∷ []

unfoldable pub length_of : List ℕ → ℕ
length_of [] = 0
length_of (b ∷ []) = b
length_of (b ∷ c ∷ []) = 256 * b + c
length_of (b ∷ c ∷ d ∷ []) = 65536 * b + 256 * c + d
length_of (b ∷ c ∷ d ∷ e ∷ rest) = 16777216 * b + 65536 * c + 256 * d + e

-- The loop over the body, in the service and in the client, with what is in the buffer.
unfoldable pub recv_loop : ℕ → List ℕ → List RecvResult → Received
recv_loop left buf [] = if left == 0 then received buf else receiving
recv_loop left buf (chunk bs ∷ rs) =
    let rest = recv_loop (left - length bs) (buf ++ bs) rs in
    if left == 0 then received buf else if length bs == 0 then broken else rest
recv_loop left buf (recv_failed ∷ rs) = if left == 0 then received buf else broken

-- `socket_recv` into `max_len` bytes; the header is one `recv` with MSG_WAITALL.
unfoldable pub socket_recv : ℕ → List RecvResult → Received
socket_recv max_len [] = receiving
socket_recv max_len (recv_failed ∷ rs) = broken
socket_recv max_len (chunk h ∷ rs) =
    if not (length h == 4)
    then broken
    else if length_of h == 0 || ltb (max_len - 1) (length_of h)
    then broken
    else recv_loop (length_of h) [] rs
