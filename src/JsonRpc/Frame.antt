-- ===== src/JsonRpc/Frame.antt =====
-- A text through the frames of common/jsonrpc, however the kernel splits it.
use my_common.Common.{
  ℕ, ◌+◌, ◌-◌, ◌^◌, ◌≡◌, ◌<◌, refl, sym, ap, ◌∙◌, List, [], ◌∷◌, ◌++◌, length, length-append, take,
  ◌==◌, leb, ◌||◌, if◌then◌else◌, arith,
}
use mathlib.Core.List.{append_assoc, append-nil}
use my_common.ReadN.{drop}
use my_common.ReadN.Whole.{append-empty, take-drop, length-drop}
use my_common.JsonRpc.{
  SendResult, took, send_failed, RecvResult, chunk, recv_failed, all_sent, received, broken,
  send_loop, socket_send, header, length_of, recv_loop, socket_recv, Received,
}
use my_common.JsonRpc.Client.{Client, receive_response}

-- The bytes that a course of sends takes, none of which fails or takes nothing.
abbrev pub total : List SendResult → ℕ
total [] = 0
total (took k ∷ rs) = k + total rs
total (send_failed ∷ rs) = total rs

abbrev pub Drains : List SendResult → Type 0
Drains [] = Unit
Drains (took k ∷ rs) = (0 < k) × Drains rs
Drains (send_failed ∷ rs) = ⊥

-- The bytes of a course of receives, none of which fails or meets the end of the stream.
abbrev pub content : List RecvResult → List ℕ
content [] = []
content (chunk bs ∷ rs) = bs ++ content rs
content (recv_failed ∷ rs) = content rs

abbrev pub Flows : List RecvResult → Type 0
Flows [] = Unit
Flows (chunk bs ∷ rs) = (0 < length bs) × Flows rs
Flows (recv_failed ∷ rs) = ⊥

send_loop-all :
    (left out : List ℕ) (rs : List SendResult)
    → Drains rs
    → total rs ≡ length left
    → send_loop left out rs ≡ all_sent (out ++ left)
unfolding send_loop
send_loop-all left out [] d e = ground (arith, e, append-empty out left (sym e))
send_loop-all left out (took k ∷ rs) d e = ground (
  arith,
  d.0,
  e,
  send_loop-all (drop k left) (out ++ take k left) rs d.1 (omega (arith, e, length-drop k left))
      ∙ ap all_sent
          (append_assoc out (take k left) (drop k left) ∙ ap (λ l. out ++ l) (take-drop k left)),
)
send_loop-all left out (send_failed ∷ rs) d e = absurd d

recv_loop-content :
    (left : ℕ) (buf : List ℕ) (rs : List RecvResult)
    → Flows rs
    → length (content rs) ≡ left
    → recv_loop left buf rs ≡ received (buf ++ content rs)
unfolding recv_loop
recv_loop-content left buf [] f e = rw (append-nil buf) (ground (arith, e))
recv_loop-content left buf (chunk bs ∷ rs) f e = ground (
  arith,
  f.0,
  e,
  length-append bs (content rs),
  recv_loop-content (left - length bs) (buf ++ bs) rs f.1
        (omega (arith, e, length-append bs (content rs)))
      ∙ ap received (append_assoc buf bs (content rs)),
)
recv_loop-content left buf (recv_failed ∷ rs) f e = absurd f

length_of-header : (n : ℕ) → n < 2 ^ 32 → length_of (header n) ≡ n
unfolding length_of header
length_of-header n h = omega arith

-- What a receiver of `max` bytes makes of a frame.
abbrev pub accepted : ℕ → List ℕ → Received
accepted max text = if length text == 0 || leb max (length text) then broken else received text

-- A header of a length, and the body of that length behind it.
module _ (text : List ℕ) (max : ℕ) (h : List ℕ) (rs : List RecvResult) (four : length h ≡ 4)
    (len : length_of h ≡ length text) (body : recv_loop (length text) [] rs ≡ received text) where
  socket_recv-accepted : 0 < max → socket_recv max (chunk h ∷ rs) ≡ accepted max text
  unfolding socket_recv
  socket_recv-accepted some_room = ground (arith, four, len, body)

  receive_response-accepted :
      (c : Client) → receive_response max (chunk h ∷ rs) c ≡ (accepted max text, c)
  unfolding receive_response
  receive_response-accepted c = ground (arith, four, len, body)

length-header : (n : ℕ) → length (header n) ≡ 4
unfolding header
length-header n = refl

-- However the kernel splits a text of fewer than 2^32 bytes on its way, as long as no call fails
-- and the stream does not end, socket_send sends its length and then the text, and on these
-- socket_recv, and the client's side with its connection unchanged, give back the text, where it
-- is not empty and leaves a byte of the buffer, and fail otherwise.
pub socket_send-socket_recv :
    (text : List ℕ) (max : ℕ) (hs ss : List SendResult) (rs : List RecvResult) (c : Client)
    → length text < 2 ^ 32
    → 0 < max
    → Drains hs
    → total hs ≡ 4
    → Drains ss
    → total ss ≡ length text
    → Flows rs
    → content rs ≡ text
    → (socket_send (header (length text)) hs ≡ all_sent (header (length text)))
      × (socket_send text ss ≡ all_sent text)
      × (socket_recv max (chunk (header (length text)) ∷ rs) ≡ accepted max text)
      × (receive_response max (chunk (header (length text)) ∷ rs) c ≡ (accepted max text, c))
unfolding socket_send
socket_send-socket_recv text max hs ss rs c small some_room dh th ds ts f e =
    let n = length text in
    let len = length_of-header n small in
    let body = recv_loop-content n [] rs f (ap length e) ∙ ap received e in
    (
      send_loop-all (header n) [] hs dh (th ∙ sym (length-header n)),
      send_loop-all text [] ss ds ts,
      socket_recv-accepted text max (header n) rs (length-header n) len body some_room,
      receive_response-accepted text max (header n) rs (length-header n) len body c,
    )
