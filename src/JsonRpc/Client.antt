-- ===== src/JsonRpc/Client.antt =====
-- The connection of common/jsonrpc/jsonrpcClient.c and one exchange over it.
use my_common.Common.{
  ℕ, Bool, true, false, not, ◌&&◌, ◌||◌, Option, none, some, List, [], ◌∷◌, length, leb, ◌==◌,
  if◌then◌else◌,
}
use my_common.JsonRpc.{
  RecvResult, chunk, recv_failed, Received, received, broken, receiving, length_of, recv_loop,
}

-- `jsonrpc_client_t` without its address, and the descriptors that were closed.
pub record Client : Type 0 where
  pub sock_fd : Option ℕ
  pub connected : Bool
  pub closed : List ℕ

-- How `socket`, `inet_pton` and `connect` end.
pub record Dial : Type 0 where
  pub socket : Option ℕ
  pub address_ok : Bool
  pub connect_ok : Bool

unfoldable pub client_connect : Dial → Client → Bool × Client
client_connect d c = if c.connected then (true, c) else elim (d.socket) [
  | none ↦ (false, record c { sock_fd = none })
  | some fd ↦
      if d.address_ok && d.connect_ok
      then (true, record c { sock_fd = some fd; connected = true })
      else (false, record c { sock_fd = some fd; closed = fd ∷ c.closed })
]

-- A failure of the stream, which loses the connection but does not close the socket.
abbrev pub lost : Client → Received × Client
lost c = (broken, record c { connected = false })

abbrev pub on_body : Client → Received → Received × Client
on_body c (received text) = (received text, c)
on_body c broken = lost c
on_body c receiving = (receiving, c)

-- Behind both sends: the header, then the body into `max_response` bytes.
unfoldable pub receive_response : ℕ → List RecvResult → Client → Received × Client
receive_response max_response [] c = (receiving, c)
receive_response max_response (recv_failed ∷ rs) c = lost c
receive_response max_response (chunk h ∷ rs) c =
    if not (length h == 4)
    then lost c
    else if length_of h == 0 || leb max_response (length_of h)
    then (broken, c)
    else on_body c (recv_loop (length_of h) [] rs)

abbrev pub took_all : ℕ → Option ℕ → Bool
took_all n none = false
took_all n (some k) = k == n

-- `client_send_request`: `head` and `body` are what the two calls of `send` return, -1 as `none`.
unfoldable pub client_send_request :
    Dial → Option ℕ → Option ℕ → List ℕ → ℕ → List RecvResult → Client → Received × Client
unfolding client_connect receive_response
client_send_request d head body request max_response rs c =
    let (ok, c') = client_connect d c in
    if not ok
    then (broken, c')
    else if not (took_all 4 head)
    then lost c'
    else if not (took_all (length request) body)
    then lost c'
    else receive_response max_response rs c'
