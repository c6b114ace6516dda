-- ===== src/JsonRpc/Tests.antt =====
-- Frames, requests and methods of common/jsonrpc, and the theorems at them.
use my_common.Common.{ℕ, true, Option, none, some, List, [], ◌∷◌, ◌≡◌, refl, arith}
use my_common.Common.Strings.{str_eq}
use my_common.Common.StateCode.{no_error}
use my_common.JsonRpc.{
  took, chunk, recv_failed, all_sent, received, broken, socket_send, socket_recv, header, length_of,
}
use my_common.JsonRpc.Client.{Client, receive_response, client_connect}
use my_common.JsonRpc.Frame.{socket_send-socket_recv}
use my_common.JsonRpc.Request.{
  Item, Document, Handler, Service, handle_request, choose_reply, times, is_version, IsApart,
  handle_request-freed, result_reply, error_reply, method_not_found,
}
use my_common.JsonRpc.Methods.{
  Method, Table, method_find_node, register_method, unregister_method, find_method, with_method,
  without_method,
}
use my_common.JsonRpc.Methods.Find.{Represents}
use my_common.JsonRpc.Methods.Change.{method_at, Leaves, refused_code, calls-Represents}

abbrev client : Client
client = record { sock_fd = some 5; connected = true; closed = [] }

-- The text "hey" in two pieces.
socket_send-socket_recv_example :
    (socket_send (header 3) (took 4 ∷ []) ≡ all_sent (header 3))
    × (socket_send (104 ∷ 101 ∷ 121 ∷ []) (took 1 ∷ took 2 ∷ []) ≡ all_sent (104 ∷ 101 ∷ 121 ∷ []))
    × (socket_recv 4096 (chunk (header 3) ∷ chunk (104 ∷ 101 ∷ []) ∷ chunk (121 ∷ []) ∷ [])
        ≡ received (104 ∷ 101 ∷ 121 ∷ []))
    × (receive_response 4096
          (chunk (header 3) ∷ chunk (104 ∷ 101 ∷ []) ∷ chunk (121 ∷ []) ∷ [])
          client
        ≡ (received (104 ∷ 101 ∷ 121 ∷ []), client))
socket_send-socket_recv_example =
    socket_send-socket_recv (104 ∷ 101 ∷ 121 ∷ []) 4096 (took 4 ∷ []) (took 1 ∷ took 2 ∷ [])
      (chunk (104 ∷ 101 ∷ []) ∷ chunk (121 ∷ []) ∷ []) client (omega arith) (omega arith)
      (omega arith) refl (omega arith) refl (omega arith) refl

-- A frame that is too long leaves the client connected, with the body unread.
too_long :
    receive_response 4 (chunk (header 4) ∷ chunk (104 ∷ 101 ∷ 121 ∷ 33 ∷ []) ∷ []) client
    ≡ (broken, client)
unfolding receive_response header length_of
too_long = refl

-- After a lost connection the old socket stays open while a new one is made.
redialled :
    (client_connect
      (record { socket = some 6; address_ok = true; connect_ok = true })
      (receive_response 4 (recv_failed ∷ []) client).1)
    ≡ (true, record { sock_fd = some 6; connected = true; closed = [] })
unfolding client_connect receive_response
redialled = refl

abbrev item : ℕ → List ℕ → Item
item a t = record { address = a; text = some t }

-- {"jsonrpc": "2.0", "method": "go", "id": 1}
abbrev request : Document
request = record {
  root = 10;
  version = some (item 11 (50 ∷ 46 ∷ 48 ∷ []));
  method = some (item 12 (103 ∷ 111 ∷ []));
  id = some (record { address = 13; text = none });
  params = none;
}

abbrev service : Service
service = record {
  reply_at = 20;
  error_at = 21;
  reply_ok = true;
  print_ok = true;
  length_sent = true;
}

abbrev go : List ℕ → Option Handler
go name = some (λ p k. some 30)

request-IsApart : IsApart service go request 13
request-IsApart = record {
  root = omega arith;
  version = refl;
  method = refl;
  params = refl;
  reply = omega arith;
  error = omega arith;
  result = λ name. refl;
}

handle_request-freed_example : times 13 (handle_request service go (some request)).freed ≡ 2
unfolding is_version
handle_request-freed_example =
    handle_request-freed service go request (record { address = 13; text = none }) refl
      request-IsApart

replies :
    (choose_reply go (some request) ≡ result_reply 30 (some 13))
    × (choose_reply (λ name. none) (some request) ≡ error_reply method_not_found (some 13))
unfolding choose_reply
replies = (refl, refl)

-- A service with one method, at 40.
abbrev method : ℕ → ℕ → Method
method c h = record { method_name = c ∷ []; handler = h }

abbrev one_method : Table
one_method = record {
  lists = record {
    list = record { head = some 40; tail = some 40; size = 1 };
    nodes = λ a. some (record { next = none; prev = none });
  };
  methods = λ a. some (method 97 1);
}

one_method-Represents : Represents one_method (40 ∷ []) (method 97 1 ∷ [])
one_method-Represents = record {
  nodes = record {
    head_at = refl;
    tail_at = refl;
    size_at = refl;
    links = (refl, tt);
    distinct = (tt, tt);
  };
  entries = (refl, tt);
}

calls-Represents_example :
    ((o : Option ℕ) × (method_find_node 2 (97 ∷ []) one_method ≡ some o)
      × (method_at one_method o ≡ find_method (97 ∷ []) (method 97 1 ∷ [])))
    × Leaves
        (register_method 2 (some 41) (method 98 2) one_method)
        no_error
        (with_method (method 98 2) (method 97 1 ∷ []))
    × (register_method 2 none (method 98 2) one_method
        ≡ some (refused_code (find_method (98 ∷ []) (method 97 1 ∷ [])), one_method))
    × Leaves
        (unregister_method 2 (97 ∷ []) one_method)
        no_error
        (without_method (97 ∷ []) (method 97 1 ∷ []))
calls-Represents_example =
    calls-Represents one_method (40 ∷ []) (method 97 1 ∷ []) one_method-Represents 2 (97 ∷ [])
      (method 98 2) 41 (omega arith) (omega arith)

with_method-again : with_method (method 97 5) (method 97 1 ∷ []) ≡ method 97 1 ∷ []
unfolding with_method str_eq
with_method-again = refl
