-- ===== src/JsonRpc/Request.antt =====
-- `handle_jsonrpc_request` of common/jsonrpc/jsonrpcService.c: the reply to a request, and which
-- JSON items it frees. cJSON is a parameter: a parsed request comes as its items, and, as cJSON
-- documents, an object owns the items that it was parsed with or that were added to it, and
-- `cJSON_Delete` frees an object with all that it owns.
use my_common.Common.{
  ℕ, suc, ◌+◌, ◌≡◌, ◌≢◌, ap, ◌∙◌, arith, Bool, true, false, ◌&&◌, Option, none, some, List, [], ◌∷◌,
  ◌++◌, ◌==◌, if◌then◌else◌, Bool-cases, inl, inr,
}
use my_common.Common.Strings.{str_eq}

-- A JSON item: its address, and its text where it is a string.
pub record Item : Type 0 where
  pub address : ℕ
  pub text : Option (List ℕ)

-- A parsed request: its own address and the items of four names.
pub record Document : Type 0 where
  pub root : ℕ
  pub version : Option Item
  pub method : Option Item
  pub id : Option Item
  pub params : Option Item

-- `jsonrpc_error_code_t`, as far as the service sends it.
pub data ErrorCode : Type 0 where
  parse_error invalid_request method_not_found internal_error : ErrorCode

-- What `jsonrpc_create_error` and `jsonrpc_create_response` are called with: the code or the
-- result, and the id's item.
pub data Reply : Type 0 where
  error_reply : ErrorCode → Option ℕ → Reply
  result_reply : ℕ → Option ℕ → Reply

-- A method's handler: from the items of the params and of the id to the result's item.
abbrev pub Handler : Type 0
Handler = Option ℕ → Option ℕ → Option ℕ

abbrev pub address_of : Option Item → Option ℕ
address_of none = none
address_of (some i) = some i.address

abbrev pub text_of : Option Item → Option (List ℕ)
text_of none = none
text_of (some i) = i.text

-- The text is JSONRPC_VERSION, "2.0".
unfoldable pub is_version : Option (List ℕ) → Bool
unfolding str_eq
is_version none = false
is_version (some t) = str_eq t (50 ∷ 46 ∷ 48 ∷ [])

abbrev pub reply_result : Option ℕ → Option ℕ → Reply
reply_result none id = error_reply internal_error id
reply_result (some r) id = result_reply r id

abbrev pub reply_method : Document → Option Handler → Reply
reply_method d none = error_reply method_not_found (address_of d.id)
reply_method d (some h) = reply_result (h (address_of d.params) (address_of d.id)) (address_of d.id)

abbrev pub reply_named : (List ℕ → Option Handler) → Document → Option (List ℕ) → Reply
reply_named find d none = error_reply invalid_request none
reply_named find d (some name) = reply_method d (find name)

-- Up to `done`.
unfoldable pub choose_reply : (List ℕ → Option Handler) → Option Document → Reply
unfolding is_version
choose_reply find none = error_reply parse_error none
choose_reply find (some d) =
    if is_version (text_of d.version)
    then reply_named find d (text_of d.method)
    else error_reply invalid_request none

-- The address of the reply, and of the error in it; whether there is memory for them and for the
-- printed text; and whether the length was sent.
pub record Service : Type 0 where
  pub reply_at : ℕ
  pub error_at : ℕ
  pub reply_ok : Bool
  pub print_ok : Bool
  pub length_sent : Bool

abbrev pub opt : Option ℕ → List ℕ
opt none = []
opt (some a) = a ∷ []

-- What the reply owns (its own texts, which are new, left out), and what the request owns.
abbrev pub reply_items : Service → Reply → List ℕ
reply_items s (error_reply code id) = s.reply_at ∷ s.error_at ∷ opt id
reply_items s (result_reply r id) = s.reply_at ∷ r ∷ opt id

abbrev pub document_items : Option Document → List ℕ
document_items none = []
document_items (some d) =
    d.root
    ∷ (opt (address_of d.version)
        ++ (opt (address_of d.method) ++ (opt (address_of d.id) ++ opt (address_of d.params))))

-- The reply that was created and what was printed of it, the return (0 or -1), and what was freed.
pub record Handled : Type 0 where
  pub printed : Option Reply
  pub ok : Bool
  pub freed : List ℕ

unfoldable pub handle_request : Service → (List ℕ → Option Handler) → Option Document → Handled
handle_request s find parsed =
    if s.reply_ok
    then record {
      printed = if s.print_ok then some (choose_reply find parsed) else none;
      ok = s.print_ok && s.length_sent;
      freed = reply_items s (choose_reply find parsed) ++ document_items parsed;
    }
    else record { printed = none; ok = false; freed = document_items parsed }

-- How often an address stands among freed ones.
abbrev pub times : ℕ → List ℕ → ℕ
times a [] = 0
times a (freed ∷ later) = let others = times a later in if freed == a then suc others else others

times-append :
    (a : ℕ) (first second : List ℕ) → times a (first ++ second) ≡ times a first + times a second
times-append a [] second = omega arith
times-append a (freed ∷ later) second = ground (arith, times-append a later second)

-- The call that `find` gives for a name.
abbrev pub call : Option Handler → Handler
call none p k = none
call (some h) p k = h p k

-- The item of the request's id is none of the other items.
pub record IsApart (s : Service) (find : List ℕ → Option Handler) (d : Document) (a : ℕ)
    : Type 0 where
  pub root : d.root ≢ a
  pub version : times a (opt (address_of d.version)) ≡ 0
  pub method : times a (opt (address_of d.method)) ≡ 0
  pub params : times a (opt (address_of d.params)) ≡ 0
  pub reply : s.reply_at ≢ a
  pub error : s.error_at ≢ a
  pub result :
      (name : List ℕ) → times a (opt (call (find name) (address_of d.params) (address_of d.id))) ≡ 0

-- A request of the right version that names a method.
abbrev pub has_text : Option (List ℕ) → Bool
has_text none = false
has_text (some t) = true

abbrev pub is_call : Document → Bool
is_call d = is_version (text_of d.version) && has_text (text_of d.method)

module _ (s : Service) (find : List ℕ → Option Handler) (d : Document) (i : Item)
    (at : d.id ≡ some i) (v : IsApart s find d i.address) where
  id-times : times i.address (opt (address_of d.id)) ≡ 1
  id-times = ap (λ o. times i.address (opt (address_of o))) at ∙ same
    where
      same : times i.address (i.address ∷ []) ≡ 1
      same = ground arith

  document_items-times : times i.address (document_items (some d)) ≡ 1
  document_items-times =
      let ps = opt (address_of d.params) in
      let ids = opt (address_of d.id) in
      let ms = opt (address_of d.method) in
      ground (
        arith,
        id-times,
        times-append i.address (opt (address_of d.version)) (ms ++ (ids ++ ps)),
        times-append i.address ms (ids ++ ps),
        times-append i.address ids ps,
      )

  result-times :
      (r : Option ℕ)
      → times i.address (opt r) ≡ 0
      → times i.address (reply_items s (reply_result r (address_of d.id))) ≡ 1
  result-times none e = ground (arith, id-times)
  result-times (some r) e = ground (arith, id-times, e)

  method-times :
      (o : Option Handler)
      → times i.address (opt (call o (address_of d.params) (address_of d.id))) ≡ 0
      → times i.address (reply_items s (reply_method d o)) ≡ 1
  method-times none e = ground (arith, id-times)
  method-times (some h) e = result-times (h (address_of d.params) (address_of d.id)) e

  named-times :
      (t : Option (List ℕ))
      → times i.address (reply_items s (reply_named find d t)) ≡ (if has_text t then 1 else 0)
  named-times none = ground arith
  named-times (some name) = method-times (find name) (v.result name)

  reply_items-times :
      times i.address (reply_items s (choose_reply find (some d))) ≡ (if is_call d then 1 else 0)
  unfolding choose_reply
  reply_items-times = elim (Bool-cases (is_version (text_of d.version))) [
    | inl y ↦ rw y (named-times (text_of d.method))
    | inr n ↦ rw n (ground arith)
  ]

  -- A request with an id, whose item is none of the other items and results, has that item
  -- freed twice by handle_jsonrpc_request exactly when it has the right version and a method
  -- that is a string, and there is memory for the reply; in all other cases it is freed once.
  pub handle_request-freed :
      times i.address (handle_request s find (some d)).freed
      ≡ (if s.reply_ok && is_call d then 2 else 1)
  unfolding handle_request
  handle_request-freed =
      let reply = choose_reply find (some d) in
      ground (
        arith,
        times-append i.address (reply_items s reply) (document_items (some d)),
        reply_items-times,
        document_items-times,
      )
