-- ===== src/Websocket.antt =====
-- crates/websocket/src/lib.rs: requests and responses over one websocket connection.
pub mod Core
mod Instance
mod Tests
use aos_operator.Shared.{
  ℕ, ◌≡◌, ◌%◌, Bool, true, if◌then◌else◌, Option, none, some, List, [], Outcome, ok, err, panic,
  ◌>>=◌, unwrap,
}
use aos_operator.Shared.Machine.{u64_mod}
use aos_operator.Shared.Text.{Text, codes}
use aos_operator.Shared.Decimal.{to_string}
use aos_operator.Signer.{SigningCrates, generate_hash_str, sign_message, verify_signature}

pub data WsError : Type 0 where
  json_error tungstenite_error elapsed_error io_error channel_error : WsError
  websocket_closed receiver_closed received_close_frame unexpected_raw_frame : WsError
  connection_closed : WsError

pub record WireMessage (Value : Type 0) : Type 0 where
  pub id : Text
  pub method : Option Text
  pub params : Option Value
  pub result : Option Value
  pub address : Text
  pub hash : Text
  pub signature : Text

abbrev pub wire_address : Text
wire_address = codes "0x02a5592a6dE1568F6eFdC536DA3EF887f98414cb"

-- An `Option<Value>` as serde reads it back: `Some` of the JSON value `null` is written like `None`.
unfoldable pub read_option : {Value : Type 0} → (Value → Bool) → Option Value → Option Value
read_option is_null none = none
read_option is_null (some v) = if is_null v then none else some v

abbrev pub as_read : {Value : Type 0} → (Value → Bool) → WireMessage Value → WireMessage Value
as_read is_null m = record m {
  params = read_option is_null m.params;
  result = read_option is_null m.result;
}

unfoldable pub all_exact : {Value : Type 0} → (Value → Bool) → Option Value → Bool
all_exact exact none = true
all_exact exact (some v) = exact v

-- What is used of `serde_json`, and of the crates that sign.
pub record WireCrates (Value : Type 0) : Type 1 where
  pub signing : SigningCrates (WireMessage Value)
  pub is_null : Value → Bool
  -- The value has no floating point number, and is nested less deep than the parser's limit.
  pub exact : Value → Bool
  pub to_json : WireMessage Value → Option Text
  pub from_slice : Text → Option (WireMessage Value)
  -- What was written of exact values is read back, except for `null`.
  pub from_slice-to_json :
      (m : WireMessage Value) (t : Text)
      → all_exact exact m.params ≡ true
      → all_exact exact m.result ≡ true
      → to_json m ≡ some t
      → from_slice t ≡ some (as_read is_null m)
  -- `None` and `Some` of `null` are written alike.
  pub to_vec-as_read :
      (m : WireMessage Value) → signing.to_vec (as_read is_null m) ≡ signing.to_vec m

-- `tungstenite::Message`, or the error that the stream yields.
pub data Frame : Type 0 where
  text : Text → Frame
  binary : List ℕ → Frame
  ping : List ℕ → Frame
  pong : List ℕ → Frame
  close_frame : Frame
  raw_frame : Frame
  broken : Frame

-- `ReceiveMessage`; the `WebsocketRespond` in a request carries the same id again.
pub data ReceiveMessage (Value : Type 0) : Type 0 where
  signal : List ℕ → ReceiveMessage Value
  request : Text → Text → Value → ReceiveMessage Value

json_result : {A : Type 0} → Option A → Outcome WsError A
json_result none = err json_error
json_result (some a) = ok a

module _ {Value : Type 0} (crates : WireCrates Value) where
  open crates use {signing, to_json, from_slice}

  unfoldable pub try_from_bytes : Text → Outcome WsError (WireMessage Value)
  unfolding json_result
  try_from_bytes b = json_result (from_slice b)

  -- A message with the hash and the signature of its unsigned form.
  unfoldable pub signed : signing.Key → WireMessage Value → Outcome WsError Text
  unfolding json_result
  signed key s1 = do
    hash ← generate_hash_str signing s1
    sig ← sign_message signing key s1
    json_result (to_json (record s1 { hash = hash; signature = sig }))

  -- The message that a request signs; the `n`-th id of the process is `n` as a `u64`.
  abbrev pub unsigned_request : Text → Text → Value → WireMessage Value
  unsigned_request id f s = record {
    id = id;
    method = some f;
    params = some s;
    result = none;
    address = wire_address;
    hash = [];
    signature = [];
  }

  abbrev pub unsigned_response : Text → Value → WireMessage Value
  unsigned_response id s = record {
    id = id;
    method = none;
    params = none;
    result = some s;
    address = wire_address;
    hash = [];
    signature = [];
  }

  -- `WireMessage::request`, after `ID.fetch_add`
  unfoldable pub request_message : Text → Text → Value → signing.Key → Outcome WsError Text
  request_message id f s signer = signed signer (unsigned_request id f s)

  -- `WireMessage::response`
  unfoldable pub response_message : Text → Value → signing.Key → Outcome WsError Text
  response_message id s signer = signed signer (unsigned_response id s)

  -- What `recv_inner` does with a message that has a method: it computes whether the signature is
  -- valid, and then returns the request whatever the answer is.
  unfoldable pub received_request :
      WireMessage Value → Text → Outcome WsError (ReceiveMessage Value)
  received_request recvd meth = do
    let recvd_clone = record recvd { hash = []; signature = [] }
    is_valid ← verify_signature signing recvd_clone.address recvd_clone recvd.signature
    hashstr ← generate_hash_str signing recvd_clone
    params ← unwrap recvd.params
    ok (request recvd.id meth params)

-- The id that `ID.fetch_add(1)` gives after `n` calls, as text; the counter starts at 1.
unfoldable pub issued_id : ℕ → Text
issued_id n = to_string (n % u64_mod)
