-- ===== src/Eventbus/Encoding/Reading.antt =====
-- How encoding/json fills the structs that `RpcFromReader` and `parseRpc` read.
use livelook_sfu.Common.{
  ℕ, Option, none, some, List, [], String, equal_fold, if◌then◌else◌, Outcome, ok, err, panic,
  unmarshal_type_error,
}
use livelook_sfu.Eventbus.Json.{
  Json, null, str, arr, obj, Members, set_string, set_pointer, set_uint16, set_map, bytes_of,
  read_struct,
}
use livelook_sfu.Eventbus.Rpc.{IceCandidateParams, SdpParams, SubscribeParams}
use livelook_sfu.Eventbus.Decoding.{
  ServerMessage, JsonRpc, Base64Reply, decoded, corrupt_input, base64_error, Codec, and_then,
}
use livelook_sfu.Eventbus.Encoding.{JsonText}

-- A member goes to the field of its name, whatever its case; a name without a field is skipped.
abbrev pub set_ice : String → Json → IceCandidateParams → Outcome IceCandidateParams
set_ice key v p =
    let c = p.candidate_init in
    if equal_fold key "candidate"
    then and_then (set_string v c.candidate)
        (λ s. ok (record p { candidate_init = record c { candidate = s } }))
    else if equal_fold key "sdpMid"
    then and_then (set_pointer v) (λ s. ok (record p { candidate_init = record c { sdp_mid = s } }))
    else if equal_fold key "sdpMLineIndex"
    then and_then (set_uint16 v)
        (λ n. ok (record p { candidate_init = record c { sdp_m_line_index = n } }))
    else if equal_fold key "usernameFragment"
    then and_then (set_pointer v)
        (λ s. ok (record p { candidate_init = record c { username_fragment = s } }))
    else if equal_fold key "target"
    then and_then (set_string v p.target) (λ s. ok (record p { target = s }))
    else ok p

abbrev pub set_subscribe : String → Json → SubscribeParams → Outcome SubscribeParams
set_subscribe key v p =
    if equal_fold key "user_id"
    then and_then (set_string v p.user_id) (λ s. ok (record p { user_id = s }))
    else ok p

abbrev pub set_json_rpc :
    String → Json → JsonRpc (Option Members) → Outcome (JsonRpc (Option Members))
set_json_rpc key v r =
    if equal_fold key "jsonrpc"
    then and_then (set_string v r.head.version)
        (λ s. ok (record r { head = record r.head { version = s } }))
    else if equal_fold key "method"
    then and_then (set_string v r.head.method)
        (λ s. ok (record r { head = record r.head { method = s } }))
    else if equal_fold key "params"
    then and_then (set_map v r.rpc_params) (λ m. ok (record r { rpc_params = m }))
    else ok r

-- A zero value for each struct.
abbrev pub no_ice : IceCandidateParams
no_ice = record {
  candidate_init = record {
    candidate = "";
    sdp_mid = none;
    sdp_m_line_index = none;
    username_fragment = none;
  };
  target = "";
}

abbrev pub no_sdp : SdpParams
no_sdp = record { session_description = record { sdp_type = ""; sdp = "" }; target = "" }

abbrev pub no_subscribe : SubscribeParams
no_subscribe = record { user_id = "" }

abbrev pub no_json_rpc : JsonRpc (Option Members)
no_json_rpc = record { head = record { version = ""; method = "" }; rpc_params = none }

-- The error of a text that is no base64.
abbrev pub base64_bytes : {Bytes : Type 0} → Base64Reply Bytes → Outcome Bytes
base64_bytes (decoded bytes) = ok bytes
base64_bytes corrupt_input = err unmarshal_type_error
base64_bytes (base64_error e) = err e

abbrev pub built_bytes : {Bytes : Type 0} → (List ℕ → Bytes) → Outcome (List ℕ) → Outcome Bytes
built_bytes of_bytes (ok b) = ok (of_bytes b)
built_bytes of_bytes (err e) = err e
built_bytes of_bytes panic = panic

module _ {Bytes : Type 0} (t : JsonText Bytes) where
  -- `SDPType` reads a text of its own.
  abbrev pub set_sdp_type : Json → Outcome String
  set_sdp_type (str s) = t.read_sdp_type s
  set_sdp_type null = t.read_sdp_type ""
  set_sdp_type _ = err unmarshal_type_error

  abbrev pub set_sdp : String → Json → SdpParams → Outcome SdpParams
  set_sdp key v p =
      let d = p.session_description in
      if equal_fold key "type"
      then and_then (set_sdp_type v)
          (λ s. ok (record p { session_description = record d { sdp_type = s } }))
      else if equal_fold key "sdp"
      then and_then (set_string v d.sdp)
          (λ s. ok (record p { session_description = record d { sdp = s } }))
      else if equal_fold key "target"
      then and_then (set_string v p.target) (λ s. ok (record p { target = s }))
      else ok p

  -- A `[]byte` is a text in base64, or an array of bytes.
  abbrev pub set_bytes : Json → Outcome Bytes
  set_bytes null = ok (t.of_bytes [])
  set_bytes (str s) = base64_bytes (t.decode_base64 s)
  set_bytes (arr items) = built_bytes t.of_bytes (bytes_of items)
  set_bytes _ = err unmarshal_type_error

  abbrev pub set_message : String → Json → ServerMessage Bytes → Outcome (ServerMessage Bytes)
  set_message key v m =
      if equal_fold key "user_id"
      then and_then (set_string v m.sender) (λ s. ok (record m { sender = s }))
      else if equal_fold key "rpc"
      then and_then (set_bytes v) (λ b. ok (record m { message = b }))
      else ok m

  abbrev pub params_json : Option Members → Json
  params_json none = null
  params_json (some m) = obj m

  abbrev pub no_message : ServerMessage Bytes
  no_message = record { sender = ""; message = t.of_bytes [] }

  unfoldable pub json_codec : Codec Bytes (Option Members)
  unfolding read_struct bytes_of
  json_codec = record {
    unmarshal_server_message = λ b. and_then (t.read b) (read_struct set_message no_message);
    decode_json_rpc = λ b. and_then (t.read_first b) (read_struct set_json_rpc no_json_rpc);
    marshal_params = λ params. ok (t.write (params_json params));
    unmarshal_ice = λ b. and_then (t.read b) (read_struct set_ice no_ice);
    unmarshal_sdp = λ b. and_then (t.read b) (read_struct set_sdp no_sdp);
    unmarshal_subscribe = λ b. and_then (t.read b) (read_struct set_subscribe no_subscribe);
    decode_base64 = t.decode_base64;
    gzip_reader = t.gzip_reader;
    read_all = t.read_all;
  }
