-- ===== src/Eventbus/Decoding.antt =====
-- `RpcFromReader` of internal/eventbus/rpc/rpc_methods.go and `parseRpc` of
-- internal/eventbus/router.go. The conversions of JSON, base64 and gzip are parameters.
pub mod Laws
use livelook_sfu.Common.{
  Bool, true, false, Option, none, some, String, ◌==◌, string_eq, if◌then◌else◌, Outcome, ok, err,
  panic, Error, unknown_rpc_type,
}
use livelook_sfu.Eventbus.Rpc.{
  UserSessionId, SessionDescription, JsonRpcHead, IceCandidateParams, SdpParams, SubscribeParams,
  Method, Rpc, join_method, ice_candidate_method, sdp_offer_method, sdp_answer_method,
  close_session_method, publish_stream_method, publish_stream_stop_method, subscribe_stream_method,
  subscribe_stream_cancel_method, new_join_rpc, new_ice_candidate_rpc, new_sdp_answer_rpc,
  new_sdp_offer_rpc, new_close_session_rpc, new_start_stream_rpc, new_stop_stream_rpc,
  new_subscribe_stream_rpc, new_subscribe_stream_cancel_rpc,
}

-- `ServerMessage`
pub record ServerMessage (Bytes : Type 0) : Type 0 where
  pub sender : UserSessionId
  pub message : Bytes

-- `jsonRpc`: the head, and the params as a map.
pub record JsonRpc (Params : Type 0) : Type 0 where
  pub head : JsonRpcHead
  pub rpc_params : Params

-- What `base64.StdEncoding.DecodeString` answers; `corrupt_input` is `base64.CorruptInputError`.
pub data Base64Reply (Bytes : Type 0) : Type 0 where
  decoded : Bytes → Base64Reply Bytes
  corrupt_input : Base64Reply Bytes
  base64_error : Error → Base64Reply Bytes

-- The calls of encoding/json, encoding/base64 and compress/gzip.
pub record Codec (Bytes Params : Type 0) : Type 0 where
  pub unmarshal_server_message : Bytes → Outcome (ServerMessage Bytes)
  pub decode_json_rpc : Bytes → Outcome (JsonRpc Params)
  pub marshal_params : Params → Outcome Bytes
  pub unmarshal_ice : Bytes → Outcome IceCandidateParams
  pub unmarshal_sdp : Bytes → Outcome SdpParams
  pub unmarshal_subscribe : Bytes → Outcome SubscribeParams
  pub decode_base64 : String → Base64Reply Bytes
  pub gzip_reader : Bytes → Outcome Bytes
  pub read_all : Bytes → Outcome String

-- `if err != nil { return nil, err }`
abbrev pub and_then : {A B : Type 0} → Outcome A → (A → Outcome B) → Outcome B
and_then (ok a) rest = rest a
and_then (err e) rest = err e
and_then panic rest = panic

module _ {Bytes Params : Type 0} (codec : Codec Bytes Params) where
  abbrev pub offer_of : SdpParams → String → Outcome Rpc
  offer_of params sdp =
      ok (new_sdp_offer_rpc (record params.session_description { sdp = sdp }) params.target)

  -- A text that is not base64 is the SDP itself.
  abbrev pub unpacked : SdpParams → Base64Reply Bytes → Outcome Rpc
  unpacked params corrupt_input = ok (new_sdp_offer_rpc params.session_description params.target)
  unpacked params (base64_error e) = err e
  unpacked params (decoded gzdata) =
      and_then (codec.gzip_reader gzdata) (λ zr. and_then (codec.read_all zr) (offer_of params))

  abbrev pub unpack_offer : SdpParams → Outcome Rpc
  unpack_offer params =
      if params.session_description.sdp == ""
      then ok (new_sdp_offer_rpc params.session_description params.target)
      else unpacked params (codec.decode_base64 params.session_description.sdp)

  -- The `switch` on the method.
  unfoldable pub rpc_of : Method → Bytes → Outcome Rpc
  rpc_of method params =
      if method == ice_candidate_method
      then and_then (codec.unmarshal_ice params)
          (λ p. ok (new_ice_candidate_rpc p.candidate_init p.target))
      else if method == sdp_answer_method
      then and_then (codec.unmarshal_sdp params)
          (λ p. ok (new_sdp_answer_rpc p.session_description p.target))
      else if method == sdp_offer_method
      then and_then (codec.unmarshal_sdp params) unpack_offer
      else if method == close_session_method
      then ok new_close_session_rpc
      else if method == publish_stream_method
      then ok new_start_stream_rpc
      else if method == publish_stream_stop_method
      then ok new_stop_stream_rpc
      else if method == join_method
      then ok new_join_rpc
      else if method == subscribe_stream_method
      then and_then (codec.unmarshal_subscribe params)
          (λ p. ok (new_subscribe_stream_rpc p.user_id))
      else if method == subscribe_stream_cancel_method
      then and_then (codec.unmarshal_subscribe params)
          (λ p. ok (new_subscribe_stream_cancel_rpc p.user_id))
      else err unknown_rpc_type

  unfoldable pub rpc_from_reader : Bytes → Outcome Rpc
  unfolding rpc_of
  rpc_from_reader reader =
      and_then (codec.decode_json_rpc reader)
        (λ rpc. and_then (codec.marshal_params rpc.rpc_params) (rpc_of rpc.head.method))

  unfoldable pub parse_rpc : Bytes → Outcome (UserSessionId × Rpc)
  unfolding rpc_from_reader
  parse_rpc payload =
      and_then (codec.unmarshal_server_message payload)
        (λ message. and_then (rpc_from_reader message.message) (λ rpc. ok (message.sender, rpc)))
