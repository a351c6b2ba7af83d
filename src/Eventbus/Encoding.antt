-- ===== src/Eventbus/Encoding.antt =====
-- `ToJSON` of internal/eventbus/rpc by the tags of the structs, those of pion as documented. How a
-- JSON value is spelled, base64 and gzip are parameters.
pub mod Reading
pub mod RoundTrip
use livelook_sfu.Common.{
  ℕ, ◌≡◌, Option, none, some, List, [], String, equal_fold, ◌==◌, string_eq, if◌then◌else◌, Outcome,
  ok, err, panic, unmarshal_type_error,
}
use livelook_sfu.Eventbus.Json.{
  Json, null, num, str, arr, obj, Members, no_members, entry, set_string, set_pointer, set_uint16,
  set_map, bytes_of, read_struct,
}
use livelook_sfu.Eventbus.Rpc.{
  SessionDescription, IceCandidateInit, JsonRpcHead, IceCandidateParams, SdpParams, SubscribeParams,
  Rpc, join_rpc, ice_candidate_rpc, sdp_rpc, close_session_rpc, start_stream_rpc, stop_stream_rpc,
  subscribe_stream_rpc, subscribe_stream_cancel_rpc,
}
use livelook_sfu.Eventbus.Decoding.{
  ServerMessage, JsonRpc, Base64Reply, decoded, corrupt_input, base64_error, Codec,
}

-- `read` takes a text that is one value, `read_first` the first value of a text. `read_sdp_type` is
-- `SDPType.UnmarshalJSON` of pion.
pub record JsonText (Bytes : Type 0) : Type 0 where
  pub write : Json → Bytes
  pub read : Bytes → Outcome Json
  pub read_first : Bytes → Outcome Json
  pub encode_base64 : Bytes → String
  pub decode_base64 : String → Base64Reply Bytes
  pub of_bytes : List ℕ → Bytes
  pub gzip_reader : Bytes → Outcome Bytes
  pub read_all : Bytes → Outcome String
  pub read_sdp_type : String → Outcome String

-- What is documented of them.
pub record JsonTextLaws {Bytes : Type 0} (t : JsonText Bytes) : Type 0 where
  pub read-write : (v : Json) → t.read (t.write v) ≡ ok v
  pub read_first-write : (v : Json) → t.read_first (t.write v) ≡ ok v
  pub decode-encode : (b : Bytes) → t.decode_base64 (t.encode_base64 b) ≡ decoded b

-- A nil pointer is null.
abbrev pub pointer_json : Option String → Json
pointer_json none = null
pointer_json (some s) = str s

abbrev pub index_json : Option ℕ → Json
index_json none = null
index_json (some n) = num n

unfoldable pub ice_json : IceCandidateParams → Json
ice_json p =
    let c = p.candidate_init in
    obj (
      entry "candidate" (str c.candidate) (
        entry "sdpMid" (pointer_json c.sdp_mid) (
          entry "sdpMLineIndex" (index_json c.sdp_m_line_index) (
            entry "usernameFragment" (pointer_json c.username_fragment)
              (entry "target" (str p.target) no_members)))))

unfoldable pub sdp_json : SdpParams → Json
sdp_json p = obj (
    entry "type" (str p.session_description.sdp_type)
      (entry "sdp" (str p.session_description.sdp) (entry "target" (str p.target) no_members)))

unfoldable pub subscribe_json : SubscribeParams → Json
subscribe_json p = obj (entry "user_id" (str p.user_id) no_members)

abbrev pub with_params : JsonRpcHead → Json → Json
with_params h params = obj (
    entry "jsonrpc" (str h.version)
      (entry "method" (str h.method) (entry "params" params no_members)))

-- The value that `ToJSON` writes.
unfoldable pub rpc_json : Rpc → Json
unfolding ice_json sdp_json subscribe_json
rpc_json (join_rpc h) = with_params h null
rpc_json (ice_candidate_rpc h p) = with_params h (ice_json p)
rpc_json (sdp_rpc h p) = with_params h (sdp_json p)
rpc_json (close_session_rpc h) = with_params h null
rpc_json (start_stream_rpc h) = with_params h null
rpc_json (stop_stream_rpc h) = with_params h null
rpc_json (subscribe_stream_rpc h p) = with_params h (subscribe_json p)
rpc_json (subscribe_stream_cancel_rpc h p) = with_params h (subscribe_json p)

-- `json.Marshal` of a `ServerMessage`, whose bytes are a text in base64.
unfoldable pub message_json : {Bytes : Type 0} → JsonText Bytes → ServerMessage Bytes → Json
message_json t m =
    obj (entry "user_id" (str m.sender) (entry "rpc" (str (t.encode_base64 m.message)) no_members))

-- `ToJSON`
unfoldable pub to_json : {Bytes : Type 0} → JsonText Bytes → Rpc → Bytes
unfolding rpc_json
to_json t r = t.write (rpc_json r)
