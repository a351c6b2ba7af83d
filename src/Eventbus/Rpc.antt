-- ===== src/Eventbus/Rpc.antt =====
-- internal/eventbus/rpc: one constructor for each struct that implements `Rpc`.
use livelook_sfu.Common.{ℕ, Option, String}

-- `core.UserSessionID`
abbrev pub UserSessionId : Type 0
UserSessionId = String

-- The exported fields of `webrtc.SessionDescription` and `webrtc.ICECandidateInit`.
pub record SessionDescription : Type 0 where
  pub sdp_type : String
  pub sdp : String

pub record IceCandidateInit : Type 0 where
  pub candidate : String
  pub sdp_mid : Option String
  pub sdp_m_line_index : Option ℕ  -- uint16
  pub username_fragment : Option String

abbrev pub json_rpc_version : String
json_rpc_version = "2.0"

-- `type Method string` and its constants.
abbrev pub Method : Type 0
Method = String

abbrev pub join_method : Method
join_method = "join"

abbrev pub ice_candidate_method : Method
ice_candidate_method = "iceCandidate"

abbrev pub sdp_offer_method : Method
sdp_offer_method = "offer"

abbrev pub sdp_answer_method : Method
sdp_answer_method = "answer"

abbrev pub close_session_method : Method
close_session_method = "close_session"

abbrev pub publish_stream_method : Method
publish_stream_method = "publish"

abbrev pub publish_stream_stop_method : Method
publish_stream_stop_method = "publishStop"

abbrev pub subscribe_stream_method : Method
subscribe_stream_method = "subscribe"

abbrev pub subscribe_stream_cancel_method : Method
subscribe_stream_cancel_method = "subscribeCancel"

-- `type SignalingTarget string`
abbrev pub SignalingTarget : Type 0
SignalingTarget = String

abbrev pub publisher_target : SignalingTarget
publisher_target = "publisher"

abbrev pub receiver_target : SignalingTarget
receiver_target = "receiver"

pub record JsonRpcHead : Type 0 where
  pub version : String
  pub method : Method

pub record IceCandidateParams : Type 0 where
  pub candidate_init : IceCandidateInit
  pub target : SignalingTarget

pub record SdpParams : Type 0 where
  pub session_description : SessionDescription
  pub target : SignalingTarget

pub record SubscribeParams : Type 0 where
  pub user_id : UserSessionId

-- The params of the four messages without any are always nil.
pub data Rpc : Type 0 where
  join_rpc : JsonRpcHead → Rpc
  ice_candidate_rpc : JsonRpcHead → IceCandidateParams → Rpc
  sdp_rpc : JsonRpcHead → SdpParams → Rpc
  close_session_rpc : JsonRpcHead → Rpc
  start_stream_rpc : JsonRpcHead → Rpc
  stop_stream_rpc : JsonRpcHead → Rpc
  subscribe_stream_rpc : JsonRpcHead → SubscribeParams → Rpc
  subscribe_stream_cancel_rpc : JsonRpcHead → SubscribeParams → Rpc

abbrev head_of : Method → JsonRpcHead
head_of m = record { version = json_rpc_version; method = m }

unfoldable pub new_join_rpc : Rpc
new_join_rpc = join_rpc (head_of join_method)

unfoldable pub new_ice_candidate_rpc : IceCandidateInit → SignalingTarget → Rpc
new_ice_candidate_rpc candidate target =
    ice_candidate_rpc (head_of ice_candidate_method)
      (record { candidate_init = candidate; target = target })

unfoldable pub new_sdp_answer_rpc : SessionDescription → SignalingTarget → Rpc
new_sdp_answer_rpc sdp target =
    sdp_rpc (head_of sdp_answer_method) (record { session_description = sdp; target = target })

unfoldable pub new_sdp_offer_rpc : SessionDescription → SignalingTarget → Rpc
new_sdp_offer_rpc sdp target =
    sdp_rpc (head_of sdp_offer_method) (record { session_description = sdp; target = target })

unfoldable pub new_close_session_rpc : Rpc
new_close_session_rpc = close_session_rpc (head_of close_session_method)

unfoldable pub new_start_stream_rpc : Rpc
new_start_stream_rpc = start_stream_rpc (head_of publish_stream_method)

unfoldable pub new_stop_stream_rpc : Rpc
new_stop_stream_rpc = stop_stream_rpc (head_of publish_stream_stop_method)

unfoldable pub new_subscribe_stream_rpc : UserSessionId → Rpc
new_subscribe_stream_rpc user_id =
    subscribe_stream_rpc (head_of subscribe_stream_method) (record { user_id = user_id })

unfoldable pub new_subscribe_stream_cancel_rpc : UserSessionId → Rpc
new_subscribe_stream_cancel_rpc user_id =
    subscribe_stream_cancel_rpc (head_of subscribe_stream_cancel_method)
      (record { user_id = user_id })

-- `GetMethod`, which every struct answers from its head.
unfoldable pub get_method : Rpc → Method
get_method (join_rpc h) = h.method
get_method (ice_candidate_rpc h p) = h.method
get_method (sdp_rpc h p) = h.method
get_method (close_session_rpc h) = h.method
get_method (start_stream_rpc h) = h.method
get_method (stop_stream_rpc h) = h.method
get_method (subscribe_stream_rpc h p) = h.method
get_method (subscribe_stream_cancel_rpc h p) = h.method
