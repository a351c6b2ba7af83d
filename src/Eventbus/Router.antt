-- ===== src/Eventbus/Router.antt =====
-- internal/eventbus/router.go: the messages of the server channel are given to the callbacks, one
-- after the other, until the router is stopped.
use livelook_sfu.Common.{
  List, [], ◌∷◌, ◌==◌, string_eq, if◌then◌else◌, Outcome, ok, err, panic, Error,
}
use livelook_sfu.Eventbus.Rpc.{
  UserSessionId, Rpc, join_rpc, ice_candidate_rpc, sdp_rpc, subscribe_stream_rpc,
  subscribe_stream_cancel_rpc, get_method, Method, IceCandidateParams, SdpParams, join_method,
  ice_candidate_method, sdp_offer_method, close_session_method, publish_stream_method,
  publish_stream_stop_method, subscribe_stream_method, subscribe_stream_cancel_method,
}
use livelook_sfu.Eventbus.Decoding.{Codec, parse_rpc}

-- The callbacks of `Router`, on the state that they share.
pub record Callbacks (State : Type 0) : Type 0 where
  pub on_add_ice_candidate : UserSessionId → IceCandidateParams → State → Outcome (Unit {0}) × State
  pub on_offer : UserSessionId → SdpParams → State → Outcome (Unit {0}) × State
  pub on_join : UserSessionId → State → Outcome (Unit {0}) × State
  pub on_close_session : UserSessionId → State → Outcome (Unit {0}) × State
  pub on_publish_stream : UserSessionId → State → Outcome (Unit {0}) × State
  pub on_stop_stream : UserSessionId → State → Outcome (Unit {0}) × State
  pub on_subscribe_stream : UserSessionId → UserSessionId → State → Outcome (Unit {0}) × State
  pub on_subscribe_stream_cancel :
      UserSessionId → UserSessionId → State → Outcome (Unit {0}) × State

-- What the log is told when a message is handled.
pub data Handled : Type 0 where
  served : Handled
  cannot_parse : Handled
  cannot_convert : Handled
  undefined_method : Handled
  callback_failed : Error → Handled
  crashed : Handled

abbrev pub logged : {State : Type 0} → Outcome (Unit {0}) × State → Handled × State
logged (ok _, s) = (served, s)
logged (err e, s) = (callback_failed e, s)
logged (panic, s) = (crashed, s)

module _ {State : Type 0} (callbacks : Callbacks State) where
  abbrev pub as_ice_candidate : UserSessionId → Rpc → State → Handled × State
  as_ice_candidate user (ice_candidate_rpc h p) s = logged (callbacks.on_add_ice_candidate user p s)
  as_ice_candidate user r s = (cannot_convert, s)

  abbrev pub as_join : UserSessionId → Rpc → State → Handled × State
  as_join user (join_rpc h) s = logged (callbacks.on_join user s)
  as_join user r s = (cannot_convert, s)

  abbrev pub as_offer : UserSessionId → Rpc → State → Handled × State
  as_offer user (sdp_rpc h p) s = logged (callbacks.on_offer user p s)
  as_offer user r s = (cannot_convert, s)

  abbrev pub as_subscribe : UserSessionId → Rpc → State → Handled × State
  as_subscribe user (subscribe_stream_rpc h p) s =
      logged (callbacks.on_subscribe_stream user p.user_id s)
  as_subscribe user r s = (cannot_convert, s)

  abbrev pub as_subscribe_cancel : UserSessionId → Rpc → State → Handled × State
  as_subscribe_cancel user (subscribe_stream_cancel_rpc h p) s =
      logged (callbacks.on_subscribe_stream_cancel user p.user_id s)
  as_subscribe_cancel user r s = (cannot_convert, s)

  -- The `switch` on `r.GetMethod()`.
  unfoldable pub dispatch : Method → UserSessionId → Rpc → State → Handled × State
  dispatch method user r s =
      if method == ice_candidate_method
      then as_ice_candidate user r s
      else if method == join_method
      then as_join user r s
      else if method == sdp_offer_method
      then as_offer user r s
      else if method == close_session_method
      then logged (callbacks.on_close_session user s)
      else if method == publish_stream_method
      then logged (callbacks.on_publish_stream user s)
      else if method == publish_stream_stop_method
      then logged (callbacks.on_stop_stream user s)
      else if method == subscribe_stream_method
      then as_subscribe user r s
      else if method == subscribe_stream_cancel_method
      then as_subscribe_cancel user r s
      else (undefined_method, s)

  abbrev pub parsed : Outcome (UserSessionId × Rpc) → State → Handled × State
  parsed (ok (user, r)) s = dispatch (get_method r) user r s
  parsed (err e) s = (cannot_parse, s)
  parsed panic s = (crashed, s)

module _ {State Bytes Params : Type 0} (callbacks : Callbacks State)
    (codec : Codec Bytes Params) where
  -- The body of the loop for one message.
  unfoldable pub handle_payload : Bytes → State → Handled × State
  unfolding parse_rpc dispatch get_method
  handle_payload payload s = parsed callbacks (parse_rpc codec payload) s

-- What `select` receives, in the order in which it does. The callbacks stand with each message,
-- since the code that they call may answer differently each time.
pub data Received (State Bytes : Type 0) : Type 0 where
  payload_received : Callbacks State → Bytes → Received State Bytes
  stop_received : Received State Bytes

-- A panic of a callback ends the process, and the loop with it.
abbrev pub next_round : {State : Type 0} → Handled × State → (State → State) → State
next_round (crashed, s) rest = s
next_round (h, s) rest = rest s

module _ {State Bytes Params : Type 0} (codec : Codec Bytes Params) where
  -- The loop of `Start`: it returns once it is stopped.
  unfoldable pub serve : List (Received State Bytes) → State → State
  unfolding handle_payload
  serve [] s = s
  serve (stop_received ∷ rest) s = s
  serve (payload_received callbacks payload ∷ rest) s =
      next_round (handle_payload callbacks codec payload s) (serve rest)
