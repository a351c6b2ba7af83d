-- ===== src/Service/Routing.antt =====
-- How the router of internal/eventbus/router.go drives the session manager: `NewSessionsManager`
-- registers a method of it for each kind of message.
use livelook_sfu.Common.{
  ◌≡◌, refl, ap, map, ◌∙◌, inl, inr, Option, none, some, List, [], ◌∷◌, ◌==◌, string_eq,
  if◌then◌else◌, Outcome, ok, err, panic,
}
use livelook_sfu.Eventbus.Rpc.{
  UserSessionId, Rpc, join_rpc, ice_candidate_rpc, sdp_rpc, close_session_rpc, start_stream_rpc,
  stop_stream_rpc, subscribe_stream_rpc, subscribe_stream_cancel_rpc, get_method, sdp_offer_method,
}
use livelook_sfu.Eventbus.Decoding.{Codec, parse_rpc}
use livelook_sfu.Eventbus.Decoding.Laws.{Canonical, Parses, parse_rpc-Parses}
use livelook_sfu.Eventbus.Router.{
  Callbacks, Handled, cannot_parse, undefined_method, crashed, logged, dispatch, parsed,
  handle_payload, Received, payload_received, stop_received, next_round, serve,
}
use livelook_sfu.Service.{
  Manager, Result, Setup, Replies, start_session, handle_offer, add_ice_candidate, close_session,
  publish_stream, stop_stream, subscribe, unsubscribe,
}
use livelook_sfu.Service.Events.{
  Event, joins, closes, publishes, stops, offers, sends_candidate, subscribes, unsubscribes, step,
  run, then_run,
}

module _ {Engine Peer : Type 0} (setup : Setup Engine Peer) where
  -- The callbacks that `NewSessionsManager` registers.
  unfoldable pub callbacks_of : Replies Engine Peer → Callbacks (Manager Peer)
  callbacks_of replies = record {
    on_add_ice_candidate = add_ice_candidate setup;
    on_offer = handle_offer setup replies;
    on_join = start_session setup replies;
    on_close_session = close_session setup replies;
    on_publish_stream = publish_stream setup replies;
    on_stop_stream = stop_stream setup replies;
    on_subscribe_stream = subscribe setup;
    on_subscribe_stream_cancel = unsubscribe setup;
  }

  -- What an RPC of a user asks of the session manager; an answer asks nothing.
  abbrev pub event_of : Replies Engine Peer → UserSessionId → Rpc → Option (Event Engine Peer)
  event_of replies user (join_rpc h) = some (joins replies user)
  event_of replies user (ice_candidate_rpc h p) = some (sends_candidate user p)
  event_of replies user (sdp_rpc h p) =
      if h.method == sdp_offer_method then some (offers replies user p) else none
  event_of replies user (close_session_rpc h) = some (closes replies user)
  event_of replies user (start_stream_rpc h) = some (publishes replies user)
  event_of replies user (stop_stream_rpc h) = some (stops replies user)
  event_of replies user (subscribe_stream_rpc h p) = some (subscribes user p.user_id)
  event_of replies user (subscribe_stream_cancel_rpc h p) = some (unsubscribes user p.user_id)

  abbrev pub performed : Option (Event Engine Peer) → Manager Peer → Handled × Manager Peer
  performed none m = (undefined_method, m)
  performed (some e) m = logged (step setup e m)

  abbrev pub asked :
      Replies Engine Peer → Outcome (UserSessionId × Rpc) → Manager Peer → Handled × Manager Peer
  asked replies (ok (user, r)) m = performed (event_of replies user r) m
  asked replies (err e) m = (cannot_parse, m)
  asked replies panic m = (crashed, m)

  dispatch-performed :
      (replies : Replies Engine Peer) (user : UserSessionId) (r : Rpc) (m : Manager Peer)
      → Canonical r
      → dispatch (callbacks_of replies) (get_method r) user r m
        ≡ performed (event_of replies user r) m
  unfolding dispatch get_method step callbacks_of
  dispatch-performed replies user (join_rpc h) m c = rw c refl
  dispatch-performed replies user (ice_candidate_rpc h p) m c = rw c refl
  dispatch-performed replies user (sdp_rpc h p) m (inl c) = rw c refl
  dispatch-performed replies user (sdp_rpc h p) m (inr c) = rw c refl
  dispatch-performed replies user (close_session_rpc h) m c = rw c refl
  dispatch-performed replies user (start_stream_rpc h) m c = rw c refl
  dispatch-performed replies user (stop_stream_rpc h) m c = rw c refl
  dispatch-performed replies user (subscribe_stream_rpc h p) m c = rw c refl
  dispatch-performed replies user (subscribe_stream_cancel_rpc h p) m c = rw c refl

  parsed-asked :
      (replies : Replies Engine Peer) (x : Outcome (UserSessionId × Rpc)) (m : Manager Peer)
      → Parses x
      → parsed (callbacks_of replies) x m ≡ asked replies x m
  parsed-asked replies (ok (user, r)) m c = dispatch-performed replies user r m c
  parsed-asked replies (err e) m c = refl
  parsed-asked replies panic m c = refl

  module _ {Bytes Params : Type 0} (codec : Codec Bytes Params) where
    -- For every payload: one that cannot be parsed changes nothing; an answer is an undefined
    -- method and changes nothing; any other RPC is the step of the session manager for the user
    -- and the params that it names. No conversion of an RPC fails.
    pub handle_payload_lem :
        (replies : Replies Engine Peer) (payload : Bytes) (m : Manager Peer)
        → handle_payload (callbacks_of replies) codec payload m
          ≡ asked replies (parse_rpc codec payload) m
    unfolding handle_payload
    handle_payload_lem replies payload m =
        parsed-asked replies (parse_rpc codec payload) m (parse_rpc-Parses codec payload)

    -- What comes in: messages, each with what the code that its handler calls answers, and the
    -- call of `Stop`.
    abbrev pub received : Option (Replies Engine Peer × Bytes) → Received (Manager Peer) Bytes
    received none = stop_received
    received (some (replies, payload)) = payload_received (callbacks_of replies) payload

    -- The events that the messages before the stop ask for, in their order.
    abbrev pub event_then :
        Option (Event Engine Peer) → List (Event Engine Peer) → List (Event Engine Peer)
    event_then none es = es
    event_then (some e) es = e ∷ es

    abbrev pub asked_then :
        Replies Engine Peer
        → Outcome (UserSessionId × Rpc)
        → List (Event Engine Peer)
        → List (Event Engine Peer)
    asked_then replies (ok (user, r)) es = event_then (event_of replies user r) es
    asked_then replies (err e) es = es
    asked_then replies panic es = []

    abbrev pub events_of : List (Option (Replies Engine Peer × Bytes)) → List (Event Engine Peer)
    events_of [] = []
    events_of (none ∷ inputs) = []
    events_of (some (replies, payload) ∷ inputs) =
        asked_then replies (parse_rpc codec payload) (events_of inputs)

    logged-round :
        (r : Result Peer) (rest rest' : Manager Peer → Manager Peer)
        → ((m : Manager Peer) → rest m ≡ rest' m)
        → next_round (logged r) rest ≡ then_run setup r rest'
    logged-round (ok _, m) rest rest' h = h m
    logged-round (err e, m) rest rest' h = h m
    logged-round (panic, m) rest rest' h = refl

    performed-round :
        (e : Option (Event Engine Peer)) (m : Manager Peer) (rest : Manager Peer → Manager Peer)
        (es : List (Event Engine Peer))
        → ((n : Manager Peer) → rest n ≡ run setup es n)
        → next_round (performed e m) rest ≡ run setup (event_then e es) m
    unfolding run
    performed-round none m rest es h = h m
    performed-round (some e) m rest es h = logged-round (step setup e m) rest (run setup es) h

    asked-round :
        (replies : Replies Engine Peer) (x : Outcome (UserSessionId × Rpc)) (m : Manager Peer)
        (rest : Manager Peer → Manager Peer) (es : List (Event Engine Peer))
        → ((n : Manager Peer) → rest n ≡ run setup es n)
        → next_round (asked replies x m) rest ≡ run setup (asked_then replies x es) m
    unfolding run
    asked-round replies (ok (user, r)) m rest es h =
        performed-round (event_of replies user r) m rest es h
    asked-round replies (err e) m rest es h = h m
    asked-round replies panic m rest es h = refl

    -- The loop of the router, on any messages, is the run of the events that the messages before
    -- the stop ask for, each once and in their order.
    pub serve-run :
        (inputs : List (Option (Replies Engine Peer × Bytes))) (m : Manager Peer)
        → serve codec (map received inputs) m ≡ run setup (events_of inputs) m
    unfolding serve run
    serve-run [] m = refl
    serve-run (none ∷ inputs) m = refl
    serve-run (some (replies, payload) ∷ inputs) m =
        ap (λ h. next_round h (serve codec (map received inputs)))
          (handle_payload_lem replies payload m)
        ∙ asked-round replies (parse_rpc codec payload) m (serve codec (map received inputs))
            (events_of inputs) (serve-run inputs)
