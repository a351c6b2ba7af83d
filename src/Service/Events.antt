-- ===== src/Service/Events.antt =====
-- What happens to the server: the messages that internal/eventbus/router.go hands to the session
-- manager, one after the other, and the callbacks of the peer connections between them.
use livelook_sfu.Common.{
  ℕ, Option, none, some, String, List, [], ◌∷◌, get_elem?, Outcome, ok, err, panic, Error,
}
use livelook_sfu.Eventbus.Rpc.{
  UserSessionId, IceCandidateInit, IceCandidateParams, SdpParams, publisher_target,
}
use livelook_sfu.Rtc.Node.{Participant, Node}
use livelook_sfu.Rtc.Participant.Methods.{
  ConnectionState, send_ice_candidate, on_data_channel, on_media_track, dial_track,
  handle_primary_state_change,
}
use livelook_sfu.Service.{
  Manager, Result, Setup, Replies, start_session, handle_offer, add_ice_candidate, close_session,
  publish_stream, stop_stream, subscribe, unsubscribe,
}

-- A callback of a peer connection, with what the code that it calls answers.
pub data Callback : Type 0 where
  candidate_found : Option Error → Option IceCandidateInit → Callback
  state_changed : Option Error → ConnectionState → Callback
  data_channel_opened : String → Callback
  track_started : Option Error → String → ℕ → Callback
  track_dialled : Option Error → String → Callback

pub data Event (Engine Peer : Type 0) : Type 0 where
  joins closes publishes stops : Replies Engine Peer → UserSessionId → Event Engine Peer
  offers : Replies Engine Peer → UserSessionId → SdpParams → Event Engine Peer
  sends_candidate : UserSessionId → IceCandidateParams → Event Engine Peer
  subscribes unsubscribes : UserSessionId → UserSessionId → Event Engine Peer
  called_back : ℕ → Callback → Event Engine Peer

module _ {Engine Peer : Type 0} (setup : Setup Engine Peer) where
  -- The callbacks that `NewParticipant` registers, on the participant that registered them.
  unfoldable pub call_back :
      Callback → ℕ → Participant Peer → Node Peer → Outcome (Unit {0}) × Node Peer
  call_back (candidate_found reply candidate) at p node =
      send_ice_candidate reply p candidate publisher_target node
  call_back (state_changed reply state) at p node =
      handle_primary_state_change setup.peers reply at p state node
  call_back (data_channel_opened label) at p node = (ok tt, on_data_channel at p label node)
  call_back (track_started resolved track payload_type) at p node =
      on_media_track resolved at p track payload_type node
  call_back (track_dialled reply track) at p node = (ok tt, dial_track reply at p track node)

  abbrev pub at_participant : Callback → ℕ → Option (Participant Peer) → Manager Peer → Result Peer
  at_participant c at none m = (ok tt, m)
  at_participant c at (some p) m =
      let (r, node) = call_back c at p m.node in (r, record m { node = node })

  unfoldable pub step : Event Engine Peer → Manager Peer → Result Peer
  unfolding call_back
  step (joins replies user) m = start_session setup replies user m
  step (closes replies user) m = close_session setup replies user m
  step (publishes replies user) m = publish_stream setup replies user m
  step (stops replies user) m = stop_stream setup replies user m
  step (offers replies user params) m = handle_offer setup replies user params m
  step (sends_candidate user params) m = add_ice_candidate setup user params m
  step (subscribes user streamer) m = subscribe setup user streamer m
  step (unsubscribes user streamer) m = unsubscribe setup user streamer m
  step (called_back at c) m = at_participant c at (get_elem? m.node.participants at) m

  -- Errors are logged and the next event is served; a panic ends the process.
  abbrev pub then_run : Result Peer → (Manager Peer → Manager Peer) → Manager Peer
  then_run (ok _, m) rest = rest m
  then_run (err e, m) rest = rest m
  then_run (panic, m) rest = m

  unfoldable pub run : List (Event Engine Peer) → Manager Peer → Manager Peer
  unfolding step
  run [] m = m
  run (e ∷ es) m = then_run (step e m) (run es)
