-- ===== src/Rtc/Participant/Methods.antt =====
-- The methods and the callbacks of internal/rtc/participant.go, on a participant of the node.
use livelook_sfu.Common.{
  ℕ, true, false, Option, none, some, String, List, [], ◌∷◌, set, lookup, insert, ◌==◌, nat_eq,
  string_eq, if◌then◌else◌, Outcome, ok, err, panic, Error,
}
use livelook_sfu.Eventbus.Rpc.{
  UserSessionId, Rpc, SessionDescription, IceCandidateInit, IceCandidateParams, SdpParams,
  SignalingTarget, publisher_target, new_ice_candidate_rpc, new_sdp_answer_rpc,
}
use livelook_sfu.Rtc.Ports.{PortsAllocator, deallocate}
use livelook_sfu.Rtc.Transport.{
  PeerApi, PcTransport, transport_add_ice_candidate, transport_set_remote_description,
  transport_close,
}
use livelook_sfu.Rtc.Node.{MediaTrack, Participant, TranscoderMessage, stop_transcoder, Node}
use livelook_sfu.Rtc.Participant.{reliable_data_channel}

-- `webrtc.PeerConnectionState`
pub data ConnectionState : Type 0 where
  new_connection connecting connected disconnected failed closed : ConnectionState

-- `sink.PublishClient`: a message that the bus refuses is not published.
unfoldable pub publish_client :
    {Peer : Type 0}
    → Option Error
    → UserSessionId
    → Rpc
    → Node Peer
    → Outcome (Unit {0}) × Node Peer
publish_client (some e) user rpc node = (err e, node)
publish_client none user rpc node =
    (ok tt, record node { client_messages = (user, rpc) ∷ node.client_messages })

-- The loop over `allocatedPorts`.
unfoldable pub deallocate_all : List (ℕ × ℕ) → PortsAllocator → PortsAllocator
deallocate_all [] ports = ports
deallocate_all ((payload_type, port) ∷ rest) ports = deallocate_all rest (deallocate port ports)

abbrev pub ports_of : Option (List (ℕ × ℕ)) → List (ℕ × ℕ)
ports_of none = []
ports_of (some allocated) = allocated

abbrev pub tracks_of : Option (List (String × MediaTrack)) → List (String × MediaTrack)
tracks_of none = []
tracks_of (some tracks) = tracks

abbrev pub close_track : MediaTrack → Outcome (Unit {0}) → Outcome (Unit {0})
close_track t rest = if t.conn_open then rest else panic

-- The loop over `publishedTracks`. The error of a connection is logged; a `conn` that is nil, since the
-- track has not been dialled, is dereferenced.
unfoldable pub close_tracks : List (String × MediaTrack) → Outcome (Unit {0})
close_tracks [] = ok tt
close_tracks ((id, t) ∷ tracks) = let rest = close_tracks tracks in close_track t rest

abbrev pub publish_stop :
    Option Error → UserSessionId → List TranscoderMessage → List TranscoderMessage
publish_stop (some e) user messages = messages
publish_stop none user messages = stop_transcoder user ∷ messages

module _ {Peer : Type 0} where
  abbrev pub put : ℕ → Participant Peer → Node Peer → Node Peer
  put at p node = record node { participants = set node.participants at p }

  -- `sendICECandidate`; the end of the candidates is nil, and is not sent.
  unfoldable pub send_ice_candidate :
      Option Error
      → Participant Peer
      → Option IceCandidateInit
      → SignalingTarget
      → Node Peer
      → Outcome (Unit {0}) × Node Peer
  unfolding publish_client
  send_ice_candidate reply p none target node = (ok tt, node)
  send_ice_candidate reply p (some candidate) target node =
      publish_client reply p.id (new_ice_candidate_rpc candidate target) node

  abbrev pub answered :
      Option Error
      → Participant Peer
      → Option SessionDescription
      → Node Peer
      → Outcome (Unit {0}) × Node Peer
  answered reply p none node = (panic, node)
  answered reply p (some local) node =
      publish_client reply p.id (new_sdp_answer_rpc local publisher_target) node

  -- `onDataChannel`: only the reliable channel is kept.
  unfoldable pub on_data_channel : ℕ → Participant Peer → String → Node Peer → Node Peer
  on_data_channel at p label node =
      if label == reliable_data_channel
      then put at (record p { reliable_dc = some label }) node
      else node

  -- `p.allocatedPorts[payloadType]`: 0 for a type that is not there, and for any type of a nil map.
  unfoldable pub port_of : Participant Peer → ℕ → ℕ
  port_of p payload_type = elim p.allocated_ports [
    | none ↦ 0
    | some allocated ↦ elim (lookup payload_type allocated) [ none ↦ 0 | some port ↦ port ]
  ]

  abbrev pub new_media_track : Participant Peer → String → ℕ → MediaTrack
  new_media_track p track payload_type = record {
    track_id = track;
    transcoder_port = port_of p payload_type;
    track_payload_type = payload_type;
    conn_open = false;
  }

  abbrev pub publish_track :
      ℕ
      → Participant Peer
      → MediaTrack
      → Option (List (String × MediaTrack))
      → Node Peer
      → Outcome (Unit {0}) × Node Peer
  publish_track at p track none node = (panic, node)
  publish_track at p track (some tracks) node = (
    ok tt,
    put at (record p { published_tracks = some (insert track.track_id track tracks) }) node,
  )

  -- `onMediaTrack` up to `ForwardRTP`; `resolved` is the error of `ResolveUDPAddr`. A write to
  -- the nil map of a closed participant panics.
  unfoldable pub on_media_track :
      Option Error → ℕ → Participant Peer → String → ℕ → Node Peer → Outcome (Unit {0}) × Node Peer
  unfolding port_of
  on_media_track (some e) at p track payload_type node = (ok tt, node)
  on_media_track none at p track payload_type node =
      publish_track at p (new_media_track p track payload_type) p.published_tracks node

  abbrev pub dialled_track :
      ℕ → Participant Peer → List (String × MediaTrack) → Option MediaTrack → Node Peer → Node Peer
  dialled_track at p tracks none node = node
  dialled_track at p tracks (some t) node =
      put at
        (record p {
          published_tracks = some (insert t.track_id (record t { conn_open = true }) tracks);
        })
        node

  abbrev pub dial_among :
      ℕ → Participant Peer → String → Option (List (String × MediaTrack)) → Node Peer → Node Peer
  dial_among at p track none node = node
  dial_among at p track (some tracks) node = dialled_track at p tracks (lookup track tracks) node

  -- The addresses and the dial that `ForwardRTP` begins with, in the goroutine of the callback: an
  -- error leaves `conn` nil. A track that `Close` has taken from the map is out of reach; the tracks of
  -- a connection have different IDs.
  unfoldable pub dial_track : Option Error → ℕ → Participant Peer → String → Node Peer → Node Peer
  dial_track (some e) at p track node = node
  dial_track none at p track node = dial_among at p track p.published_tracks node

module _ {Peer : Type 0} (api : PeerApi Peer) where
  abbrev pub added :
      ℕ
      → Participant Peer
      → Node Peer
      → Outcome (Unit {0}) × PcTransport Peer
      → Outcome (Unit {0}) × Node Peer
  added at p node (r, t) = (r, put at (record p { publisher = t }) node)

  abbrev pub added_subscriber :
      ℕ
      → Participant Peer
      → Node Peer
      → Outcome (Unit {0}) × PcTransport Peer
      → Outcome (Unit {0}) × Node Peer
  added_subscriber at p node (r, t) = (r, put at (record p { subscriber = some t }) node)

  abbrev pub add_to_subscriber :
      ℕ
      → Participant Peer
      → Option (PcTransport Peer)
      → IceCandidateInit
      → Node Peer
      → Outcome (Unit {0}) × Node Peer
  add_to_subscriber at p none candidate node = (panic, node)
  add_to_subscriber at p (some t) candidate node =
      added_subscriber at p node (transport_add_ice_candidate api t candidate)

  -- A target other than the publisher goes to `p.subscriber`, and a nil one is dereferenced.
  unfoldable pub participant_add_ice_candidate :
      ℕ → Participant Peer → IceCandidateParams → Node Peer → Outcome (Unit {0}) × Node Peer
  participant_add_ice_candidate at p params node =
      if params.target == publisher_target
      then added at p node (transport_add_ice_candidate api p.publisher params.candidate_init)
      else add_to_subscriber at p p.subscriber params.candidate_init node

  abbrev pub localized :
      Option Error
      → ℕ
      → Participant Peer
      → Option Error × Peer
      → Node Peer
      → Outcome (Unit {0}) × Node Peer
  localized reply at p (some e, pc) node =
      (err e, put at (record p { publisher = record p.publisher { pc = pc } }) node)
  localized reply at p (none, pc) node =
      answered reply p (api.local_description pc)
        (put at (record p { publisher = record p.publisher { pc = pc } }) node)

  abbrev pub with_answer :
      Option Error
      → ℕ
      → Participant Peer
      → Outcome SessionDescription
      → Node Peer
      → Outcome (Unit {0}) × Node Peer
  with_answer reply at p (err e) node = (err e, put at p node)
  with_answer reply at p panic node = (panic, put at p node)
  with_answer reply at p (ok answer) node =
      localized reply at p (api.set_local_description p.publisher.pc answer) node

  abbrev pub with_remote :
      Option Error
      → ℕ
      → Participant Peer
      → Outcome (Unit {0}) × PcTransport Peer
      → Node Peer
      → Outcome (Unit {0}) × Node Peer
  with_remote reply at p (err e, t) node = (err e, put at (record p { publisher = t }) node)
  with_remote reply at p (panic, t) node = (panic, put at (record p { publisher = t }) node)
  with_remote reply at p (ok _, t) node =
      with_answer reply at (record p { publisher = t }) (api.create_answer t.pc) node

  -- `HandleOffer`; `reply` is what the bus answers to the answer that is published.
  unfoldable pub participant_handle_offer :
      Option Error → ℕ → Participant Peer → SdpParams → Node Peer → Outcome (Unit {0}) × Node Peer
  unfolding publish_client
  participant_handle_offer reply at p params node =
      if params.target == publisher_target
      then with_remote reply at p
          (transport_set_remote_description api p.publisher params.session_description) node
      else (ok tt, node)

  abbrev pub closed_participant : Participant Peer → Participant Peer
  closed_participant p = record p {
    publisher = transport_close api p.publisher;
    published_tracks = none;
    allocated_ports = none;
  }

  -- What `Close` leaves once the tracks are closed; `reply` is what NATS answers to the stop message,
  -- whose error is logged.
  abbrev pub closed_node : Option Error → ℕ → Participant Peer → Node Peer → Node Peer
  closed_node reply at p node = record node {
    ports = deallocate_all (ports_of p.allocated_ports) node.ports;
    participants = set node.participants at (closed_participant p);
    transcoder_messages = publish_stop reply p.id node.transcoder_messages;
  }

  abbrev pub once_closed :
      Option Error
      → ℕ
      → Participant Peer
      → Outcome (Unit {0})
      → Node Peer
      → Outcome (Unit {0}) × Node Peer
  once_closed reply at p (ok _) node = (ok tt, closed_node reply at p node)
  once_closed reply at p (err e) node = (err e, node)
  once_closed reply at p panic node = (panic, node)

  -- `Close`. After a panic the process is gone, and with it the tracks that were closed before.
  unfoldable pub close_participant :
      Option Error → ℕ → Participant Peer → Node Peer → Outcome (Unit {0}) × Node Peer
  unfolding deallocate_all close_tracks
  close_participant reply at p node =
      once_closed reply at p (close_tracks (tracks_of p.published_tracks)) node

  -- `handlePrimaryStateChange`
  unfoldable pub handle_primary_state_change :
      Option Error
      → ℕ
      → Participant Peer
      → ConnectionState
      → Node Peer
      → Outcome (Unit {0}) × Node Peer
  unfolding close_participant
  handle_primary_state_change reply at p failed node = close_participant reply at p node
  handle_primary_state_change reply at p state node = (ok tt, node)
