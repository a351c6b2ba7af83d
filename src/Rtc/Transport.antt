-- ===== src/Rtc/Transport.antt =====
-- internal/rtc/transport.go: a peer connection, and the ICE candidates that wait for its remote
-- description. The peer connection itself is third-party: an interface over an abstract state.
pub mod Laws
use livelook_sfu.Common.{
  Bool, true, false, Option, none, some, List, [], ◌∷◌, ◌++◌, ◌==◌, string_eq, if◌then◌else◌,
  Outcome, ok, err, panic, Error, return_error,
}
use livelook_sfu.Config.{EnabledCodecs, DirectionConfig, WebRtcConfig, WebRtcNames}
use livelook_sfu.Eventbus.Rpc.{
  SessionDescription, IceCandidateInit, SignalingTarget, publisher_target, receiver_target,
}
use livelook_sfu.Rtc.MediaEngine.{CodecTable, EngineApi, create_media_engine}

-- The methods of `webrtc.PeerConnection` that are called. A method that changes the connection
-- returns it; an error is the third party's to choose.
pub record PeerApi (Peer : Type 0) : Type 0 where
  pub remote_description : Peer → Option SessionDescription
  pub set_remote_description : Peer → SessionDescription → Option Error × Peer
  pub add_ice_candidate : Peer → IceCandidateInit → Option Error × Peer
  pub create_answer : Peer → Outcome SessionDescription
  pub set_local_description : Peer → SessionDescription → Option Error × Peer
  pub local_description : Peer → Option SessionDescription
  pub close_peer : Peer → Peer

-- `PCTransport`. The media engine `me` is only kept, and the stream allocator only logs.
pub record PcTransport (Peer : Type 0) : Type 0 where
  pub pc : Peer
  pub stream_allocator : Bool
  pub pending_candidates : List IceCandidateInit

pub record TransportParams : Type 0 where
  pub enabled_codecs : EnabledCodecs
  pub rtc_config : WebRtcConfig
  pub target : SignalingTarget

abbrev pub direction_of : TransportParams → DirectionConfig
direction_of params =
    if params.target == publisher_target
    then params.rtc_config.publisher_config
    else params.rtc_config.subscriber_config

module _ {Engine Peer : Type 0} (engines : EngineApi Engine) (names : WebRtcNames) where
  abbrev pub from_engine : Outcome Engine → (Engine → Outcome Peer) → Outcome Peer
  from_engine (err e) open_peer = err e
  from_engine panic open_peer = panic
  from_engine (ok engine) open_peer = open_peer engine

  -- `open_peer` is `api.NewPeerConnection`, with the settings of the source.
  unfoldable pub new_peer_connection :
      (Engine → Outcome Peer) → TransportParams → CodecTable → Outcome Peer × CodecTable
  new_peer_connection open_peer params table =
      let (engine, table') =
        create_media_engine engines names params.enabled_codecs (direction_of params) params.target
          table in
      (from_engine engine open_peer, table')

  abbrev pub transport_over : SignalingTarget → Outcome Peer → Outcome (PcTransport Peer)
  transport_over target (err e) = err e
  transport_over target panic = panic
  transport_over target (ok pc) =
      ok (record { pc = pc; stream_allocator = target == receiver_target; pending_candidates = [] })

  unfoldable pub new_pc_transport :
      (Engine → Outcome Peer)
      → TransportParams
      → CodecTable
      → Outcome (PcTransport Peer) × CodecTable
  unfolding new_peer_connection
  new_pc_transport open_peer params table =
      let (pc, table') = new_peer_connection open_peer params table in
      (transport_over params.target pc, table')

module _ {Peer : Type 0} (api : PeerApi Peer) where
  -- The error of `pc.AddICECandidate` is dropped here.
  unfoldable pub transport_add_ice_candidate :
      PcTransport Peer → IceCandidateInit → Outcome (Unit {0}) × PcTransport Peer
  transport_add_ice_candidate t candidate = elim (api.remote_description t.pc) [
    | some _ ↦ (ok tt, record t { pc = (api.add_ice_candidate t.pc candidate).1 })
    | none ↦ (ok tt, record t { pending_candidates = t.pending_candidates ++ candidate ∷ [] })
  ]

  -- The loop over the pending candidates, which returns at the first error.
  unfoldable pub flush_candidates : List IceCandidateInit → Peer → Option Error × Peer
  flush_candidates [] pc = (none, pc)
  flush_candidates (candidate ∷ rest) pc =
      let (e, pc') = api.add_ice_candidate pc candidate in
      elim e [ some x ↦ (some x, pc') | none ↦ flush_candidates rest pc' ]

  abbrev pub flushed :
      PcTransport Peer → Option Error × Peer → Outcome (Unit {0}) × PcTransport Peer
  flushed t (some e, pc) = (err e, record t { pc = pc })
  flushed t (none, pc) = (ok tt, record t { pc = pc; pending_candidates = [] })

  abbrev pub described :
      PcTransport Peer → Option Error × Peer → Outcome (Unit {0}) × PcTransport Peer
  described t (some e, pc) = (err e, record t { pc = pc })
  described t (none, pc) = flushed t (flush_candidates t.pending_candidates pc)

  unfoldable pub transport_set_remote_description :
      PcTransport Peer → SessionDescription → Outcome (Unit {0}) × PcTransport Peer
  unfolding flush_candidates
  transport_set_remote_description t sdp = described t (api.set_remote_description t.pc sdp)

  unfoldable pub transport_close : PcTransport Peer → PcTransport Peer
  transport_close t = record t { pc = api.close_peer t.pc }
