-- ===== src/Rtc/Ownership/Methods.antt =====
-- Every method and every callback of internal/rtc/participant.go keeps the invariant.
use livelook_sfu.Common.{
  ℕ, ◌≡◌, refl, Bool, true, false, Option, none, some, String, List, lookup, get_elem?, ◌==◌,
  string_eq, if◌then◌else◌, Outcome, ok, err, panic, Error,
}
use livelook_sfu.Eventbus.Rpc.{
  UserSessionId, Rpc, SessionDescription, IceCandidateInit, IceCandidateParams, SdpParams,
  SignalingTarget, publisher_target,
}
use livelook_sfu.Rtc.Transport.{PeerApi, PcTransport}
use livelook_sfu.Rtc.Node.{Participant, Node, MediaTrack}
use livelook_sfu.Rtc.Participant.{reliable_data_channel}
use livelook_sfu.Rtc.Participant.Methods.{
  ConnectionState, new_connection, connecting, connected, disconnected, failed, closed,
  publish_client, participant_add_ice_candidate, add_to_subscriber, send_ice_candidate, answered,
  localized, with_answer, with_remote, participant_handle_offer, on_data_channel, publish_track,
  on_media_track, dialled_track, dial_among, dial_track, handle_primary_state_change,
}
use livelook_sfu.Rtc.Ownership.Invariant.{NodeInv, put-NodeInv, close_participant-NodeInv}

if_cases {ℓ κ} :
    {A : Type ℓ} (P : A → Type κ) (b : Bool) {x y : A} → P x → P y → P (if b then x else y)
if_cases P true p q = p
if_cases P false p q = q

module _ {Peer : Type 0} (range : ℕ → Bool) (at : ℕ) (node : Node Peer) where
  pub publish_client-NodeInv :
      (reply : Option Error) (user : UserSessionId) (rpc : Rpc)
      → NodeInv range node
      → NodeInv range (publish_client reply user rpc node).1
  unfolding publish_client
  publish_client-NodeInv (some e) user rpc v = v
  publish_client-NodeInv none user rpc v = record {
    exclusive = v.exclusive;
    in_range = v.in_range;
    no_subscriber = v.no_subscriber;
  }

module _ {Peer : Type 0} (range : ℕ → Bool) (at : ℕ) (p : Participant Peer) (node : Node Peer)
    (there : get_elem? node.participants at ≡ some p) (v : NodeInv range node) where
  pub on_data_channel-NodeInv : (label : String) → NodeInv range (on_data_channel at p label node)
  unfolding on_data_channel
  on_data_channel-NodeInv label =
      if_cases (NodeInv range) (label == reliable_data_channel)
        (put-NodeInv range at p _ node there refl refl v) v

  pub send_ice_candidate-NodeInv :
      (reply : Option Error) (candidate : Option IceCandidateInit) (target : SignalingTarget)
      → NodeInv range (send_ice_candidate reply p candidate target node).1
  unfolding send_ice_candidate
  send_ice_candidate-NodeInv reply none target = v
  send_ice_candidate-NodeInv reply (some candidate) target =
      publish_client-NodeInv range at node reply p.id _ v

  publish_track-NodeInv :
      (track : MediaTrack) (tracks : Option (List (String × MediaTrack)))
      → NodeInv range (publish_track at p track tracks node).1
  publish_track-NodeInv track none = v
  publish_track-NodeInv track (some tracks) = put-NodeInv range at p _ node there refl refl v

  pub on_media_track-NodeInv :
      (resolved : Option Error) (track : String) (payload_type : ℕ)
      → NodeInv range (on_media_track resolved at p track payload_type node).1
  unfolding on_media_track
  on_media_track-NodeInv (some e) track payload_type = v
  on_media_track-NodeInv none track payload_type = publish_track-NodeInv _ p.published_tracks

  dialled_track-NodeInv :
      (tracks : List (String × MediaTrack)) (found : Option MediaTrack)
      → NodeInv range (dialled_track at p tracks found node)
  dialled_track-NodeInv tracks none = v
  dialled_track-NodeInv tracks (some t) = put-NodeInv range at p _ node there refl refl v

  dial_among-NodeInv :
      (track : String) (tracks : Option (List (String × MediaTrack)))
      → NodeInv range (dial_among at p track tracks node)
  dial_among-NodeInv track none = v
  dial_among-NodeInv track (some tracks) = dialled_track-NodeInv tracks (lookup track tracks)

  pub dial_track-NodeInv :
      (reply : Option Error) (track : String) → NodeInv range (dial_track reply at p track node)
  unfolding dial_track
  dial_track-NodeInv (some e) track = v
  dial_track-NodeInv none track = dial_among-NodeInv track p.published_tracks

  module _ (api : PeerApi Peer) where
    add_to_subscriber-NodeInv :
        (t : Option (PcTransport Peer)) (candidate : IceCandidateInit)
        → t ≡ none
        → NodeInv range (add_to_subscriber api at p t candidate node).1
    add_to_subscriber-NodeInv none candidate e = v
    add_to_subscriber-NodeInv (some t) candidate e = cc

    pub participant_add_ice_candidate-NodeInv :
        (params : IceCandidateParams)
        → p.subscriber ≡ none
        → NodeInv range (participant_add_ice_candidate api at p params node).1
    unfolding participant_add_ice_candidate
    participant_add_ice_candidate-NodeInv params e =
        if_cases (λ (r : Outcome (Unit {0}) × Node Peer). NodeInv range r.1)
          (params.target == publisher_target) (put-NodeInv range at p _ node there refl refl v)
          (add_to_subscriber-NodeInv p.subscriber params.candidate_init e)

    answered-NodeInv :
        (reply : Option Error) (q : Participant Peer) (local : Option SessionDescription)
        (n : Node Peer)
        → NodeInv range n
        → NodeInv range (answered reply q local n).1
    answered-NodeInv reply q none n w = w
    answered-NodeInv reply q (some local) n w = publish_client-NodeInv range at n reply q.id _ w

    localized-NodeInv :
        (reply : Option Error) (q : Participant Peer) (r : Option Error × Peer)
        → q.allocated_ports ≡ p.allocated_ports
        → q.subscriber ≡ p.subscriber
        → NodeInv range (localized api reply at q r node).1
    localized-NodeInv reply q (some e, pc) a s = put-NodeInv range at p _ node there a s v
    localized-NodeInv reply q (none, pc) a s =
        answered-NodeInv reply q (api.local_description pc) _
          (put-NodeInv range at p _ node there a s v)

    with_answer-NodeInv :
        (reply : Option Error) (q : Participant Peer) (answer : Outcome SessionDescription)
        → q.allocated_ports ≡ p.allocated_ports
        → q.subscriber ≡ p.subscriber
        → NodeInv range (with_answer api reply at q answer node).1
    with_answer-NodeInv reply q (err e) a s = put-NodeInv range at p q node there a s v
    with_answer-NodeInv reply q panic a s = put-NodeInv range at p q node there a s v
    with_answer-NodeInv reply q (ok answer) a s =
        localized-NodeInv reply q (api.set_local_description q.publisher.pc answer) a s

    with_remote-NodeInv :
        (reply : Option Error) (r : Outcome (Unit {0}) × PcTransport Peer)
        → NodeInv range (with_remote api reply at p r node).1
    with_remote-NodeInv reply (err e, t) = put-NodeInv range at p _ node there refl refl v
    with_remote-NodeInv reply (panic, t) = put-NodeInv range at p _ node there refl refl v
    with_remote-NodeInv reply (ok _, t) =
        with_answer-NodeInv reply (record p { publisher = t }) (api.create_answer t.pc) refl refl

    pub participant_handle_offer-NodeInv :
        (reply : Option Error) (params : SdpParams)
        → NodeInv range (participant_handle_offer api reply at p params node).1
    unfolding participant_handle_offer
    participant_handle_offer-NodeInv reply params =
        if_cases (λ (r : Outcome (Unit {0}) × Node Peer). NodeInv range r.1)
          (params.target == publisher_target) (with_remote-NodeInv reply _) v

    pub handle_primary_state_change-NodeInv :
        (reply : Option Error) (state : ConnectionState)
        → NodeInv range (handle_primary_state_change api reply at p state node).1
    unfolding handle_primary_state_change
    handle_primary_state_change-NodeInv reply failed =
        close_participant-NodeInv range api reply at p node there v
    handle_primary_state_change-NodeInv reply new_connection = v
    handle_primary_state_change-NodeInv reply connecting = v
    handle_primary_state_change-NodeInv reply connected = v
    handle_primary_state_change-NodeInv reply disconnected = v
    handle_primary_state_change-NodeInv reply closed = v
