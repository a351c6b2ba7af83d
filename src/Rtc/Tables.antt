-- ===== src/Rtc/Tables.antt =====
-- Which code of internal/rtc changes the codec table: NewParticipant, and nothing else.
use livelook_sfu.Common.{ℕ, ◌≡◌, refl, Option, none, some, String, string_eq, Outcome, Error, arith}
use livelook_sfu.Eventbus.Rpc.{
  UserSessionId, Rpc, IceCandidateInit, IceCandidateParams, SdpParams, SignalingTarget,
}
use livelook_sfu.Rtc.Transport.{PeerApi}
use livelook_sfu.Rtc.Node.{Participant, Node}
use livelook_sfu.Rtc.Participant.Methods.{
  ConnectionState, publish_client, send_ice_candidate, on_data_channel, on_media_track,
  participant_add_ice_candidate, participant_handle_offer, close_participant,
  handle_primary_state_change, dial_track,
}
use livelook_sfu.Rtc.Room.{
  Room, member, with_found, room_handle_offer, room_add_ice_candidate, room_publish_stream,
  close_room,
}

-- The table is the one of before.
abbrev pub SameTable : {Peer : Type 0} → Node Peer → Node Peer → Type 0
SameTable before after = after.codecs ≡ before.codecs

module _ {Peer : Type 0} (reply : Option Error) (node : Node Peer) where
  pub publish_client-SameTable :
      (user : UserSessionId) (rpc : Rpc) → SameTable node (publish_client reply user rpc node).1
  unfolding publish_client
  publish_client-SameTable user rpc = ground arith

  pub send_ice_candidate-SameTable :
      (p : Participant Peer) (candidate : Option IceCandidateInit) (target : SignalingTarget)
      → SameTable node (send_ice_candidate reply p candidate target node).1
  unfolding send_ice_candidate publish_client
  send_ice_candidate-SameTable p candidate target = ground arith

  pub on_data_channel-SameTable :
      (at : ℕ) (p : Participant Peer) (label : String)
      → SameTable node (on_data_channel at p label node)
  unfolding on_data_channel
  on_data_channel-SameTable at p label = ground arith

  pub on_media_track-SameTable :
      (at : ℕ) (p : Participant Peer) (track : String) (payload_type : ℕ)
      → SameTable node (on_media_track reply at p track payload_type node).1
  unfolding on_media_track
  on_media_track-SameTable at p track payload_type = ground arith

  pub dial_track-SameTable :
      (at : ℕ) (p : Participant Peer) (track : String)
      → SameTable node (dial_track reply at p track node)
  unfolding dial_track
  dial_track-SameTable at p track = ground arith

  module _ (api : PeerApi Peer) (at : ℕ) (p : Participant Peer) where
    participant_add_ice_candidate-SameTable :
        (params : IceCandidateParams)
        → SameTable node (participant_add_ice_candidate api at p params node).1
    unfolding participant_add_ice_candidate
    participant_add_ice_candidate-SameTable params = ground arith

    participant_handle_offer-SameTable :
        (params : SdpParams)
        → SameTable node (participant_handle_offer api reply at p params node).1
    unfolding participant_handle_offer publish_client
    participant_handle_offer-SameTable params = ground arith

    pub close_participant-SameTable : SameTable node (close_participant api reply at p node).1
    unfolding close_participant
    close_participant-SameTable = ground arith

    pub handle_primary_state_change-SameTable :
        (state : ConnectionState)
        → SameTable node (handle_primary_state_change api reply at p state node).1
    unfolding handle_primary_state_change close_participant
    handle_primary_state_change-SameTable state = ground arith

with_found-SameTable :
    {Peer : Type 0} (node : Node Peer) (found : Option (ℕ × Participant Peer))
    (act : ℕ → Participant Peer → Node Peer → Outcome (Unit {0}) × Node Peer)
    → ((at : ℕ) (p : Participant Peer) → SameTable node (act at p node).1)
    → SameTable node (with_found found act node).1
with_found-SameTable node none act h = refl
with_found-SameTable node (some (at, p)) act h = h at p

module _ {Peer : Type 0} (api : PeerApi Peer) (room : Room) (node : Node Peer) where
  pub room_handle_offer-SameTable :
      (reply : Option Error) (user : UserSessionId) (params : SdpParams)
      → SameTable node (room_handle_offer api reply user params room node).1
  unfolding room_handle_offer
  room_handle_offer-SameTable reply user params =
      with_found-SameTable node (member user room node) _
        (λ at p. participant_handle_offer-SameTable reply node api at p params)

  pub room_add_ice_candidate-SameTable :
      (user : UserSessionId) (params : IceCandidateParams)
      → SameTable node (room_add_ice_candidate api user params room node).1
  unfolding room_add_ice_candidate
  room_add_ice_candidate-SameTable user params =
      with_found-SameTable node (member user room node) _
        (λ at p. participant_add_ice_candidate-SameTable none node api at p params)

  pub close_room-SameTable :
      (reply : Option Error) → SameTable node (close_room api reply room node).1
  unfolding close_room
  close_room-SameTable reply =
      with_found-SameTable node (member room.room_id room node) _
        (λ at p. close_participant-SameTable reply node api at p)

pub room_publish_stream-SameTable :
    {Peer : Type 0} (user : UserSessionId) (room : Room) (node : Node Peer)
    → SameTable node (room_publish_stream user room node).1
unfolding room_publish_stream
room_publish_stream-SameTable user room node =
    with_found-SameTable node (member user room node) _ (λ at p. refl)
