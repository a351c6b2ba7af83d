-- ===== src/Rtc/Room.antt =====
-- internal/rtc/room.go. A room knows its participants by their positions in the node.
use livelook_sfu.Common.{
  ℕ, Option, none, some, List, [], get_elem?, lookup, insert, string_eq, Outcome, ok, err, Error,
  no_participant,
}
use livelook_sfu.Eventbus.Rpc.{UserSessionId, IceCandidateParams, SdpParams}
use livelook_sfu.Rtc.Transport.{PeerApi}
use livelook_sfu.Rtc.Node.{Participant, Node}
use livelook_sfu.Rtc.Participant.Methods.{
  participant_add_ice_candidate, participant_handle_offer, close_participant,
}

-- The configuration and the bus, which a room only keeps, are left out.
pub record Room : Type 0 where
  pub room_id : UserSessionId
  pub members : List (UserSessionId × ℕ)

unfoldable pub new_room : UserSessionId → Room
new_room user = record { room_id = user; members = [] }

-- `participants[participant.ID] = participant`
unfoldable pub join : UserSessionId → ℕ → Room → Room
join user at room = record room { members = insert user at room.members }

module _ {Peer : Type 0} where
  -- `r.participants[userID]`, with its position.
  unfoldable pub member : UserSessionId → Room → Node Peer → Option (ℕ × Participant Peer)
  member user room node = elim (lookup user room.members) [
    | none ↦ none
    | some at ↦ elim (get_elem? node.participants at) [ none ↦ none | some p ↦ some (at, p) ]
  ]

  abbrev pub with_found :
      Option (ℕ × Participant Peer)
      → (ℕ → Participant Peer → Node Peer → Outcome (Unit {0}) × Node Peer)
      → Node Peer
      → Outcome (Unit {0}) × Node Peer
  with_found none act node = (err no_participant, node)
  with_found (some (at, p)) act node = act at p node

  -- The nil test that the handlers begin with.
  abbrev pub with_member :
      UserSessionId
      → Room
      → (ℕ → Participant Peer → Node Peer → Outcome (Unit {0}) × Node Peer)
      → Node Peer
      → Outcome (Unit {0}) × Node Peer
  with_member user room act node = with_found (member user room node) act node

  unfoldable pub room_publish_stream :
      UserSessionId → Room → Node Peer → Outcome (Unit {0}) × Node Peer
  room_publish_stream user room node = with_member user room (λ at p n. (ok tt, n)) node

  unfoldable pub room_stop_stream :
      UserSessionId → Room → Node Peer → Outcome (Unit {0}) × Node Peer
  room_stop_stream user room node = (ok tt, node)

module _ {Peer : Type 0} (api : PeerApi Peer) where
  unfoldable pub room_handle_offer :
      Option Error → UserSessionId → SdpParams → Room → Node Peer → Outcome (Unit {0}) × Node Peer
  room_handle_offer reply user params room node =
      with_member user room (λ at p n. participant_handle_offer api reply at p params n) node

  unfoldable pub room_add_ice_candidate :
      UserSessionId → IceCandidateParams → Room → Node Peer → Outcome (Unit {0}) × Node Peer
  room_add_ice_candidate user params room node =
      with_member user room (λ at p n. participant_add_ice_candidate api at p params n) node

  -- `Close` closes the participant that has the room's own ID.
  unfoldable pub close_room : Option Error → Room → Node Peer → Outcome (Unit {0}) × Node Peer
  close_room reply room node =
      with_member room.room_id room (λ at p n. close_participant api reply at p n) node
