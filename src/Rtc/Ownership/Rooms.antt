-- ===== src/Rtc/Ownership/Rooms.antt =====
-- The methods of internal/rtc/room.go keep the invariant.
use livelook_sfu.Common.{
  ℕ, ◌≡◌, refl, Bool, Option, none, some, get_elem?, string_eq, All-get, Outcome, ok, Error, arith,
}
use livelook_sfu.Eventbus.Rpc.{UserSessionId, IceCandidateParams, SdpParams}
use livelook_sfu.Rtc.Transport.{PeerApi}
use livelook_sfu.Rtc.Node.{Participant, Node}
use livelook_sfu.Rtc.Room.{
  Room, member, with_found, room_handle_offer, room_add_ice_candidate, room_publish_stream,
  room_stop_stream, close_room,
}
use livelook_sfu.Rtc.Ownership.Invariant.{NodeInv, close_participant-NodeInv}
use livelook_sfu.Rtc.Ownership.Methods.{
  participant_handle_offer-NodeInv, participant_add_ice_candidate-NodeInv,
}

module _ {Peer : Type 0} (range : ℕ → Bool) where
  -- A member stands at its position.
  pub member-there :
      (user : UserSessionId) (room : Room) (node : Node Peer) (at : ℕ) (p : Participant Peer)
      → member user room node ≡ some (at, p)
      → get_elem? node.participants at ≡ some p
  unfolding member
  member-there user room node at p h = ground arith

  with_found-NodeInv :
      (found : Option (ℕ × Participant Peer))
      (act : ℕ → Participant Peer → Node Peer → Outcome (Unit {0}) × Node Peer) (node : Node Peer)
      → NodeInv range node
      → ((at : ℕ) (p : Participant Peer) → found ≡ some (at, p) → NodeInv range (act at p node).1)
      → NodeInv range (with_found found act node).1
  with_found-NodeInv none act node v h = v
  with_found-NodeInv (some (at, p)) act node v h = h at p refl

  module _ (room : Room) (node : Node Peer) (v : NodeInv range node) where
    pub room_publish_stream-NodeInv :
        (user : UserSessionId) → NodeInv range (room_publish_stream user room node).1
    unfolding room_publish_stream
    room_publish_stream-NodeInv user =
        with_found-NodeInv (member user room node) (λ at p n. (ok tt, n)) node v (λ at p e. v)

    pub room_stop_stream-NodeInv :
        (user : UserSessionId) → NodeInv range (room_stop_stream user room node).1
    unfolding room_stop_stream
    room_stop_stream-NodeInv user = v

    pub room_handle_offer-NodeInv :
        (api : PeerApi Peer) (reply : Option Error) (user : UserSessionId) (params : SdpParams)
        → NodeInv range (room_handle_offer api reply user params room node).1
    unfolding room_handle_offer
    room_handle_offer-NodeInv api reply user params =
        with_found-NodeInv (member user room node) _ node v (λ at p e.
          participant_handle_offer-NodeInv range at p node (member-there user room node at p e) v
            api reply params)

    pub room_add_ice_candidate-NodeInv :
        (api : PeerApi Peer) (user : UserSessionId) (params : IceCandidateParams)
        → NodeInv range (room_add_ice_candidate api user params room node).1
    unfolding room_add_ice_candidate
    room_add_ice_candidate-NodeInv api user params =
        with_found-NodeInv (member user room node) _ node v (λ at p e.
          let there = member-there user room node at p e in
          participant_add_ice_candidate-NodeInv range at p node there v api params (
            All-get (λ (q : Participant Peer). q.subscriber ≡ none) node.participants at
              v.no_subscriber there))

    pub close_room-NodeInv :
        (api : PeerApi Peer) (reply : Option Error)
        → NodeInv range (close_room api reply room node).1
    unfolding close_room
    close_room-NodeInv api reply =
        with_found-NodeInv (member room.room_id room node) _ node v (λ at p e.
          close_participant-NodeInv range api reply at p node
            (member-there room.room_id room node at p e) v)
