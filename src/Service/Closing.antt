-- ===== src/Service/Closing.antt =====
-- What `CloseSession` of internal/service/sessions_manager.go takes away, and what a second join
-- makes it miss.
use livelook_sfu.Common.{
  ℕ, ◌+◌, ◌<◌, ◌≡◌, refl, ap, sym, ◌∙◌, subst, false, none, some, [], ◌∷◌, length, lookup, delete,
  lookup-delete, string_eq, string_beq_iff, ◌==◌, get_elem?, get_elem?-set-length,
  get_elem?-set_self, dec, arith, ok, set,
}
use livelook_sfu.Eventbus.Rpc.{UserSessionId}
use livelook_sfu.Rtc.Ports.Laws.{taken, taken-le_one}
use livelook_sfu.Rtc.Node.{Participant, stop_transcoder}
use livelook_sfu.Rtc.Participant.Methods.{
  ports_of, tracks_of, closed_participant, closed_node, close_participant, publish_stop,
  deallocate_all,
}
use livelook_sfu.Rtc.Participant.Tracks.{AllDialled, close_tracks-ok}
use livelook_sfu.Rtc.Ownership.Rooms.{member-there}
use livelook_sfu.Rtc.Room.{Room, member, close_room}
use livelook_sfu.Rtc.Ownership.{
  count_port, count_port-le-holders, holders, holders-append, taken-deallocate_all,
}
use livelook_sfu.Rtc.Ownership.Invariant.{NodeInv}
use livelook_sfu.Core.Sessions.{set_offline}
use livelook_sfu.Service.{Manager, Result, Setup, Replies, close_session, start_session}
use livelook_sfu.Service.Rooms.{Named}
use livelook_sfu.Service.Joining.{start_session-ok}
use livelook_sfu.Service.Invariant.{range_of, start_session-Inv}

-- The session is gone, and every other is as it was; the ports of the participant are free, and
-- every other port is as it was; the row has been set offline, as far as the database allowed;
-- the transcoder has been told to stop, unless NATS refused; and the gauge is one lower.
pub record IsClosed {Engine Peer : Type 0} (replies : Replies Engine Peer) (user : UserSessionId)
    (at : ℕ) (p : Participant Peer) (m m' : Manager Peer) : Type 0 where
  pub gone : lookup user m'.sessions ≡ none
  pub others :
      (u : UserSessionId) → (user == u) ≡ false → lookup u m'.sessions ≡ lookup u m.sessions
  pub freed : (q : ℕ) → 0 < count_port q (ports_of p.allocated_ports) → taken q m'.node.ports ≡ 0
  pub kept :
      (q : ℕ)
      → count_port q (ports_of p.allocated_ports) ≡ 0
      → taken q m'.node.ports ≡ taken q m.node.ports
  pub offline : m'.table ≡ (set_offline replies.database replies.now user m.table).1
  pub stopped :
      replies.nats_stop ≡ none
      → m'.node.transcoder_messages ≡ stop_transcoder p.id ∷ m.node.transcoder_messages
  pub counted : m'.session_total ≡ dec m.session_total

pub trackless-AllDialled :
    {Peer : Type 0} (p : Participant Peer)
    → p.published_tracks ≡ some []
    → AllDialled (tracks_of p.published_tracks)
trackless-AllDialled p h = subst (λ ts. AllDialled (tracks_of ts)) (sym h) tt

module _ {Engine Peer : Type 0} (setup : Setup Engine Peer) where
  abbrev after_close :
      Replies Engine Peer → UserSessionId → ℕ → Participant Peer → Manager Peer → Manager Peer
  after_close replies user at p m = record {
    node = closed_node setup.peers replies.nats_stop at p m.node;
    table = (set_offline replies.database replies.now user m.table).1;
    sessions = delete user m.sessions;
    session_total = dec m.session_total;
  }

  close_session-after_close :
      (replies : Replies Engine Peer) (user : UserSessionId) (m : Manager Peer) (room : Room)
      (at : ℕ) (p : Participant Peer)
      → lookup user m.sessions ≡ some room
      → member room.room_id room m.node ≡ some (at, p)
      → AllDialled (tracks_of p.published_tracks)
      → close_session setup replies user m ≡ (ok tt, after_close replies user at p m)
  unfolding close_session close_room close_participant
  close_session-after_close replies user m room at p found is_member dialled =
      ground (arith, close_tracks-ok (tracks_of p.published_tracks) dialled)

  -- CloseSession of a user whose room leads to a participant, all of whose tracks have been dialled:
  -- it removes that session only, frees exactly the participant's ports, sets the row offline as far as
  -- the database answers, stops the transcoder unless NATS refuses, and lowers the gauge.
  pub close_session-ok :
      (replies : Replies Engine Peer) (user : UserSessionId) (m : Manager Peer) (room : Room)
      (at : ℕ) (p : Participant Peer)
      → lookup user m.sessions ≡ some room
      → member room.room_id room m.node ≡ some (at, p)
      → AllDialled (tracks_of p.published_tracks)
      → ((close_session setup replies user m).0 ≡ ok tt)
        × IsClosed replies user at p m (close_session setup replies user m).1
  unfolding deallocate_all
  close_session-ok replies user m room at p found is_member dialled =
      let e = close_session-after_close replies user m room at p found is_member dialled in
      (
        ap (λ r. r.0) e,
        subst (λ (r : Result Peer). IsClosed replies user at p m r.1) (sym e)
            (record {
              gone = ground (arith, lookup-delete user user m.sessions, string_beq_iff user user);
              others = λ u ne. ground (arith, lookup-delete user u m.sessions);
              freed = λ q held.
                  ground (arith, taken-deallocate_all q (ports_of p.allocated_ports) m.node.ports);
              kept = λ q free.
                  ground (arith, taken-deallocate_all q (ports_of p.allocated_ports) m.node.ports);
              offline = refl;
              stopped = λ h. ap (λ r. publish_stop r p.id m.node.transcoder_messages) h;
              counted = refl;
            }),
      )

  -- After a second join of a user whose room leads to a participant, `CloseSession` closes the newer
  -- participant and removes the user's session; the older one is still there as it was, and the ports
  -- that it holds stay taken.
  pub rejoin_leaks :
      (first second : Replies Engine Peer) (user : UserSessionId) (m : Manager Peer) (room : Room)
      (at : ℕ) (p : Participant Peer) (q : ℕ)
      → NodeInv (range_of setup) m.node
      → Named m.sessions
      → lookup user m.sessions ≡ some room
      → member user room m.node ≡ some (at, p)
      → 0 < count_port q (ports_of p.allocated_ports)
      → (start_session setup first user m).0 ≡ ok tt
      → let m' = (close_session setup second user (start_session setup first user m).1).1 in
        (lookup user m'.sessions ≡ none)
        × ((newer : Participant Peer) × (newer.id ≡ user)
            × (get_elem?
                  (start_session setup first user m).1.node.participants
                  (length m.node.participants)
                ≡ some newer)
            × (get_elem? m'.node.participants (length m.node.participants)
                ≡ some (closed_participant setup.peers newer)))
        × (get_elem? m'.node.participants at ≡ some p)
        × (taken q m'.node.ports ≡ 1)
  unfolding holders deallocate_all
  rejoin_leaks first second user m room at p q v named leads_to was_member holds joins =
      let there = member-there (range_of setup) user room m.node at p was_member in
      let n = (start_session setup first user m).1 in
      let j = start_session-ok setup first user m named joins in
      let w = start_session-Inv setup first user m v in
      let x = j.participant in
      let count = count_port q (ports_of x.allocated_ports) in
      let is_member : member j.room.room_id j.room n.node ≡ some (length m.node.participants, x) =
        ap (λ u. member u j.room n.node) j.own_room ∙ j.is_member in
      let dialled = trackless-AllDialled x j.trackless in
      let (closes, c) = close_session-ok second user n j.room _ x j.found is_member dialled in
      let e = close_session-after_close second user n j.room _ x j.found is_member dialled in
      let split : holders q n.node.participants ≡ holders q m.node.participants + (count + 0) =
        ap (holders q) j.appended ∙ holders-append q m.node.participants (x ∷ []) in
      let old = count_port-le-holders q m.node.participants at p there in
      let bound = w.exclusive q in
      let one = taken-le_one q n.node.ports in
      let stands : get_elem? n.node.participants (length m.node.participants) ≡ some x =
        member-there (range_of setup) user j.room n.node _ x j.is_member in
      (
        c.gone,
        (
          x,
          j.owner,
          stands,
          ap (λ (r : Result Peer). get_elem? r.1.node.participants (length m.node.participants)) e
              ∙ get_elem?-set_self n.node.participants (length m.node.participants)
                  (closed_participant setup.peers x) stands,
        ),
        ap (λ (r : Result Peer). get_elem? r.1.node.participants at) e
            ∙ ap
                (λ ps.
                  get_elem? (set ps (length m.node.participants) (closed_participant setup.peers x))
                    at)
                j.appended
            ∙ get_elem?-set-length m.node.participants x _ at there,
        c.kept q (omega arith) ∙ omega arith,
      )
