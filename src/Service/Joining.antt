-- ===== src/Service/Joining.antt =====
-- What `StartSession` of internal/service/sessions_manager.go leaves behind when it succeeds.
use livelook_sfu.Common.{
  ℕ, ◌≡◌, refl, ap, ◌∙◌, subst, Option, none, some, [], ◌∷◌, ◌++◌, length, lookup, insert,
  lookup-insert, string_eq, string_beq_iff, get_elem?, get_elem?-length, ℤ, inc, arith, Outcome, ok,
  err, panic, Error,
}
use livelook_sfu.Eventbus.Rpc.{UserSessionId, new_join_rpc}
use livelook_sfu.Rtc.Node.{Participant, Node, start_transcoder}
use livelook_sfu.Rtc.Participant.Methods.{publish_client}
use livelook_sfu.Rtc.Participant.Creation.{IsCreated, Creates, new_participant-Creates}
use livelook_sfu.Rtc.Room.{Room, join, member}
use livelook_sfu.Core.Sessions.{Session, SessionsTable, save, session_of}
use livelook_sfu.Service.{
  Manager, Result, Setup, Replies, find_or_init_room, greeted, after_closing, close_at, joined,
  saved, start_session,
}
use livelook_sfu.Service.Rooms.{Named, find_or_init_room-found, find_or_init_room-Named}

-- The user's own room leads to a new participant of the user, which stands behind those that were
-- there; the client has been sent the join message; and the gauge is one higher.
pub record IsJoined {Peer : Type 0} (user : UserSessionId) (node : Node Peer) (total : ℤ)
    (m : Manager Peer) : Type 0 where
  pub room : Room
  pub participant : Participant Peer
  pub found : lookup user m.sessions ≡ some room
  pub own_room : room.room_id ≡ user
  pub is_member : member user room m.node ≡ some (length node.participants, participant)
  pub appended : m.node.participants ≡ node.participants ++ participant ∷ []
  pub owner : participant.id ≡ user
  pub trackless : participant.published_tracks ≡ some []
  pub greeted_client : m.node.client_messages ≡ (user, new_join_rpc) ∷ node.client_messages
  pub announced_start :
      m.node.transcoder_messages
      ≡ start_transcoder user participant.transcoder_sdp ∷ node.transcoder_messages
  pub counted : m.session_total ≡ inc total

abbrev pub Joins : {Peer : Type 0} → UserSessionId → Node Peer → ℤ → Result Peer → Type 0
Joins user node total (ok _, m) = IsJoined user node total m
Joins user node total (err e, m) = Unit {0}
Joins user node total (panic, m) = Unit {0}

member_of-join :
    {Peer : Type 0} (user : UserSessionId) (at : ℕ) (room : Room) (node : Node Peer)
    (p : Participant Peer)
    → get_elem? node.participants at ≡ some p
    → member user (join user at room) node ≡ some (at, p)
unfolding member join
member_of-join user at room node p h =
    ground (arith, lookup-insert user user at room.members, string_beq_iff user user)

module _ {Engine Peer : Type 0} (setup : Setup Engine Peer) where
  after_closing-Joins :
      (user : UserSessionId) (node : Node Peer) (total : ℤ) (e : Error) (m : Manager Peer)
      (r : Outcome (Unit {0}) × Node Peer)
      → Joins user node total (after_closing setup e m r)
  after_closing-Joins user node total e m (ok _, n) = tt
  after_closing-Joins user node total e m (err x, n) = tt
  after_closing-Joins user node total e m (panic, n) = tt

  greeted-Joins :
      (replies : Replies Engine Peer) (user : UserSessionId) (at : ℕ) (room : Room)
      (m : Manager Peer) (node : Node Peer)
      → room.room_id ≡ user
      → IsCreated user m.node node at
      → (reply : Option Error)
      → Joins user m.node m.session_total (
          greeted setup replies at
            (record m { sessions = insert user (join user at room) m.sessions })
            (publish_client reply user new_join_rpc node))
  unfolding publish_client join
  greeted-Joins replies user at room m node own c (some e) =
      after_closing-Joins user m.node m.session_total e
        (record m { sessions = insert user (join user at room) m.sessions })
        (close_at setup replies.nats_stop at node)
  greeted-Joins replies user at room m node own c none = record {
    room = join user at room;
    participant = c.participant;
    found =
        ground
          (arith, lookup-insert user user (join user at room) m.sessions, string_beq_iff user user);
    own_room = own;
    is_member =
        member_of-join user at room _ c.participant there
        ∙ ap (λ i. some (i, c.participant)) c.position;
    appended = c.appended;
    owner = c.owner;
    trackless = c.trackless;
    greeted_client = ap (λ ms. (user, new_join_rpc) ∷ ms) c.messages_kept;
    announced_start = c.announced_start;
    counted = refl;
  }
    where
      there : get_elem? node.participants at ≡ some c.participant
      there =
          ap (λ ps. get_elem? ps at) c.appended
          ∙ ap (λ i. get_elem? (m.node.participants ++ c.participant ∷ []) i) c.position
          ∙ get_elem?-length m.node.participants c.participant

  joined-Joins :
      (replies : Replies Engine Peer) (user : UserSessionId) (room : Room) (m : Manager Peer)
      (r : Outcome ℕ × Node Peer)
      → room.room_id ≡ user
      → Creates user m.node r
      → Joins user m.node m.session_total (joined setup replies user room m r)
  joined-Joins replies user room m (ok at, node) own c =
      greeted-Joins replies user at room m node own c replies.bus
  joined-Joins replies user room m (err e, node) own c = tt
  joined-Joins replies user room m (panic, node) own c = tt

  pub find_or_init_room-same :
      (user : UserSessionId) (m : Manager Peer)
      → ((find_or_init_room setup user m).1.node ≡ m.node)
        × ((find_or_init_room setup user m).1.session_total ≡ m.session_total)
  unfolding find_or_init_room
  find_or_init_room-same user m = ground arith

  saved-Joins :
      (replies : Replies Engine Peer) (user : UserSessionId) (m : Manager Peer)
      (r : Outcome Session × SessionsTable)
      → Named m.sessions
      → Joins user m.node m.session_total (saved setup replies user m r)
  saved-Joins replies user m (err e, table) named = tt
  saved-Joins replies user m (panic, table) named = tt
  saved-Joins replies user m (ok s, table) named =
      let n = record m { table = table } in
      let (room, n') = find_or_init_room setup user n in
      let own =
        find_or_init_room-Named setup user n named user room
          (find_or_init_room-found setup user n) in
      let same = find_or_init_room-same user n in
      subst
        (λ (x : Node Peer). Joins user x m.session_total (saved setup replies user m (ok s, table)))
        same.0
        (subst (λ (t : ℤ). Joins user n'.node t (saved setup replies user m (ok s, table))) same.1
          (joined-Joins replies user room n' _ own
            (new_participant-Creates replies.participant _ setup.engines setup.names n'.node)))

  -- A join that succeeds, in a state where every room is its user's own.
  pub start_session-Joins :
      (replies : Replies Engine Peer) (user : UserSessionId) (m : Manager Peer)
      → Named m.sessions
      → Joins user m.node m.session_total (start_session setup replies user m)
  unfolding start_session
  start_session-Joins replies user m named =
      saved-Joins replies user m (save replies.database (session_of user) m.table) named

  of_ok :
      (user : UserSessionId) (node : Node Peer) (total : ℤ) (r : Result Peer)
      → Joins user node total r
      → r.0 ≡ ok tt
      → IsJoined user node total r.1
  of_ok user node total (ok _, m) j h = j
  of_ok user node total (err e, m) j h = cc
  of_ok user node total (panic, m) j h = cc

  pub start_session-ok :
      (replies : Replies Engine Peer) (user : UserSessionId) (m : Manager Peer)
      → Named m.sessions
      → (start_session setup replies user m).0 ≡ ok tt
      → IsJoined user m.node m.session_total (start_session setup replies user m).1
  start_session-ok replies user m named h =
      of_ok user m.node m.session_total _ (start_session-Joins replies user m named) h
