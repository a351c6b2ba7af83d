-- ===== src/Service/Crashes.antt =====
-- Where the server dies: a run-time panic in a handler ends the process.
use livelook_sfu.Common.{
  ℕ, ◌≡◌, refl, ap, ◌∙◌, false, none, some, List, [], ◌∷◌, ◌++◌, insert, lookup, string_eq, ◌==◌,
  All-get, arith, Outcome, ok, err, panic, Error, get_elem?-set_self, no_free_ports, String,
}
use livelook_sfu.Eventbus.Rpc.{UserSessionId, IceCandidateParams, publisher_target}
use livelook_sfu.Config.{CodecType}
use livelook_sfu.Rtc.Ports.Laws.{NoneFree, allocate_fails}
use livelook_sfu.Rtc.MediaEngine.{CodecParameters, CodecTable}
use livelook_sfu.Rtc.Transport.{PcTransport, new_pc_transport}
use livelook_sfu.Rtc.Node.{MediaTrack, Participant, Node}
use livelook_sfu.Rtc.Participant.{
  ParticipantReplies, ParticipantOptions, transport_params, codecs_in_order, new_participant,
  with_transport, allocate_codecs, allocate_codec, Draft, new_draft, then_draft,
}
use livelook_sfu.Rtc.Participant.Methods.{
  participant_add_ice_candidate, on_media_track, close_participant, close_tracks, tracks_of, put,
  new_media_track,
}
use livelook_sfu.Rtc.Participant.Tracks.{close_tracks-insert}
use livelook_sfu.Rtc.Room.{Room, member, room_add_ice_candidate, close_room}
use livelook_sfu.Rtc.Ownership.Rooms.{member-there}
use livelook_sfu.Core.Sessions.{Session, SessionsTable, save, session_of, upserted_row}
use livelook_sfu.Service.{
  Manager, Setup, Replies, new_sessions_manager, participant_options, find_or_init_room, saved,
  joined, start_session, add_ice_candidate, close_session,
}
use livelook_sfu.Service.Joining.{find_or_init_room-same}
use livelook_sfu.Service.Events.{Event, run, step, called_back, track_started, closes}
use livelook_sfu.Service.Invariant.{run-Inv, new_sessions_manager-Inv, range_of}

-- The loop over the codecs fails at the first one that finds no port.
allocate_codecs-fails :
    (visits : ℕ → List ℕ) (served rest : List (CodecType × CodecParameters)) (t : CodecType)
    (params : CodecParameters) (before d : Draft)
    → allocate_codecs visits served before ≡ (ok tt, d)
    → NoneFree (visits params.payload_type) d.draft_ports
    → (allocate_codecs visits (served ++ (t, params) ∷ rest) before).0 ≡ err no_free_ports
unfolding allocate_codecs allocate_codec
allocate_codecs-fails visits [] rest t params before d gone full =
    let same : before ≡ d = ap (λ r. r.1) gone in
    ap (λ x. (allocate_codecs visits ((t, params) ∷ rest) x).0) same
    ∙ ground (arith, allocate_fails (visits params.payload_type) d.draft_ports full)
allocate_codecs-fails visits ((u, q) ∷ served) rest t params before d gone full =
    after_codec (allocate_codec visits u q before) gone
      (λ x h. allocate_codecs-fails visits served rest t params x d h full)
  where
    after_codec :
        (r : Outcome (Unit {0}) × Draft)
        → then_draft r (allocate_codecs visits served) ≡ (ok tt, d)
        → ((x : Draft)
            → allocate_codecs visits served x ≡ (ok tt, d)
            → (allocate_codecs visits (served ++ (t, params) ∷ rest) x).0 ≡ err no_free_ports)
        → (then_draft r (allocate_codecs visits (served ++ (t, params) ∷ rest))).0
          ≡ err no_free_ports
    after_codec (ok _, x) h later = later x h
    after_codec (err e, x) h later = absurd (cc h)
    after_codec (panic, x) h later = absurd (cc h)

module _ {Engine Peer : Type 0} (setup : Setup Engine Peer) where
  -- The manager after a history.
  abbrev pub after : List (Event Engine Peer) → SessionsTable → Manager Peer
  after es table = run setup es (new_sessions_manager setup table)

  candidate_panics :
      (m : Manager Peer) (user : UserSessionId) (params : IceCandidateParams) (room : Room) (at : ℕ)
      (p : Participant Peer)
      → lookup user m.sessions ≡ some room
      → member user room m.node ≡ some (at, p)
      → p.subscriber ≡ none
      → (params.target == publisher_target) ≡ false
      → (add_ice_candidate setup user params m).0 ≡ panic
  unfolding add_ice_candidate room_add_ice_candidate participant_add_ice_candidate
  candidate_panics m user params room at p found is_member no_subscriber other = ground arith

  -- After any messages and callbacks, an ICE candidate of a user who has a session, and whose room
  -- leads to a participant, dereferences nil if its target is any text but "publisher".
  pub candidate_target_panics :
      (es : List (Event Engine Peer)) (table : SessionsTable) (user : UserSessionId)
      (params : IceCandidateParams) (room : Room) (at : ℕ) (p : Participant Peer)
      → lookup user (after es table).sessions ≡ some room
      → member user room (after es table).node ≡ some (at, p)
      → (params.target == publisher_target) ≡ false
      → (add_ice_candidate setup user params (after es table)).0 ≡ panic
  candidate_target_panics es table user params room at p found is_member other =
      let m = after es table in
      let v = run-Inv setup es _ (new_sessions_manager-Inv setup table) in
      candidate_panics m user params room at p found is_member
        (All-get (λ (x : Participant Peer). x.subscriber ≡ none) m.node.participants at
          v.no_subscriber (member-there (range_of setup) user room m.node at p is_member))
        other

  joined-panics :
      (replies : Replies Engine Peer) (user : UserSessionId) (room : Room) (m : Manager Peer)
      (r : Outcome ℕ × Node Peer) (e : Error)
      → r.0 ≡ err e
      → (joined setup replies user room m r).0 ≡ panic
  joined-panics replies user room m (ok at, node) e h = cc
  joined-panics replies user room m (err x, node) e h = refl
  joined-panics replies user room m (panic, node) e h = refl

  -- The transport of a new participant, and the codec table that it leaves.
  abbrev pub opened :
      ParticipantReplies Engine Peer
      → ParticipantOptions
      → Node Peer
      → Outcome (PcTransport Peer) × CodecTable
  opened replies options node =
      new_pc_transport setup.engines setup.names replies.open_peer
        (transport_params replies options) node.codecs

  new_participant-no_free_ports :
      (replies : ParticipantReplies Engine Peer) (options : ParticipantOptions) (node : Node Peer)
      (transport : PcTransport Peer) (served rest : List (CodecType × CodecParameters))
      (t : CodecType) (params : CodecParameters) (d : Draft)
      → replies.session_description_reply ≡ none
      → (opened replies options node).0 ≡ ok transport
      → codecs_in_order replies.audio_first (opened replies options node).1
        ≡ served ++ (t, params) ∷ rest
      → allocate_codecs replies.visits served (new_draft node.ports) ≡ (ok tt, d)
      → NoneFree (replies.visits params.payload_type) d.draft_ports
      → (new_participant replies options setup.engines setup.names node).0 ≡ err no_free_ports
  unfolding new_participant with_transport
  new_participant-no_free_ports replies options node transport served rest t params d described
        is_open codecs gone full =
      ground (
        arith,
        allocate_codecs-fails replies.visits served rest t params (new_draft node.ports) d gone
            full,
      )

  saved-no_free_ports :
      (replies : Replies Engine Peer) (user : UserSessionId) (m : Manager Peer) (s : Session)
      (table : SessionsTable)
      → ((node : Node Peer)
          → node ≡ m.node
          → (new_participant replies.participant
              (participant_options setup user)
              setup.engines
              setup.names
              node).0
            ≡ err no_free_ports)
      → (saved setup replies user m (ok s, table)).0 ≡ panic
  saved-no_free_ports replies user m s table fails =
      let n = record m { table = table } in
      let n' = (find_or_init_room setup user n).1 in
      joined-panics replies user (find_or_init_room setup user n).0 n' _ no_free_ports
        (fails n'.node (find_or_init_room-same setup user n).0)

  -- A join ends the process where the allocator has served the codecs up to one, any of them, and
  -- finds no free port for that one: `NewParticipant` returns a nil participant with its error, and
  -- `StartSession` closes it. The row has been stored and the transport opened.
  pub no_free_ports_panics :
      (replies : Replies Engine Peer) (user : UserSessionId) (m : Manager Peer)
      (transport : PcTransport Peer) (served rest : List (CodecType × CodecParameters))
      (t : CodecType) (params : CodecParameters) (d : Draft)
      → replies.database ≡ none
      → replies.participant.session_description_reply ≡ none
      → (opened replies.participant (participant_options setup user) m.node).0 ≡ ok transport
      → codecs_in_order replies.participant.audio_first
          (opened replies.participant (participant_options setup user) m.node).1
        ≡ served ++ (t, params) ∷ rest
      → allocate_codecs replies.participant.visits served (new_draft m.node.ports) ≡ (ok tt, d)
      → NoneFree (replies.participant.visits params.payload_type) d.draft_ports
      → (start_session setup replies user m).0 ≡ panic
  unfolding start_session save
  no_free_ports_panics replies user m transport served rest t params d stored described is_open
        codecs gone full =
      ap (λ d'. (saved setup replies user m (save d' (session_of user) m.table)).0) stored
      ∙ saved-no_free_ports replies user m
          (record (session_of user) { id = (upserted_row (session_of user) m.table).id })
          (save none (session_of user) m.table).1
          (λ node same.
            ap
              (λ n.
                (new_participant replies.participant (participant_options setup user) setup.engines
                  setup.names n).0)
              same
            ∙ new_participant-no_free_ports replies.participant (participant_options setup user)
                m.node transport served rest t params d described is_open codecs gone full)

  closed-undialled :
      (replies : Replies Engine Peer) (user : UserSessionId) (m : Manager Peer) (room : Room)
      (at : ℕ) (p : Participant Peer)
      → lookup user m.sessions ≡ some room
      → member room.room_id room m.node ≡ some (at, p)
      → close_tracks (tracks_of p.published_tracks) ≡ panic
      → (close_session setup replies user m).0 ≡ panic
  unfolding close_session close_room close_participant
  closed-undialled replies user m room at p found is_member stops = ground arith

  member-put :
      (user : UserSessionId) (room : Room) (node : Node Peer) (at : ℕ) (p p' : Participant Peer)
      → member user room node ≡ some (at, p)
      → member user room (put at p' node) ≡ some (at, p')
  unfolding member
  member-put user room node at p p' h = ground (
    arith,
    get_elem?-set_self node.participants at p'
        (member-there (range_of setup) user room node at p h),
  )

  -- A CloseSession between the start of a track and its dial ends the process: `Close` calls the
  -- connection of the track, which is nil. The user's room leads to the participant, whose map of
  -- tracks is there.
  pub undialled_track_panics :
      (replies : Replies Engine Peer) (user : UserSessionId) (m : Manager Peer) (room : Room)
      (at : ℕ) (p : Participant Peer) (tracks : List (String × MediaTrack)) (track : String)
      (payload_type : ℕ)
      → lookup user m.sessions ≡ some room
      → member room.room_id room m.node ≡ some (at, p)
      → p.published_tracks ≡ some tracks
      → let m' = (step setup (called_back at (track_started none track payload_type)) m).1 in
        (step setup (closes replies user) m').0 ≡ panic
  unfolding step on_media_track
  undialled_track_panics replies user m room at p tracks track payload_type found is_member
        in_place =
      let there = member-there (range_of setup) room.room_id room m.node at p is_member in
      let t = new_media_track p track payload_type in
      let p' : Participant Peer = record p { published_tracks = some (insert track t tracks) } in
      let m' : Manager Peer = record m { node = put at p' m.node } in
      let same : (step setup (called_back at (track_started none track payload_type)) m).1 ≡ m' =
        rw there (rw in_place refl) in
      ap (λ n. (close_session setup replies user n).0) same
      ∙ closed-undialled replies user m' room at p' found
          (member-put room.room_id room m.node at p p' is_member)
          (close_tracks-insert track t tracks refl)
