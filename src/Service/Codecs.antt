-- ===== src/Service/Codecs.antt =====
-- The codec table of internal/rtc/mediaengine.go in the course of the session manager.
use livelook_sfu.Common.{
  ℕ, ◌≡◌, refl, sym, subst, Option, none, some, List, [], ◌∷◌, lookup, insert, string_eq, get_elem?,
  Outcome, ok, err, panic, Error,
}
use livelook_sfu.Eventbus.Rpc.{UserSessionId, new_join_rpc, publisher_target}
use livelook_sfu.Rtc.MediaEngine.{CodecTable}
use livelook_sfu.Rtc.Node.{Participant, Node}
use livelook_sfu.Rtc.Participant.{ParticipantReplies, new_participant}
use livelook_sfu.Rtc.Participant.Media.{MakesForwarding}
use livelook_sfu.Rtc.Participant.Media.Codecs.{IsSound, no_codecs-IsSound}
use livelook_sfu.Rtc.Participant.Media.Forwarding.{
  new_participant-IsSound, new_participant-MakesForwarding,
}
use livelook_sfu.Rtc.Room.{Room, join, room_stop_stream}
use livelook_sfu.Rtc.Tables.{
  SameTable, publish_client-SameTable, send_ice_candidate-SameTable, on_data_channel-SameTable,
  on_media_track-SameTable, dial_track-SameTable, close_participant-SameTable,
  handle_primary_state_change-SameTable, room_handle_offer-SameTable,
  room_add_ice_candidate-SameTable, close_room-SameTable, room_publish_stream-SameTable,
}
use livelook_sfu.Core.Sessions.{
  Session, SessionsTable, save, start_publish, stop_publish, session_of,
}
use livelook_sfu.Service.{
  Manager, Result, Setup, Replies, new_sessions_manager, find_or_init_room, in_room, close_found,
  after_closing, room_closed, greeted, joined, saved, stored, start_session, handle_offer,
  add_ice_candidate, close_session, publish_stream, stop_stream, subscribe, unsubscribe,
  participant_options,
}
use livelook_sfu.Service.Invariant.{find_or_init_room-node}
use livelook_sfu.Service.Events.{
  Callback, candidate_found, state_changed, data_channel_opened, track_started, track_dialled,
  Event, joins, closes, publishes, stops, offers, sends_candidate, subscribes, unsubscribes,
  called_back, call_back, at_participant, step, then_run, run,
}

-- The table of the process is sound.
abbrev SoundNode : {Peer : Type 0} → Node Peer → Type 0
SoundNode node = IsSound node.codecs

same_table : {before after : CodecTable} → IsSound before → after ≡ before → IsSound after
same_table v e = subst IsSound (sym e) v

module _ {Engine Peer : Type 0} (setup : Setup Engine Peer) where
  close_found-SoundNode :
      (reply : Option Error) (at : ℕ) (found : Option (Participant Peer)) (node : Node Peer)
      → SoundNode node
      → SoundNode (close_found setup reply at found node).1
  close_found-SoundNode reply at none node v = v
  close_found-SoundNode reply at (some p) node v =
      same_table v (close_participant-SameTable reply node setup.peers at p)

  after_closing-SoundNode :
      (e : Error) (m : Manager Peer) (r : Outcome (Unit {0}) × Node Peer)
      → SoundNode r.1
      → SoundNode (after_closing setup e m r).1.node
  after_closing-SoundNode e m (ok _, node) v = v
  after_closing-SoundNode e m (err x, node) v = v
  after_closing-SoundNode e m (panic, node) v = v

  room_closed-SameTable :
      (replies : Replies Engine Peer) (user : UserSessionId) (m : Manager Peer)
      (r : Outcome (Unit {0}) × Node Peer)
      → SameTable m.node r.1
      → SameTable m.node (room_closed setup replies user m r).1.node
  room_closed-SameTable replies user m (ok _, node) e = e
  room_closed-SameTable replies user m (err x, node) e = e
  room_closed-SameTable replies user m (panic, node) e = e

  greeted-SoundNode :
      (replies : Replies Engine Peer) (at : ℕ) (m : Manager Peer)
      (r : Outcome (Unit {0}) × Node Peer)
      → SoundNode r.1
      → SoundNode (greeted setup replies at m r).1.node
  greeted-SoundNode replies at m (ok _, node) v = v
  greeted-SoundNode replies at m (err e, node) v =
      after_closing-SoundNode e m _
        (close_found-SoundNode replies.nats_stop at (get_elem? node.participants at) node v)
  greeted-SoundNode replies at m (panic, node) v = v

  joined-SoundNode :
      (replies : Replies Engine Peer) (user : UserSessionId) (room : Room) (m : Manager Peer)
      (r : Outcome ℕ × Node Peer)
      → SoundNode r.1
      → SoundNode (joined setup replies user room m r).1.node
  joined-SoundNode replies user room m (ok at, node) v =
      greeted-SoundNode replies at
        (record m { sessions = insert user (join user at room) m.sessions }) _
        (same_table v (publish_client-SameTable replies.bus node user new_join_rpc))
  joined-SoundNode replies user room m (err e, node) v = v
  joined-SoundNode replies user room m (panic, node) v = v

  saved-SoundNode :
      (replies : Replies Engine Peer) (user : UserSessionId) (m : Manager Peer)
      (r : Outcome Session × SessionsTable)
      → SoundNode m.node
      → SoundNode (saved setup replies user m r).1.node
  saved-SoundNode replies user m (err e, table) v = v
  saved-SoundNode replies user m (panic, table) v = v
  saved-SoundNode replies user m (ok s, table) v =
      joined-SoundNode replies user _ (find_or_init_room setup user (record m { table = table })).1
        _
        (new_participant-IsSound replies.participant _ setup.engines setup.names _ (
          subst SoundNode (sym (find_or_init_room-node setup user (record m { table = table }))) v))

  in_room-SoundNode :
      (room : Option Room) (act : Room → Manager Peer → Result Peer) (m : Manager Peer)
      → SoundNode m.node
      → ((x : Room) → SameTable m.node (act x m).1.node)
      → SoundNode (in_room setup room act m).1.node
  in_room-SoundNode none act m v h = v
  in_room-SoundNode (some x) act m v h = same_table v (h x)

  stored-SameTable :
      (m : Manager Peer) (r : Outcome (Unit {0}) × SessionsTable) (act : Manager Peer → Result Peer)
      → ((n : Manager Peer) → SameTable n.node (act n).1.node)
      → SameTable m.node (stored setup m r act).1.node
  stored-SameTable m (ok _, table) act h = h (record m { table = table })
  stored-SameTable m (err e, table) act h = refl
  stored-SameTable m (panic, table) act h = refl

  call_back-SameTable :
      (c : Callback) (at : ℕ) (p : Participant Peer) (node : Node Peer)
      → SameTable node (call_back setup c at p node).1
  unfolding call_back
  call_back-SameTable (candidate_found reply candidate) at p node =
      send_ice_candidate-SameTable reply node p candidate publisher_target
  call_back-SameTable (state_changed reply state) at p node =
      handle_primary_state_change-SameTable reply node setup.peers at p state
  call_back-SameTable (data_channel_opened label) at p node =
      on_data_channel-SameTable none node at p label
  call_back-SameTable (track_started resolved track payload_type) at p node =
      on_media_track-SameTable resolved node at p track payload_type
  call_back-SameTable (track_dialled reply track) at p node =
      dial_track-SameTable reply node at p track

  at_participant-SoundNode :
      (c : Callback) (at : ℕ) (found : Option (Participant Peer)) (m : Manager Peer)
      → SoundNode m.node
      → SoundNode (at_participant setup c at found m).1.node
  at_participant-SoundNode c at none m v = v
  at_participant-SoundNode c at (some p) m v = same_table v (call_back-SameTable c at p m.node)

  step-SoundNode :
      (e : Event Engine Peer) (m : Manager Peer)
      → SoundNode m.node
      → SoundNode (step setup e m).1.node
  unfolding step start_session handle_offer add_ice_candidate close_session publish_stream
      stop_stream subscribe unsubscribe room_stop_stream
  step-SoundNode (joins replies user) m v =
      saved-SoundNode replies user m (save replies.database (session_of user) m.table) v
  step-SoundNode (closes replies user) m v =
      in_room-SoundNode (lookup user m.sessions) _ m v (λ room.
        room_closed-SameTable replies user m _
          (close_room-SameTable setup.peers room m.node replies.nats_stop))
  step-SoundNode (publishes replies user) m v =
      in_room-SoundNode (lookup user m.sessions) _ m v (λ room.
        stored-SameTable m (start_publish replies.database replies.now user m.table) _
          (λ n. room_publish_stream-SameTable user room n.node))
  step-SoundNode (stops replies user) m v =
      in_room-SoundNode (lookup user m.sessions) _ m v (λ room.
        stored-SameTable m (stop_publish replies.database replies.now user m.table) _ (λ n. refl))
  step-SoundNode (offers replies user params) m v =
      in_room-SoundNode (lookup user m.sessions) _ m v
        (λ room. room_handle_offer-SameTable setup.peers room m.node replies.bus user params)
  step-SoundNode (sends_candidate user params) m v =
      in_room-SoundNode (lookup user m.sessions) _ m v
        (λ room. room_add_ice_candidate-SameTable setup.peers room m.node user params)
  step-SoundNode (subscribes user streamer) m v = v
  step-SoundNode (unsubscribes user streamer) m v = v
  step-SoundNode (called_back at c) m v =
      at_participant-SoundNode c at (get_elem? m.node.participants at) m v

  then_run-SoundNode :
      (r : Result Peer) (rest : Manager Peer → Manager Peer)
      → SoundNode r.1.node
      → ((m : Manager Peer) → SoundNode m.node → SoundNode (rest m).node)
      → SoundNode (then_run setup r rest).node
  then_run-SoundNode (ok _, m) rest v h = h m v
  then_run-SoundNode (err e, m) rest v h = h m v
  then_run-SoundNode (panic, m) rest v h = v

  run-SoundNode :
      (es : List (Event Engine Peer)) (m : Manager Peer)
      → SoundNode m.node
      → SoundNode (run setup es m).node
  unfolding run
  run-SoundNode [] m v = v
  run-SoundNode (e ∷ es) m v =
      then_run-SoundNode (step setup e m) _ (step-SoundNode e m v) (run-SoundNode es)

  -- After any messages and callbacks the codec table is sound (payload types that differ and fit into
  -- a byte, Opus only for audio), and a participant that is made next forwards the packets of each
  -- codec to the port that it tells the transcoder.
  pub run-MakesForwarding :
      (es : List (Event Engine Peer)) (table : SessionsTable)
      (replies : ParticipantReplies Engine Peer) (user : UserSessionId)
      → let node = (run setup es (new_sessions_manager setup table)).node in
        IsSound node.codecs
        × MakesForwarding node.participants (
            new_participant replies (participant_options setup user) setup.engines setup.names node)
  unfolding new_sessions_manager
  run-MakesForwarding es table replies user =
      let node = (run setup es (new_sessions_manager setup table)).node in
      let v : SoundNode node =
        run-SoundNode es (new_sessions_manager setup table) no_codecs-IsSound in
      (
        v,
        new_participant-MakesForwarding replies (participant_options setup user) setup.engines
            setup.names node v,
      )
