-- ===== src/Service/Invariant.antt =====
-- What holds of the server after any history.
use livelook_sfu.Common.{
  ℕ, ◌≤◌, ◌≡◌, refl, sym, subst, Bool, ◌&&◌, Option, none, some, List, [], ◌∷◌, lookup, insert,
  string_eq, get_elem?, leb, ltb, if◌then◌else◌, arith, Outcome, ok, err, panic, Error,
}
use livelook_sfu.Eventbus.Rpc.{UserSessionId}
use livelook_sfu.Rtc.Ports.Laws.{taken, known-new, taken-le-known}
use livelook_sfu.Rtc.Node.{Participant, Node}
use livelook_sfu.Rtc.Room.{Room, join}
use livelook_sfu.Rtc.Ownership.{holders}
use livelook_sfu.Rtc.Ownership.Invariant.{NodeInv, close_participant-NodeInv}
use livelook_sfu.Rtc.Ownership.Creation.{new_participant-NodeInv}
use livelook_sfu.Rtc.Ownership.Methods.{
  publish_client-NodeInv, send_ice_candidate-NodeInv, on_data_channel-NodeInv,
  on_media_track-NodeInv, dial_track-NodeInv, handle_primary_state_change-NodeInv,
}
use livelook_sfu.Rtc.Ownership.Rooms.{
  room_publish_stream-NodeInv, room_stop_stream-NodeInv, room_handle_offer-NodeInv,
  room_add_ice_candidate-NodeInv, close_room-NodeInv,
}
use livelook_sfu.Core.Sessions.{
  Session, SessionsTable, save, start_publish, stop_publish, session_of,
}
use livelook_sfu.Service.{
  Manager, Result, Setup, Replies, new_sessions_manager, find_or_init_room, in_room, close_found,
  after_closing, room_closed, greeted, joined, saved, stored, start_session, handle_offer,
  add_ice_candidate, close_session, publish_stream, stop_stream, subscribe, unsubscribe,
}
use livelook_sfu.Service.Events.{
  Callback, candidate_found, state_changed, data_channel_opened, track_started, track_dialled,
  Event, joins, closes, publishes, stops, offers, sends_candidate, subscribes, unsubscribes,
  called_back, call_back, at_participant, step, then_run, run,
}

module _ {Engine Peer : Type 0} (setup : Setup Engine Peer) where
  -- The ports of the configuration.
  abbrev pub range_of : ℕ → Bool
  range_of q =
      leb setup.config.rtc.transcoder.port_start q && ltb q setup.config.rtc.transcoder.port_end

  abbrev pub Inv : Manager Peer → Type 0
  Inv m = NodeInv range_of m.node

  close_found-Inv :
      (reply : Option Error) (at : ℕ) (found : Option (Participant Peer)) (node : Node Peer)
      → get_elem? node.participants at ≡ found
      → NodeInv range_of node
      → NodeInv range_of (close_found setup reply at found node).1
  close_found-Inv reply at none node there v = v
  close_found-Inv reply at (some p) node there v =
      close_participant-NodeInv range_of setup.peers reply at p node there v

  after_closing-Inv :
      (e : Error) (m : Manager Peer) (r : Outcome (Unit {0}) × Node Peer)
      → NodeInv range_of r.1
      → Inv (after_closing setup e m r).1
  after_closing-Inv e m (ok _, node) v = v
  after_closing-Inv e m (err x, node) v = v
  after_closing-Inv e m (panic, node) v = v

  room_closed-Inv :
      (replies : Replies Engine Peer) (user : UserSessionId) (m : Manager Peer)
      (r : Outcome (Unit {0}) × Node Peer)
      → NodeInv range_of r.1
      → Inv (room_closed setup replies user m r).1
  room_closed-Inv replies user m (ok _, node) v = v
  room_closed-Inv replies user m (err e, node) v = v
  room_closed-Inv replies user m (panic, node) v = v

  greeted-Inv :
      (replies : Replies Engine Peer) (at : ℕ) (m : Manager Peer)
      (r : Outcome (Unit {0}) × Node Peer)
      → NodeInv range_of r.1
      → Inv (greeted setup replies at m r).1
  greeted-Inv replies at m (ok _, node) v = v
  greeted-Inv replies at m (err e, node) v =
      after_closing-Inv e m _ (close_found-Inv replies.nats_stop at _ node refl v)
  greeted-Inv replies at m (panic, node) v = v

  joined-Inv :
      (replies : Replies Engine Peer) (user : UserSessionId) (room : Room) (m : Manager Peer)
      (r : Outcome ℕ × Node Peer)
      → NodeInv range_of r.1
      → Inv (joined setup replies user room m r).1
  joined-Inv replies user room m (ok at, node) v =
      greeted-Inv replies at (record m { sessions = insert user (join user at room) m.sessions }) _
        (publish_client-NodeInv range_of at node replies.bus user _ v)
  joined-Inv replies user room m (err e, node) v = v
  joined-Inv replies user room m (panic, node) v = v

  -- Only the rooms change.
  pub find_or_init_room-node :
      (user : UserSessionId) (m : Manager Peer) → (find_or_init_room setup user m).1.node ≡ m.node
  unfolding find_or_init_room
  find_or_init_room-node user m = ground arith

  saved-Inv :
      (replies : Replies Engine Peer) (user : UserSessionId) (m : Manager Peer)
      (r : Outcome Session × SessionsTable)
      → Inv m
      → Inv (saved setup replies user m r).1
  saved-Inv replies user m (err e, table) v = v
  saved-Inv replies user m (panic, table) v = v
  saved-Inv replies user m (ok s, table) v =
      joined-Inv replies user _ (find_or_init_room setup user (record m { table = table })).1 _ (
        new_participant-NodeInv range_of replies.participant _ setup.engines setup.names _ (
          subst (NodeInv range_of) (sym (find_or_init_room-node user (record m { table = table })))
            v))

  pub start_session-Inv :
      (replies : Replies Engine Peer) (user : UserSessionId) (m : Manager Peer)
      → Inv m
      → Inv (start_session setup replies user m).1
  unfolding start_session
  start_session-Inv replies user m v =
      saved-Inv replies user m (save replies.database (session_of user) m.table) v

  in_room-Inv :
      (room : Option Room) (act : Room → Manager Peer → Result Peer) (m : Manager Peer)
      → Inv m
      → ((x : Room) → Inv (act x m).1)
      → Inv (in_room setup room act m).1
  in_room-Inv none act m v h = v
  in_room-Inv (some x) act m v h = h x

  stored-Inv :
      (m : Manager Peer) (r : Outcome (Unit {0}) × SessionsTable) (act : Manager Peer → Result Peer)
      → Inv m
      → ((n : Manager Peer) → Inv n → Inv (act n).1)
      → Inv (stored setup m r act).1
  stored-Inv m (ok _, table) act v h = h (record m { table = table }) v
  stored-Inv m (err e, table) act v h = v
  stored-Inv m (panic, table) act v h = v

  call_back-Inv :
      (c : Callback) (at : ℕ) (p : Participant Peer) (node : Node Peer)
      → get_elem? node.participants at ≡ some p
      → NodeInv range_of node
      → NodeInv range_of (call_back setup c at p node).1
  unfolding call_back
  call_back-Inv (candidate_found reply candidate) at p node there v =
      send_ice_candidate-NodeInv range_of at p node there v reply candidate _
  call_back-Inv (state_changed reply state) at p node there v =
      handle_primary_state_change-NodeInv range_of at p node there v setup.peers reply state
  call_back-Inv (data_channel_opened label) at p node there v =
      on_data_channel-NodeInv range_of at p node there v label
  call_back-Inv (track_started resolved track payload_type) at p node there v =
      on_media_track-NodeInv range_of at p node there v resolved track payload_type
  call_back-Inv (track_dialled reply track) at p node there v =
      dial_track-NodeInv range_of at p node there v reply track

  at_participant-Inv :
      (c : Callback) (at : ℕ) (found : Option (Participant Peer)) (m : Manager Peer)
      → get_elem? m.node.participants at ≡ found
      → Inv m
      → Inv (at_participant setup c at found m).1
  at_participant-Inv c at none m there v = v
  at_participant-Inv c at (some p) m there v = call_back-Inv c at p m.node there v

  -- Every message and every callback keeps the invariant, whatever the code that it calls answers.
  pub step-Inv : (e : Event Engine Peer) (m : Manager Peer) → Inv m → Inv (step setup e m).1
  unfolding step handle_offer add_ice_candidate close_session publish_stream stop_stream subscribe
      unsubscribe
  step-Inv (joins replies user) m v = start_session-Inv replies user m v
  step-Inv (closes replies user) m v = in_room-Inv (lookup user m.sessions) _ m v (λ room.
      room_closed-Inv replies user m _
        (close_room-NodeInv range_of room m.node v setup.peers replies.nats_stop))
  step-Inv (publishes replies user) m v = in_room-Inv (lookup user m.sessions) _ m v (λ room.
      stored-Inv m (start_publish replies.database replies.now user m.table) _ v
        (λ n w. room_publish_stream-NodeInv range_of room n.node w user))
  step-Inv (stops replies user) m v = in_room-Inv (lookup user m.sessions) _ m v (λ room.
      stored-Inv m (stop_publish replies.database replies.now user m.table) _ v
        (λ n w. room_stop_stream-NodeInv range_of room n.node w user))
  step-Inv (offers replies user params) m v =
      in_room-Inv (lookup user m.sessions) _ m v (λ room.
        room_handle_offer-NodeInv range_of room m.node v setup.peers replies.bus user params)
  step-Inv (sends_candidate user params) m v =
      in_room-Inv (lookup user m.sessions) _ m v
        (λ room. room_add_ice_candidate-NodeInv range_of room m.node v setup.peers user params)
  step-Inv (subscribes user streamer) m v = v
  step-Inv (unsubscribes user streamer) m v = v
  step-Inv (called_back at c) m v =
      at_participant-Inv c at (get_elem? m.node.participants at) m refl v

  then_run-Inv :
      (r : Result Peer) (rest : Manager Peer → Manager Peer)
      → Inv r.1
      → ((m : Manager Peer) → Inv m → Inv (rest m))
      → Inv (then_run setup r rest)
  then_run-Inv (ok _, m) rest v h = h m v
  then_run-Inv (err e, m) rest v h = h m v
  then_run-Inv (panic, m) rest v h = v

  pub run-Inv : (es : List (Event Engine Peer)) (m : Manager Peer) → Inv m → Inv (run setup es m)
  unfolding run
  run-Inv [] m v = v
  run-Inv (e ∷ es) m v = then_run-Inv (step setup e m) _ (step-Inv e m v) (run-Inv es)

  pub new_sessions_manager-Inv : (table : SessionsTable) → Inv (new_sessions_manager setup table)
  unfolding new_sessions_manager holders
  new_sessions_manager-Inv table = record {
    exclusive = λ q. omega arith;
    in_range = λ q.
        known-new setup.config.rtc.transcoder.port_start setup.config.rtc.transcoder.port_end q;
    no_subscriber = tt;
  }

  -- After any messages and callbacks no port of the transcoder is held by two participants, or
  -- twice by one; a held port is marked as taken; and the allocator knows the ports of the
  -- configured range and no others.
  pub ports_exclusive :
      (es : List (Event Engine Peer)) (table : SessionsTable) (q : ℕ)
      → let node = (run setup es (new_sessions_manager setup table)).node in
        (holders q node.participants ≤ taken q node.ports)
        × (taken q node.ports ≤ (if range_of q then 1 else 0))
  ports_exclusive es table q =
      let v = run-Inv es _ (new_sessions_manager-Inv table) in
      let ports = (run setup es (new_sessions_manager setup table)).node.ports in
      (
        v.exclusive q,
        subst (λ b. taken q ports ≤ (if b then 1 else 0)) (v.in_range q) (taken-le-known q ports),
      )
