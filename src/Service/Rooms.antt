-- ===== src/Service/Rooms.antt =====
-- A room of internal/service/sessions_manager.go stands under its own ID.
use livelook_sfu.Common.{
  ℕ, ◌≡◌, refl, Option, none, some, List, [], ◌∷◌, lookup, insert, delete, lookup-insert,
  lookup-delete, ◌==◌, string_eq, string_beq_iff, Bool-cases, inl, inr, arith, Outcome, ok, err,
  panic, Error,
}
use livelook_sfu.Eventbus.Rpc.{UserSessionId, new_join_rpc}
use livelook_sfu.Rtc.Participant.Methods.{publish_client}
use livelook_sfu.Rtc.Node.{Participant, Node}
use livelook_sfu.Rtc.Room.{Room, new_room, join}
use livelook_sfu.Core.Sessions.{
  Session, SessionsTable, save, start_publish, stop_publish, session_of,
}
use livelook_sfu.Service.{
  Manager, Result, Setup, Replies, new_sessions_manager, find_or_init_room, in_room, greeted,
  after_closing, room_closed, joined, saved, stored, start_session, handle_offer, add_ice_candidate,
  close_session, publish_stream, stop_stream, subscribe, unsubscribe,
}
use livelook_sfu.Service.Events.{
  Callback, Event, joins, closes, publishes, stops, offers, sends_candidate, subscribes,
  unsubscribes, called_back, at_participant, step, then_run, run,
}

abbrev pub Named : List (UserSessionId × Room) → Type 0
Named sessions =
    (u : UserSessionId) (room : Room) → lookup u sessions ≡ some room → room.room_id ≡ u

pub Named-insert :
    (user : UserSessionId) (room : Room) (sessions : List (UserSessionId × Room))
    → room.room_id ≡ user
    → Named sessions
    → Named (insert user room sessions)
Named-insert user room sessions own named u r h = elim (Bool-cases (user == u)) [
  | inl e ↦ ground (arith, (string_beq_iff user u).0 e, lookup-insert user u room sessions)
  | inr e ↦ named u r (ground (arith, lookup-insert user u room sessions))
]

Named-delete :
    (user : UserSessionId) (sessions : List (UserSessionId × Room))
    → Named sessions
    → Named (delete user sessions)
Named-delete user sessions named u r h = elim (Bool-cases (user == u)) [
  | inl e ↦ ground (arith, lookup-delete user u sessions)
  | inr e ↦ named u r (ground (arith, lookup-delete user u sessions))
]

module _ {Engine Peer : Type 0} (setup : Setup Engine Peer) where
  abbrev Rooms : Manager Peer → Type 0
  Rooms m = Named m.sessions

  -- The room that is found or made is the user's own, and stands in the map from then on.
  pub find_or_init_room-found :
      (user : UserSessionId) (m : Manager Peer)
      → lookup user (find_or_init_room setup user m).1.sessions
        ≡ some (find_or_init_room setup user m).0
  unfolding find_or_init_room
  find_or_init_room-found user m =
      ground (arith, string_beq_iff user user, lookup-insert user user (new_room user) m.sessions)

  pub find_or_init_room-Named :
      (user : UserSessionId) (m : Manager Peer)
      → Named m.sessions
      → Named (find_or_init_room setup user m).1.sessions
  unfolding find_or_init_room new_room
  find_or_init_room-Named user m named =
      ground (arith, Named-insert user (new_room user) m.sessions refl named)

  after_closing-Named :
      (e : Error) (m : Manager Peer) (r : Outcome (Unit {0}) × Node Peer)
      → Rooms m
      → Rooms (after_closing setup e m r).1
  after_closing-Named e m (ok _, node) named = named
  after_closing-Named e m (err x, node) named = named
  after_closing-Named e m (panic, node) named = named

  room_closed-Named :
      (replies : Replies Engine Peer) (user : UserSessionId) (m : Manager Peer)
      (r : Outcome (Unit {0}) × Node Peer)
      → Rooms m
      → Rooms (room_closed setup replies user m r).1
  room_closed-Named replies user m (ok _, node) named = Named-delete user m.sessions named
  room_closed-Named replies user m (err e, node) named = Named-delete user m.sessions named
  room_closed-Named replies user m (panic, node) named = named

  greeted-Named :
      (replies : Replies Engine Peer) (at : ℕ) (m : Manager Peer)
      (r : Outcome (Unit {0}) × Node Peer)
      → Rooms m
      → Rooms (greeted setup replies at m r).1
  greeted-Named replies at m (ok _, node) named = named
  greeted-Named replies at m (err e, node) named = after_closing-Named e m _ named
  greeted-Named replies at m (panic, node) named = named

  joined-Named :
      (replies : Replies Engine Peer) (user : UserSessionId) (room : Room) (m : Manager Peer)
      (r : Outcome ℕ × Node Peer)
      → room.room_id ≡ user
      → Rooms m
      → Rooms (joined setup replies user room m r).1
  unfolding join
  joined-Named replies user room m (ok at, node) own named =
      greeted-Named replies at (record m { sessions = insert user (join user at room) m.sessions })
        (publish_client replies.bus user new_join_rpc node)
        (Named-insert user (join user at room) m.sessions own named)
  joined-Named replies user room m (err e, node) own named = named
  joined-Named replies user room m (panic, node) own named = named

  saved-Named :
      (replies : Replies Engine Peer) (user : UserSessionId) (m : Manager Peer)
      (r : Outcome Session × SessionsTable)
      → Rooms m
      → Rooms (saved setup replies user m r).1
  saved-Named replies user m (err e, table) named = named
  saved-Named replies user m (panic, table) named = named
  saved-Named replies user m (ok s, table) named =
      let n = record m { table = table } in
      let named' = find_or_init_room-Named user n named in
      joined-Named replies user (find_or_init_room setup user n).0
        (find_or_init_room setup user n).1 _ (named' user _ (find_or_init_room-found user n)) named'

  in_room-Named :
      (room : Option Room) (act : Room → Manager Peer → Result Peer) (m : Manager Peer)
      → Rooms m
      → ((x : Room) → Rooms (act x m).1)
      → Rooms (in_room setup room act m).1
  in_room-Named none act m named h = named
  in_room-Named (some x) act m named h = h x

  stored-Named :
      (m : Manager Peer) (r : Outcome (Unit {0}) × SessionsTable) (act : Manager Peer → Result Peer)
      → Rooms m
      → ((n : Manager Peer) → Rooms n → Rooms (act n).1)
      → Rooms (stored setup m r act).1
  stored-Named m (ok _, table) act named h = h (record m { table = table }) named
  stored-Named m (err e, table) act named h = named
  stored-Named m (panic, table) act named h = named

  at_participant-Named :
      (c : Callback) (at : ℕ) (found : Option (Participant Peer)) (m : Manager Peer)
      → Rooms m
      → Rooms (at_participant setup c at found m).1
  at_participant-Named c at none m named = named
  at_participant-Named c at (some p) m named = named

  step-Named : (e : Event Engine Peer) (m : Manager Peer) → Rooms m → Rooms (step setup e m).1
  unfolding step start_session handle_offer add_ice_candidate close_session publish_stream
      stop_stream subscribe unsubscribe
  step-Named (joins replies user) m named =
      saved-Named replies user m (save replies.database (session_of user) m.table) named
  step-Named (closes replies user) m named =
      in_room-Named (lookup user m.sessions) _ m named
        (λ room. room_closed-Named replies user m _ named)
  step-Named (publishes replies user) m named =
      in_room-Named (lookup user m.sessions) _ m named (λ room.
        stored-Named m (start_publish replies.database replies.now user m.table) _ named (λ n w. w))
  step-Named (stops replies user) m named =
      in_room-Named (lookup user m.sessions) _ m named (λ room.
        stored-Named m (stop_publish replies.database replies.now user m.table) _ named (λ n w. w))
  step-Named (offers replies user params) m named =
      in_room-Named (lookup user m.sessions) _ m named (λ room. named)
  step-Named (sends_candidate user params) m named =
      in_room-Named (lookup user m.sessions) _ m named (λ room. named)
  step-Named (subscribes user streamer) m named = named
  step-Named (unsubscribes user streamer) m named = named
  step-Named (called_back at c) m named = at_participant-Named c at _ m named

  then_run-Named :
      (r : Result Peer) (rest : Manager Peer → Manager Peer)
      → Rooms r.1
      → ((m : Manager Peer) → Rooms m → Rooms (rest m))
      → Rooms (then_run setup r rest)
  then_run-Named (ok _, m) rest named h = h m named
  then_run-Named (err e, m) rest named h = h m named
  then_run-Named (panic, m) rest named h = named

  run-Named : (es : List (Event Engine Peer)) (m : Manager Peer) → Rooms m → Rooms (run setup es m)
  unfolding run
  run-Named [] m named = named
  run-Named (e ∷ es) m named =
      then_run-Named (step setup e m) _ (step-Named e m named) (run-Named es)

  -- After any messages and callbacks the room that is found for a user is the user's own.
  pub rooms-Named :
      (es : List (Event Engine Peer)) (table : SessionsTable)
      → Named (run setup es (new_sessions_manager setup table)).sessions
  unfolding new_sessions_manager lookup
  rooms-Named es table = run-Named es _ (λ u room h. cc)
