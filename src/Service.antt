-- ===== src/Service.antt =====
-- internal/service/sessions_manager.go: the sessions of all users.
pub mod Events
pub mod Invariant
pub mod Capacity
pub mod Codecs
pub mod Transcoding
pub mod Rooms
pub mod Joining
pub mod Closing
pub mod Crashes
pub mod Routing
use livelook_sfu.Common.{
  ℕ, Option, none, some, List, [], ◌∷◌, lookup, insert, delete, string_eq, get_elem?, ℤ, pos, inc,
  dec, Outcome, ok, err, panic, Error, room_not_initialized,
}
use livelook_sfu.Config.{Config, WebRtcConfig, WebRtcNames}
use livelook_sfu.Eventbus.Rpc.{UserSessionId, IceCandidateParams, SdpParams, new_join_rpc}
use livelook_sfu.Core.Sessions.{
  Time, Session, SessionsTable, session_of, save, set_offline, start_publish, stop_publish,
}
use livelook_sfu.Rtc.Ports.{new_ports_allocator}
use livelook_sfu.Rtc.MediaEngine.{EngineApi, no_codecs}
use livelook_sfu.Rtc.Transport.{PeerApi}
use livelook_sfu.Rtc.Node.{Participant, Node}
use livelook_sfu.Rtc.Participant.{ParticipantReplies, ParticipantOptions, new_participant}
use livelook_sfu.Rtc.Participant.Methods.{publish_client, close_participant}
use livelook_sfu.Rtc.Room.{
  Room, new_room, join, room_handle_offer, room_add_ice_candidate, room_publish_stream,
  room_stop_stream, close_room,
}

-- `SessionsManager` with what it reaches. `session_total` is the gauge of
-- internal/telemetry/prometheus.go.
pub record Manager (Peer : Type 0) : Type 0 where
  pub node : Node Peer
  pub sessions : List (UserSessionId × Room)
  pub table : SessionsTable
  pub session_total : ℤ

abbrev pub Result : Type 0 → Type 0
Result Peer = Outcome (Unit {0}) × Manager Peer

-- What a manager is made with: the configuration, and the third-party interfaces.
pub record Setup (Engine Peer : Type 0) : Type 0 where
  pub config : Config
  pub web_rtc_config : WebRtcConfig
  pub names : WebRtcNames
  pub engines : EngineApi Engine
  pub peers : PeerApi Peer

-- How the calls of other code come out in the course of one handler.
pub record Replies (Engine Peer : Type 0) : Type 0 where
  pub database : Option Error
  pub now : Time
  pub participant : ParticipantReplies Engine Peer
  pub bus : Option Error
  pub nats_stop : Option Error

module _ {Engine Peer : Type 0} (setup : Setup Engine Peer) where
  -- `NewSessionsManager`, over the table that the database holds.
  unfoldable pub new_sessions_manager : SessionsTable → Manager Peer
  new_sessions_manager table = record {
    node = record {
      ports =
          new_ports_allocator setup.config.rtc.transcoder.port_start
            setup.config.rtc.transcoder.port_end;
      codecs = no_codecs;
      participants = [];
      client_messages = [];
      transcoder_messages = [];
    };
    sessions = [];
    table = table;
    session_total = pos 0;
  }

  -- `findOrInitRoom`
  unfoldable pub find_or_init_room : UserSessionId → Manager Peer → Room × Manager Peer
  find_or_init_room user m = elim (lookup user m.sessions) [
    | some room ↦ (room, m)
    | none ↦ (new_room user, record m { sessions = insert user (new_room user) m.sessions })
  ]

  abbrev pub in_room :
      Option Room → (Room → Manager Peer → Result Peer) → Manager Peer → Result Peer
  in_room none act m = (err room_not_initialized, m)
  in_room (some room) act m = act room m

  -- `findRoom` and the error return that follows each call of it.
  unfoldable pub with_room :
      UserSessionId → (Room → Manager Peer → Result Peer) → Manager Peer → Result Peer
  with_room user act m = in_room (lookup user m.sessions) act m

  abbrev pub on_node : Manager Peer → Outcome (Unit {0}) × Node Peer → Result Peer
  on_node m (r, node) = (r, record m { node = node })

  abbrev pub close_found :
      Option Error → ℕ → Option (Participant Peer) → Node Peer → Outcome (Unit {0}) × Node Peer
  close_found reply at none node = (ok tt, node)
  close_found reply at (some p) node = close_participant setup.peers reply at p node

  -- `participant.Close()`
  abbrev pub close_at : Option Error → ℕ → Node Peer → Outcome (Unit {0}) × Node Peer
  close_at reply at node = close_found reply at (get_elem? node.participants at) node

  abbrev pub after_closing : Error → Manager Peer → Outcome (Unit {0}) × Node Peer → Result Peer
  after_closing e m (ok _, node) = (err e, record m { node = node })
  after_closing e m (err x, node) = (err e, record m { node = node })
  after_closing e m (panic, node) = (panic, record m { node = node })

  -- The join message, and the gauge.
  abbrev pub greeted :
      Replies Engine Peer → ℕ → Manager Peer → Outcome (Unit {0}) × Node Peer → Result Peer
  greeted replies at m (err e, node) = after_closing e m (close_at replies.nats_stop at node)
  greeted replies at m (panic, node) = (panic, record m { node = node })
  greeted replies at m (ok _, node) =
      (ok tt, record m { node = node; session_total = inc m.session_total })

  -- What follows `NewParticipant`: on an error the participant is nil, and closing it panics.
  abbrev pub joined :
      Replies Engine Peer
      → UserSessionId
      → Room
      → Manager Peer
      → Outcome ℕ × Node Peer
      → Result Peer
  joined replies user room m (err e, node) = (panic, record m { node = node })
  joined replies user room m (panic, node) = (panic, record m { node = node })
  joined replies user room m (ok at, node) =
      greeted replies at (record m { sessions = insert user (join user at room) m.sessions })
        (publish_client replies.bus user new_join_rpc node)

  abbrev pub participant_options : UserSessionId → ParticipantOptions
  participant_options user = record {
    participant_user_id = user;
    participant_codecs = setup.config.peer.enabled_codecs;
    rtc_conf = setup.web_rtc_config;
  }

  abbrev pub saved :
      Replies Engine Peer
      → UserSessionId
      → Manager Peer
      → Outcome Session × SessionsTable
      → Result Peer
  saved replies user m (err e, table) = (err e, record m { table = table })
  saved replies user m (panic, table) = (panic, record m { table = table })
  saved replies user m (ok _, table) =
      let (room, m') = find_or_init_room user (record m { table = table }) in
      joined replies user room m' (
        new_participant replies.participant (participant_options user) setup.engines setup.names
          m'.node)

  unfoldable pub start_session : Replies Engine Peer → UserSessionId → Manager Peer → Result Peer
  unfolding find_or_init_room publish_client
  start_session replies user m =
      saved replies user m (save replies.database (session_of user) m.table)

  unfoldable pub handle_offer :
      Replies Engine Peer → UserSessionId → SdpParams → Manager Peer → Result Peer
  unfolding with_room
  handle_offer replies user params m =
      with_room user
        (λ room m'. on_node m' (room_handle_offer setup.peers replies.bus user params room m'.node))
        m

  unfoldable pub add_ice_candidate : UserSessionId → IceCandidateParams → Manager Peer → Result Peer
  unfolding with_room
  add_ice_candidate user params m =
      with_room user
        (λ room m'. on_node m' (room_add_ice_candidate setup.peers user params room m'.node)) m

  abbrev pub taken_off :
      Replies Engine Peer → UserSessionId → Manager Peer → Node Peer → Manager Peer
  taken_off replies user m node = record m {
    node = node;
    table = (set_offline replies.database replies.now user m.table).1;
    sessions = delete user m.sessions;
    session_total = dec m.session_total;
  }

  -- The errors of `room.Close` and of `SetOffline` are logged and the session goes all the same.
  abbrev pub room_closed :
      Replies Engine Peer
      → UserSessionId
      → Manager Peer
      → Outcome (Unit {0}) × Node Peer
      → Result Peer
  room_closed replies user m (ok _, node) = (ok tt, taken_off replies user m node)
  room_closed replies user m (err e, node) = (ok tt, taken_off replies user m node)
  room_closed replies user m (panic, node) = (panic, record m { node = node })

  unfoldable pub close_session : Replies Engine Peer → UserSessionId → Manager Peer → Result Peer
  unfolding with_room
  close_session replies user m =
      with_room user
        (λ room m'.
          room_closed replies user m' (close_room setup.peers replies.nats_stop room m'.node))
        m

  abbrev pub stored :
      Manager Peer → Outcome (Unit {0}) × SessionsTable → (Manager Peer → Result Peer) → Result Peer
  stored m (err e, table) act = (err e, record m { table = table })
  stored m (panic, table) act = (panic, record m { table = table })
  stored m (ok _, table) act = act (record m { table = table })

  unfoldable pub publish_stream : Replies Engine Peer → UserSessionId → Manager Peer → Result Peer
  unfolding with_room
  publish_stream replies user m =
      with_room user
        (λ room m'.
          stored m' (start_publish replies.database replies.now user m'.table)
            (λ n. on_node n (room_publish_stream user room n.node)))
        m

  unfoldable pub stop_stream : Replies Engine Peer → UserSessionId → Manager Peer → Result Peer
  unfolding with_room
  stop_stream replies user m =
      with_room user
        (λ room m'.
          stored m' (stop_publish replies.database replies.now user m'.table)
            (λ n. on_node n (room_stop_stream user room n.node)))
        m

  -- `Subscribe` and `Unsubscribe` only log.
  unfoldable pub subscribe : UserSessionId → UserSessionId → Manager Peer → Result Peer
  subscribe user streamer m = (ok tt, m)

  unfoldable pub unsubscribe : UserSessionId → UserSessionId → Manager Peer → Result Peer
  unsubscribe user streamer m = (ok tt, m)
