-- ===== src/Commands.antt =====
-- The processes: how cmd/server/main.go, cmd/ws/main.go with internal/ws/app.go and
-- cmd/transcode/main.go take their environment, and how the two servers end.
pub mod Shutdown
pub mod Return
use Prim.Native.String.{◌++◌ as append_text}
use livelook_sfu.Common.{
  ℕ, ◌*◌, ◌≡◌, Bool, true, false, Option, none, some, List, [], ◌∷◌, snoc, String, ◌==◌, string_eq,
  if◌then◌else◌,
}

-- `core.Environment`
abbrev pub Environment : Type 0
Environment = String

abbrev pub development_env : Environment
development_env = "development"

abbrev pub production_env : Environment
production_env = "production"

unfoldable pub is_production : Environment → Bool
is_production e = e == production_env

unfoldable pub is_development : Environment → Bool
is_development e = e == development_env

-- The variable APP_ENV, where an empty one counts as none.
unfoldable pub app_env : String → Environment
app_env variable = if variable == "" then development_env else variable

unfoldable pub config_name : Environment → String
config_name e = append_text "config." e

pub data LogLevel : Type 0 where
  info_level debug_level : LogLevel

-- `initLogger` of the WebSocket server, and the level that the two other processes set.
unfoldable pub log_level : Environment → LogLevel
unfolding is_development
log_level e = if is_development e then debug_level else info_level

-- `websocket.Config.MaxMessageSize`
abbrev pub max_message_size : ℕ
max_message_size = 200 * 1024

-- What the shutdown of the main server closes, in the order of its callback; the WebSocket server
-- has nothing to close.
pub data Service : Type 0 where
  sessions_manager sfu_router redis_link db_link : Service

abbrev pub server_services : List Service
server_services = sessions_manager ∷ sfu_router ∷ redis_link ∷ db_link ∷ []

abbrev pub ws_services : List Service
ws_services = []

-- The services that the callback waits for: `<-sfuRouter.Stop()`.
abbrev pub is_router : Service → Bool
is_router sfu_router = true
is_router _ = false

-- Where the goroutine of the router stands, internal/eventbus/router.go: in its `select`, in the handler
-- of a message, past the receive from `stop`, or past `close(router.stopped)`. The WebSocket server has
-- no router, and its callback waits for none.
pub data RouterLoop : Type 0 where
  in_select in_handler told_to_stop stopped : RouterLoop

-- The callback of `RegisterOnShutdown`: not called yet, with what is left for it to close, or past
-- `close(done)`.
pub data Callback : Type 0 where
  not_called : Callback
  closing : List Service → Callback
  awaiting_router : List Service → Callback
  done_closed : Callback

-- How the process ends: `main` returns, or `log.Fatal` ends it.
pub data Exit : Type 0 where
  returned fatal : Exit

pub record Server : Type 0 where
  pub signalled : Bool
  pub listening : Bool
  pub callback : Callback
  pub router_loop : RouterLoop
  pub closed : List Service
  pub exit : Option Exit

abbrev pub started : Server
started = record {
  signalled = false;
  listening = true;
  callback = not_called;
  router_loop = in_select;
  closed = [];
  exit = none;
}

-- The steps of the goroutines, in any order, while the process runs: a signal, `Shutdown`, which
-- stops the listener and calls the callback in a goroutine of its own, the callback, the router, the
-- end of the twenty seconds in which connections may become idle, and the main goroutine. Both channels
-- of the router are unbuffered: its `stop` is sent only where the loop stands in its `select`, and the
-- callback goes on once `stopped` is closed.
pub data Step (services : List Service) : Server → Server → Type 0 where
  signal : (s : Server) → s.exit ≡ none → Step services s (record s { signalled = true })
  shutdown :
      (s : Server)
      → s.exit ≡ none
      → s.signalled ≡ true
      → s.callback ≡ not_called
      → Step services s (record s { listening = false; callback = closing services })
  close_next :
      (s : Server) (x : Service) (rest : List Service)
      → s.exit ≡ none
      → is_router x ≡ false
      → s.callback ≡ closing (x ∷ rest)
      → Step services s (record s { callback = closing rest; closed = snoc s.closed x })
  message :
      (s : Server)
      → s.exit ≡ none
      → s.router_loop ≡ in_select
      → Step services s (record s { router_loop = in_handler })
  handled :
      (s : Server)
      → s.exit ≡ none
      → s.router_loop ≡ in_handler
      → Step services s (record s { router_loop = in_select })
  send_stop :
      (s : Server) (rest : List Service)
      → s.exit ≡ none
      → s.callback ≡ closing (sfu_router ∷ rest)
      → s.router_loop ≡ in_select
      → Step services s (record s { callback = awaiting_router rest; router_loop = told_to_stop })
  close_stopped :
      (s : Server)
      → s.exit ≡ none
      → s.router_loop ≡ told_to_stop
      → Step services s (record s { router_loop = stopped })
  router_awaited :
      (s : Server) (rest : List Service)
      → s.exit ≡ none
      → s.callback ≡ awaiting_router rest
      → s.router_loop ≡ stopped
      → Step services s (record s { callback = closing rest; closed = snoc s.closed sfu_router })
  close_done :
      (s : Server)
      → s.exit ≡ none
      → s.callback ≡ closing []
      → Step services s (record s { callback = done_closed })
  grace_over :
      (s : Server)
      → s.exit ≡ none
      → s.listening ≡ false
      → Step services s (record s { exit = some fatal })
  listen_failed :
      (s : Server)
      → s.exit ≡ none
      → s.listening ≡ true
      → Step services s (record s { exit = some fatal })
  main_returns :
      (s : Server)
      → s.exit ≡ none
      → s.listening ≡ false
      → s.callback ≡ done_closed
      → Step services s (record s { exit = some returned })

pub data Reach (services : List Service) (s : Server) : Server → Type 0 where
  here : Reach services s s
  next : {t u : Server} → Reach services s t → Step services t u → Reach services s u
