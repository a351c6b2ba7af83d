-- ===== src/Bot.antt =====
-- internal/bot/bot.go and cmd/bot/main.go: a client that logs in as an admin, connects to the server
-- by a WebSocket and broadcasts a file. HTTP, the WebSocket and the peer connection are third-party.
pub mod Signaling
pub mod Playing
use livelook_sfu.Common.{
  ℕ, Bool, true, false, Option, none, some, List, [], ◌∷◌, String, Outcome, ok, err, panic, Error,
  return_error,
}
use livelook_sfu.Eventbus.Rpc.{IceCandidateInit, Rpc}

-- `Bot`. `joins` counts the goroutines of `createPeerConnection` that have been begun, and
-- `written_rpcs` holds what has been written to the WebSocket, oldest first.
pub record Bot (Peer : Type 0) : Type 0 where
  pub server_host : String
  pub websocket_open : Bool
  pub peer_connection : Option Peer
  pub pending_candidates : List IceCandidateInit
  pub joins : ℕ
  pub written_rpcs : List Rpc

-- How the calls of `New` answer. The status of the response to the login is not looked at.
pub record NewBotReplies : Type 0 where
  pub cookie_jar_reply : Option Error
  pub url_reply : Option Error
  pub login_reply : Outcome ℕ

-- Why the loop of `Start` ends: the reader is done, or the process is interrupted; then a message
-- closes the WebSocket, and its error is returned.
pub data Ending : Type 0 where
  reader_done : Ending
  interrupted : Option Error → Ending

abbrev pub ending_result : Ending → Outcome (Unit {0})
ending_result reader_done = ok tt
ending_result (interrupted e) = return_error e

module _ {Peer : Type 0} where
  abbrev pub unconnected : String → Bot Peer
  unconnected host = record {
    server_host = host;
    websocket_open = false;
    peer_connection = none;
    pending_candidates = [];
    joins = 0;
    written_rpcs = [];
  }

  abbrev pub logged_in : String → Outcome ℕ → Outcome (Bot Peer)
  logged_in host (ok status) = ok (unconnected host)
  logged_in host (err e) = err e
  logged_in host panic = panic

  abbrev pub with_jar : NewBotReplies → String → Option Error → Option Error → Outcome (Bot Peer)
  with_jar replies host (some e) url = err e
  with_jar replies host none (some e) = err e
  with_jar replies host none none = logged_in host replies.login_reply

  -- `New`
  unfoldable pub new_bot : NewBotReplies → String → Outcome (Bot Peer)
  new_bot replies host = with_jar replies host replies.cookie_jar_reply replies.url_reply

  -- `Close`, where `close_peer` is that of the peer connection.
  unfoldable pub close_bot : (Peer → Peer) → Bot Peer → Bot Peer
  close_bot close_peer b = record b {
    peer_connection = elim b.peer_connection [ none ↦ none | some pc ↦ some (close_peer pc) ];
    websocket_open = false;
  }

  abbrev pub connected :
      Option Error → (Bot Peer → Bot Peer) → Ending → Bot Peer → Outcome (Unit {0}) × Bot Peer
  connected (some e) serve ending b = (err e, b)
  connected none serve ending b = (ending_result ending, serve (record b { websocket_open = true }))

  -- `Start`: `serve` is what the reader does to the bot until the end; `Close` is deferred.
  unfoldable pub start_connection :
      (Peer → Peer)
      → Option Error
      → (Bot Peer → Bot Peer)
      → Ending
      → Bot Peer
      → Outcome (Unit {0}) × Bot Peer
  unfolding close_bot
  start_connection close_peer dial serve ending b =
      let (result, b') = connected dial serve ending b in (result, close_bot close_peer b')

-- `startBot` of cmd/bot/main.go, which takes a failed login for success.
unfoldable pub start_bot :
    {Peer : Type 0} → Outcome (Bot Peer) → (Bot Peer → Outcome (Unit {0})) → Outcome (Unit {0})
start_bot (ok b) start = start b
start_bot (err e) start = ok tt
start_bot panic start = panic
