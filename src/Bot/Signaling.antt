-- ===== src/Bot/Signaling.antt =====
-- The RPCs that the bot of internal/bot/bot.go reads from its WebSocket.
pub mod Laws
pub mod Delivery
use livelook_sfu.Common.{
  ℕ, ◌+◌, Bool, true, false, Option, none, some, List, [], ◌∷◌, snoc, ◌==◌, string_eq,
  if◌then◌else◌, Outcome, ok, err, panic, Error, external,
}
use livelook_sfu.Eventbus.Rpc.{
  SessionDescription, IceCandidateInit, Rpc, ice_candidate_rpc, sdp_rpc, get_method, Method,
  join_method, ice_candidate_method, sdp_answer_method,
}
use livelook_sfu.Eventbus.Decoding.{Codec, rpc_from_reader}
use livelook_sfu.Rtc.Transport.{PeerApi, flush_candidates}
use livelook_sfu.Bot.{Bot}

-- "can't convert to ICECandidateRpc" and "can't convert to SDPRpc"
abbrev pub cannot_convert_rpc : Error
cannot_convert_rpc = external 0

module _ {Peer : Type 0} (api : PeerApi Peer) where
  abbrev pub candidate_over :
      IceCandidateInit → Option SessionDescription → Peer → Bot Peer → Outcome (Unit {0}) × Bot Peer
  candidate_over candidate (some _) pc b =
      (ok tt, record b { peer_connection = some (api.add_ice_candidate pc candidate).1 })
  candidate_over candidate none pc b =
      (ok tt, record b { pending_candidates = snoc b.pending_candidates candidate })

  abbrev pub candidate_for :
      IceCandidateInit → Option Peer → Bot Peer → Outcome (Unit {0}) × Bot Peer
  candidate_for candidate none b = (panic, b)
  candidate_for candidate (some pc) b = candidate_over candidate (api.remote_description pc) pc b

  -- `addICECandidate`; the peer connection may be nil.
  unfoldable pub bot_add_ice_candidate : IceCandidateInit → Bot Peer → Outcome (Unit {0}) × Bot Peer
  bot_add_ice_candidate candidate b = candidate_for candidate b.peer_connection b

  abbrev pub flushed_to : Option Error × Peer → Bot Peer → Outcome (Unit {0}) × Bot Peer
  flushed_to (some e, pc) b = (err e, record b { peer_connection = some pc })
  flushed_to (none, pc) b = (ok tt, record b { peer_connection = some pc; pending_candidates = [] })

  abbrev pub answered_by : Option Error × Peer → Bot Peer → Outcome (Unit {0}) × Bot Peer
  answered_by (some e, pc) b = (err e, record b { peer_connection = some pc })
  answered_by (none, pc) b = flushed_to (flush_candidates api b.pending_candidates pc) b

  abbrev pub answer_for :
      SessionDescription → Option Peer → Bot Peer → Outcome (Unit {0}) × Bot Peer
  answer_for sdp none b = (panic, b)
  answer_for sdp (some pc) b = answered_by (api.set_remote_description pc sdp) b

  -- `setRemoteDescription`
  unfoldable pub bot_set_remote_description :
      SessionDescription → Bot Peer → Outcome (Unit {0}) × Bot Peer
  unfolding flush_candidates
  bot_set_remote_description sdp b = answer_for sdp b.peer_connection b

  abbrev pub as_candidate : Rpc → Bot Peer → Outcome (Unit {0}) × Bot Peer
  as_candidate (ice_candidate_rpc h p) b = bot_add_ice_candidate p.candidate_init b
  as_candidate _ b = (err cannot_convert_rpc, b)

  abbrev pub as_answer : Rpc → Bot Peer → Outcome (Unit {0}) × Bot Peer
  as_answer (sdp_rpc h p) b = bot_set_remote_description p.session_description b
  as_answer _ b = (err cannot_convert_rpc, b)

  -- The `switch` on the method. A join begins a goroutine, whatever becomes of it.
  unfoldable pub bot_dispatch : Method → Rpc → Bot Peer → Outcome (Unit {0}) × Bot Peer
  unfolding bot_add_ice_candidate bot_set_remote_description
  bot_dispatch method r b =
      if method == join_method
      then (ok tt, record b { joins = b.joins + 1 })
      else if method == ice_candidate_method
      then as_candidate r b
      else if method == sdp_answer_method
      then as_answer r b
      else (ok tt, b)

module _ {Peer Bytes Params : Type 0} (api : PeerApi Peer) (codec : Codec Bytes Params) where
  abbrev pub bot_parsed : Outcome Rpc → Bot Peer → Outcome (Unit {0}) × Bot Peer
  bot_parsed (ok r) b = bot_dispatch api (get_method r) r b
  bot_parsed (err e) b = (err e, b)
  bot_parsed panic b = (panic, b)

  -- `readRPC`, where `message` is what `ReadMessage` answers.
  unfoldable pub read_rpc : Outcome Bytes → Bot Peer → Outcome (Unit {0}) × Bot Peer
  unfolding bot_dispatch rpc_from_reader get_method
  read_rpc (ok text) b = bot_parsed (rpc_from_reader codec text) b
  read_rpc (err e) b = (err e, b)
  read_rpc panic b = (panic, b)

  abbrev pub next_rpc :
      Outcome (Unit {0}) × Bot Peer
      → (Bot Peer → Outcome (Unit {0}) × Bot Peer)
      → Outcome (Unit {0}) × Bot Peer
  next_rpc (ok _, b) rest = rest b
  next_rpc (err e, b) rest = (err e, b)
  next_rpc (panic, b) rest = (panic, b)

  -- The loop of the reader in `Start`: the first error ends it.
  unfoldable pub read_rpcs : List (Outcome Bytes) → Bot Peer → Outcome (Unit {0}) × Bot Peer
  unfolding read_rpc
  read_rpcs [] b = (ok tt, b)
  read_rpcs (message ∷ rest) b = next_rpc (read_rpc message b) (read_rpcs rest)
