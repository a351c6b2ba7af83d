-- ===== src/Bot/Playing.antt =====
-- `createPeerConnection` of internal/bot/bot.go: the offer, and the frames of the file.
use livelook_sfu.Common.{Option, none, some, List, [], ◌∷◌, snoc, Outcome, ok, err, panic, Error}
use livelook_sfu.Eventbus.Rpc.{
  SessionDescription, IceCandidateInit, publisher_target, new_ice_candidate_rpc, new_sdp_offer_rpc,
}
use livelook_sfu.Eventbus.Decoding.{and_then}
use livelook_sfu.Bot.{Bot}

abbrev pub check : Option Error → Outcome (Unit {0})
check none = ok tt
check (some e) = err e

-- How the calls answer that are made before the connection is there, of the engine and the
-- interceptors, and those after it.
pub record OfferReplies (Peer : Type 0) : Type 0 where
  pub default_codecs_reply : Option Error
  pub twcc_reply : Option Error
  pub interceptors_reply : Option Error
  pub new_peer_reply : Outcome Peer
  pub new_track_reply : Option Error
  pub add_track : Peer → Option Error × Peer
  pub create_offer : Peer → Outcome SessionDescription
  pub set_local : Peer → SessionDescription → Option Error × Peer
  pub write_reply : Option Error
  pub open_file_reply : Option Error
  pub ivf_reply : Option Error

module _ {Peer : Type 0} (replies : OfferReplies Peer) where
  -- The field is assigned what `NewPeerConnection` returns, which is nil with an error.
  abbrev pub opened : Outcome Peer → Bot Peer → Outcome Peer × Bot Peer
  opened (ok pc) b = (ok pc, record b { peer_connection = some pc })
  opened (err e) b = (err e, record b { peer_connection = none })
  opened panic b = (panic, b)

  abbrev pub open_after : Outcome (Unit {0}) → Bot Peer → Outcome Peer × Bot Peer
  open_after (ok _) b = opened replies.new_peer_reply b
  open_after (err e) b = (err e, b)
  open_after panic b = (panic, b)

  -- Up to the assignment of the peer connection.
  unfoldable pub open_connection : Bot Peer → Outcome Peer × Bot Peer
  open_connection b =
      open_after
        (and_then (check replies.default_codecs_reply)
          (λ _. and_then (check replies.twcc_reply) (λ _. check replies.interceptors_reply)))
        b

  abbrev pub hold : Peer → Bot Peer → Bot Peer
  hold pc b = record b { peer_connection = some pc }

  abbrev pub written_offer :
      SessionDescription → Option Error → Bot Peer → Outcome (Unit {0}) × Bot Peer
  written_offer offer (some e) b = (err e, b)
  written_offer offer none b = (
    and_then (check replies.open_file_reply) (λ _. check replies.ivf_reply),
    record b { written_rpcs = snoc b.written_rpcs (new_sdp_offer_rpc offer publisher_target) },
  )

  abbrev pub local_set :
      SessionDescription → Option Error × Peer → Bot Peer → Outcome (Unit {0}) × Bot Peer
  local_set offer (some e, pc) b = (err e, hold pc b)
  local_set offer (none, pc) b = written_offer offer replies.write_reply (hold pc b)

  abbrev pub offer_made :
      Peer → Outcome SessionDescription → Bot Peer → Outcome (Unit {0}) × Bot Peer
  offer_made pc (ok offer) b = local_set offer (replies.set_local pc offer) b
  offer_made pc (err e) b = (err e, b)
  offer_made pc panic b = (panic, b)

  abbrev pub track_added : Option Error × Peer → Bot Peer → Outcome (Unit {0}) × Bot Peer
  track_added (some e, pc) b = (err e, hold pc b)
  track_added (none, pc) b = offer_made pc (replies.create_offer pc) (hold pc b)

  abbrev pub track_made : Peer → Option Error → Bot Peer → Outcome (Unit {0}) × Bot Peer
  track_made pc (some e) b = (err e, b)
  track_made pc none b = track_added (replies.add_track pc) b

  abbrev pub offer_from : Outcome Peer × Bot Peer → Outcome (Unit {0}) × Bot Peer
  offer_from (ok pc, b) = track_made pc replies.new_track_reply b
  offer_from (err e, b) = (err e, b)
  offer_from (panic, b) = (panic, b)

  -- Up to the wait for the ICE connection, where no RPC is handled between the calls.
  unfoldable pub create_offer_connection : Bot Peer → Outcome (Unit {0}) × Bot Peer
  unfolding open_connection new_sdp_offer_rpc
  create_offer_connection b = offer_from (open_connection b)

-- The callback of `OnICECandidate`; the end of the candidates is nil. The error of the write is
-- logged.
unfoldable pub on_local_candidate :
    {Peer : Type 0} → Option Error → Option IceCandidateInit → Bot Peer → Bot Peer
unfolding new_ice_candidate_rpc
on_local_candidate write none b = b
on_local_candidate (some e) (some candidate) b = b
on_local_candidate none (some candidate) b = record b {
  written_rpcs = snoc b.written_rpcs (new_ice_candidate_rpc candidate publisher_target);
}

-- How a round of the frame loop is answered. At the end of the file it is opened again, and a panic
-- follows an error of that.
pub data FrameReply (Frame : Type 0) : Type 0 where
  frame_read : Frame → Option Error → FrameReply Frame
  end_of_file : Option Error → Option Error → FrameReply Frame
  frame_error : Error → FrameReply Frame

-- The function that `setReaderFile` returns.
abbrev pub reader_file : Option Error → Option Error → Outcome (Unit {0})
reader_file (some e) seek = panic
reader_file none (some e) = panic
reader_file none none = ok tt

module _ {Frame : Type 0} where
  abbrev pub play_frame : FrameReply Frame → List Frame → Outcome (Unit {0}) × List Frame
  play_frame (frame_read frame none) samples = (ok tt, snoc samples frame)
  play_frame (frame_read frame (some e)) samples = (err e, samples)
  play_frame (end_of_file reopened seek) samples = (reader_file reopened seek, samples)
  play_frame (frame_error e) samples = (err e, samples)

  abbrev pub next_frame :
      Outcome (Unit {0}) × List Frame
      → (List Frame → Outcome (Unit {0}) × List Frame)
      → Outcome (Unit {0}) × List Frame
  next_frame (ok _, samples) rest = rest samples
  next_frame (err e, samples) rest = (err e, samples)
  next_frame (panic, samples) rest = (panic, samples)

  -- The frame loop; `samples` are those that the track has taken.
  unfoldable pub play_frames :
      List (FrameReply Frame) → List Frame → Outcome (Unit {0}) × List Frame
  play_frames [] samples = (ok tt, samples)
  play_frames (r ∷ rest) samples = next_frame (play_frame r samples) (play_frames rest)
