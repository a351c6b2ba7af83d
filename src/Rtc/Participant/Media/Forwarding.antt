-- ===== src/Rtc/Participant/Media/Forwarding.antt =====
-- The ports to which a new participant of internal/rtc/participant.go forwards.
use livelook_sfu.Common.{
  Option, none, some, Outcome, ok, err, panic, Error, ℕ, ◌≢◌, Bool, true, false, List, [], ◌∷◌,
  ◌++◌, All, All-append, arith,
}
use livelook_sfu.Config.{CodecType, audio, video, WebRtcNames}
use livelook_sfu.Rtc.MediaEngine.{CodecParameters, CodecTable, EngineApi}
use livelook_sfu.Rtc.Participant.{tagged, codecs_in_order}
use livelook_sfu.Rtc.Participant.Media.{Distinct}
use livelook_sfu.Rtc.Participant.Media.Codecs.{
  Types, IsOpus, IsNoOpus, IsSound, create_media_engine-IsSound,
}
use livelook_sfu.Rtc.Participant.Media.{MakesForwarding, media_ports_match}
use livelook_sfu.Rtc.Participant.{
  ParticipantReplies, ParticipantOptions, Draft, new_participant, transport_params, announce,
  announced, first_error, with_transport, described_by,
}
use livelook_sfu.Rtc.Transport.{PcTransport, TransportParams, new_pc_transport}
use livelook_sfu.Rtc.Node.{Node}

tagged-All :
    (t : CodecType) (n : ℕ) (xs : List CodecParameters)
    → All (λ (q : CodecParameters). n ≢ q.payload_type) xs
    → All (λ (q : CodecType × CodecParameters). n ≢ q.1.payload_type) (tagged t xs)
tagged-All t n [] h = tt
tagged-All t n (x ∷ xs) (p, h) = (p, tagged-All t n xs h)

tagged-Distinct : (t : CodecType) (xs : List CodecParameters) → Types xs → Distinct (tagged t xs)
tagged-Distinct t [] h = tt
tagged-Distinct t (x ∷ xs) (small, ne, h) =
    (small, tagged-All t x.payload_type xs ne, tagged-Distinct t xs h)

append-Distinct :
    (t u : CodecType) (xs ys : List CodecParameters)
    → Types xs
    → Types ys
    → All
        (λ (c : CodecParameters). All (λ (q : CodecParameters). c.payload_type ≢ q.payload_type) ys)
        xs
    → Distinct (tagged t xs ++ tagged u ys)
append-Distinct t u [] ys h k cross = tagged-Distinct u ys k
append-Distinct t u (x ∷ xs) ys (small, ne, h) k (apart, cross) = (
  small,
  All-append (λ (q : CodecType × CodecParameters). x.payload_type ≢ q.1.payload_type) (tagged t xs)
      (tagged u ys) (tagged-All t x.payload_type xs ne) (tagged-All u x.payload_type ys apart),
  append-Distinct t u xs ys h k cross,
)

All-map :
    (P Q : CodecParameters → Type 0) (xs : List CodecParameters)
    → ((c : CodecParameters) → P c → Q c)
    → All P xs
    → All Q xs
All-map P Q [] f h = tt
All-map P Q (x ∷ xs) f (p, h) = (f x p, All-map P Q xs f h)

codecs_in_order-Distinct :
    (audio_first : Bool) (table : CodecTable)
    → IsSound table
    → Distinct (codecs_in_order audio_first table)
unfolding codecs_in_order
codecs_in_order-Distinct true table s =
    append-Distinct audio video table.audio_codecs table.video_codecs s.audio_types s.video_types (
      All-map IsOpus _ table.audio_codecs
        (λ c opus. All-map IsNoOpus _ table.video_codecs (λ q other. omega arith) s.video_others)
        s.audio_opus)
codecs_in_order-Distinct false table s =
    append-Distinct video audio table.video_codecs table.audio_codecs s.video_types s.audio_types (
      All-map IsNoOpus _ table.video_codecs
        (λ c other. All-map IsOpus _ table.audio_codecs (λ q opus. omega arith) s.audio_opus)
        s.video_others)

module _ {Engine Peer : Type 0} (replies : ParticipantReplies Engine Peer)
    (options : ParticipantOptions) where
  new_pc_transport-IsSound :
      (engines : EngineApi Engine) (names : WebRtcNames) (params : TransportParams)
      (table : CodecTable)
      → IsSound table
      → IsSound (new_pc_transport engines names replies.open_peer params table).1
  unfolding new_pc_transport
  new_pc_transport-IsSound engines names params table s =
      create_media_engine-IsSound engines names params.enabled_codecs _ params.target table s

  -- Where the codec table is sound, a new participant forwards the packets of each codec to the
  -- port that it has told the transcoder.
  pub new_participant-MakesForwarding :
      (engines : EngineApi Engine) (names : WebRtcNames) (node : Node Peer)
      → IsSound node.codecs
      → MakesForwarding node.participants (new_participant replies options engines names node)
  new_participant-MakesForwarding engines names node s =
      media_ports_match replies options engines names node (
        codecs_in_order-Distinct replies.audio_first _
          (new_pc_transport-IsSound engines names (transport_params replies options) node.codecs s))

  announce-IsSound :
      (transport : PcTransport Peer) (node : Node Peer) (r : Outcome (Unit {0}) × Draft)
      → IsSound node.codecs
      → IsSound (announce replies options transport node r).1.codecs
  announce-IsSound transport node (ok _, d) s =
      announced_reply (first_error replies.marshal_reply replies.publish_start_reply)
    where
      announced_reply :
          (e : Option Error) → IsSound (announced replies options e transport node d).1.codecs
      announced_reply none = s
      announced_reply (some e) = s
  announce-IsSound transport node (err e, d) s = s
  announce-IsSound transport node (panic, d) s = s

  with_transport-IsSound :
      (transport : Outcome (PcTransport Peer)) (node : Node Peer)
      → IsSound node.codecs
      → IsSound (with_transport replies options transport node).1.codecs
  unfolding with_transport
  with_transport-IsSound (ok transport) node s = announce-IsSound transport node _ s
  with_transport-IsSound (err e) node s = s
  with_transport-IsSound panic node s = s

  described_by-IsSound :
      (e : Option Error) (engines : EngineApi Engine) (names : WebRtcNames) (node : Node Peer)
      → IsSound node.codecs
      → IsSound (described_by replies options e engines names node).1.codecs
  described_by-IsSound (some e) engines names node s = s
  described_by-IsSound none engines names node s =
      with_transport-IsSound _ _
        (new_pc_transport-IsSound engines names (transport_params replies options) node.codecs s)

  -- However it ends, NewParticipant keeps a sound codec table so.
  pub new_participant-IsSound :
      (engines : EngineApi Engine) (names : WebRtcNames) (node : Node Peer)
      → IsSound node.codecs
      → IsSound (new_participant replies options engines names node).1.codecs
  unfolding new_participant
  new_participant-IsSound engines names node s =
      described_by-IsSound replies.session_description_reply engines names node s
