-- ===== src/Rtc/Participant/Media.antt =====
-- The session description that `NewParticipant` of internal/rtc/participant.go sends to the
-- transcoder, and the ports to which `onMediaTrack` forwards.
pub mod Codecs
pub mod Forwarding
use livelook_sfu.Common.{
  ℕ, ◌%◌, ◌<◌, ◌≡◌, ◌≢◌, refl, ap, ◌∙◌, Option, none, some, List, [], ◌∷◌, ◌++◌, All, All-append,
  lookup, insert, lookup-insert, nat_eq, nat_beq_iff, arith, Outcome, ok, err, panic, Error,
}
use livelook_sfu.Config.{CodecType, WebRtcNames}
use livelook_sfu.Rtc.MediaEngine.{CodecParameters, EngineApi}
use livelook_sfu.Rtc.Ports.{PortsAllocator, allocate}
use livelook_sfu.Rtc.Transport.{PcTransport, new_pc_transport}
use livelook_sfu.Rtc.Node.{Participant, Node, MediaDescription}
use livelook_sfu.Rtc.Participant.Methods.{port_of}
use livelook_sfu.Rtc.Participant.{
  ParticipantReplies, ParticipantOptions, Draft, describe_codec, record_port, allocate_codec,
  then_draft, allocate_codecs, codecs_in_order, new_draft, new_participant, announced, announce,
  with_transport, described_by, transport_params, from_draft,
}

-- Each media description has the port that is recorded for its payload type.
abbrev pub Described : List (ℕ × ℕ) → MediaDescription → Type 0
Described allocated x = lookup x.codec_payload_type allocated ≡ some x.media_port

abbrev pub Matches : Draft → Type 0
Matches d = All (Described d.draft_allocated) d.draft_media

-- The payload types differ and fit into a byte.
abbrev pub Distinct : List (CodecType × CodecParameters) → Type 0
Distinct [] = Unit {0}
Distinct ((t, p) ∷ rest) =
    (p.payload_type < 256)
    × All (λ (q : CodecType × CodecParameters). p.payload_type ≢ q.1.payload_type) rest
    × Distinct rest

-- No port is recorded for them yet.
abbrev Unrecorded : Draft → List (CodecType × CodecParameters) → Type 0
Unrecorded d =
    All (λ (q : CodecType × CodecParameters). lookup q.1.payload_type d.draft_allocated ≡ none)

insert-Described :
    (payload_type port : ℕ) (allocated : List (ℕ × ℕ)) (x : MediaDescription)
    → lookup payload_type allocated ≡ none
    → Described allocated x
    → Described (insert payload_type port allocated) x
insert-Described payload_type port allocated x free h =
    lookup-insert payload_type x.codec_payload_type port allocated
    ∙ ground (arith, nat_beq_iff payload_type x.codec_payload_type)

insert-All :
    (payload_type port : ℕ) (allocated : List (ℕ × ℕ)) (xs : List MediaDescription)
    → lookup payload_type allocated ≡ none
    → All (Described allocated) xs
    → All (Described (insert payload_type port allocated)) xs
insert-All payload_type port allocated [] free h = tt
insert-All payload_type port allocated (x ∷ xs) free (h, hs) = (
  insert-Described payload_type port allocated x free h,
  insert-All payload_type port allocated xs free hs,
)

describe_codec-Described :
    (t : CodecType) (p : CodecParameters) (port : ℕ) (allocated : List (ℕ × ℕ))
    → p.payload_type < 256
    → Described (insert p.payload_type port allocated) (describe_codec t p port)
unfolding describe_codec
describe_codec-Described t p port allocated small =
    let same : p.payload_type % 256 ≡ p.payload_type = omega arith in
    ap (λ n. lookup n (insert p.payload_type port allocated)) same
    ∙ lookup-insert p.payload_type p.payload_type port allocated
    ∙ ground (arith, nat_beq_iff p.payload_type p.payload_type)

record_port-Matches :
    (t : CodecType) (p : CodecParameters) (d : Draft) (r : Outcome ℕ × PortsAllocator)
    → p.payload_type < 256
    → lookup p.payload_type d.draft_allocated ≡ none
    → Matches d
    → Matches (record_port t p d r).1
record_port-Matches t p d (ok port, ports) small free h =
    All-append (Described (insert p.payload_type port d.draft_allocated)) d.draft_media
      (describe_codec t p port ∷ [])
      (insert-All p.payload_type port d.draft_allocated d.draft_media free h)
      (describe_codec-Described t p port d.draft_allocated small, tt)
record_port-Matches t p d (err e, ports) small free h = h
record_port-Matches t p d (panic, ports) small free h = h

insert-Unrecorded :
    (payload_type port : ℕ) (allocated : List (ℕ × ℕ)) (qs : List (CodecType × CodecParameters))
    → All (λ (q : CodecType × CodecParameters). payload_type ≢ q.1.payload_type) qs
    → All (λ (q : CodecType × CodecParameters). lookup q.1.payload_type allocated ≡ none) qs
    → All
        (λ (q : CodecType × CodecParameters).
          lookup q.1.payload_type (insert payload_type port allocated) ≡ none)
        qs
insert-Unrecorded payload_type port allocated [] ne h = tt
insert-Unrecorded payload_type port allocated (q ∷ qs) (n, ne) (f, h) = (
  lookup-insert payload_type q.1.payload_type port allocated
      ∙ ground (arith, nat_beq_iff payload_type q.1.payload_type),
  insert-Unrecorded payload_type port allocated qs ne h,
)

record_port-Unrecorded :
    (t : CodecType) (p : CodecParameters) (d : Draft) (r : Outcome ℕ × PortsAllocator)
    (qs : List (CodecType × CodecParameters))
    → All (λ (q : CodecType × CodecParameters). p.payload_type ≢ q.1.payload_type) qs
    → Unrecorded d qs
    → Unrecorded (record_port t p d r).1 qs
record_port-Unrecorded t p d (ok port, ports) qs ne h =
    insert-Unrecorded p.payload_type port d.draft_allocated qs ne h
record_port-Unrecorded t p d (err e, ports) qs ne h = h
record_port-Unrecorded t p d (panic, ports) qs ne h = h

then_draft-Matches :
    (r : Outcome (Unit {0}) × Draft) (rest : Draft → Outcome (Unit {0}) × Draft)
    → Matches r.1
    → Matches (rest r.1).1
    → Matches (then_draft r rest).1
then_draft-Matches (ok _, d) rest h k = k
then_draft-Matches (err e, d) rest h k = h
then_draft-Matches (panic, d) rest h k = h

allocate_codecs-Matches :
    (visits : ℕ → List ℕ) (codecs : List (CodecType × CodecParameters)) (d : Draft)
    → Distinct codecs
    → Unrecorded d codecs
    → Matches d
    → Matches (allocate_codecs visits codecs d).1
unfolding allocate_codecs allocate_codec
allocate_codecs-Matches visits [] d distinct free h = h
allocate_codecs-Matches visits ((t, p) ∷ rest) d (small, ne, distinct) (f, free) h =
    let r = allocate (visits p.payload_type) d.draft_ports in
    let one = record_port-Matches t p d r small f h in
    then_draft-Matches (record_port t p d r) (allocate_codecs visits rest) one (
      allocate_codecs-Matches visits rest (record_port t p d r).1 distinct
        (record_port-Unrecorded t p d r rest ne free) one)

no_ports-Unrecorded :
    (ports : PortsAllocator) (codecs : List (CodecType × CodecParameters))
    → Unrecorded (new_draft ports) codecs
unfolding lookup
no_ports-Unrecorded ports [] = tt
no_ports-Unrecorded ports (q ∷ qs) = (refl, no_ports-Unrecorded ports qs)

-- A participant whose packets go where its session description says.
abbrev pub Forwards : {Peer : Type 0} → Participant Peer → Type 0
Forwards p =
    All (λ (x : MediaDescription). port_of p x.codec_payload_type ≡ x.media_port) p.transcoder_sdp

abbrev pub MakesForwarding :
    {Peer : Type 0} → List (Participant Peer) → Outcome ℕ × Node Peer → Type 0
MakesForwarding {Peer} before (ok at, node) =
    (p : Participant Peer) × (node.participants ≡ before ++ p ∷ []) × Forwards p
MakesForwarding before (err e, node) = Unit {0}
MakesForwarding before (panic, node) = Unit {0}

ports-Described :
    {Peer : Type 0} (p : Participant Peer) (allocated : List (ℕ × ℕ)) (xs : List MediaDescription)
    → p.allocated_ports ≡ some allocated
    → All (Described allocated) xs
    → All (λ (x : MediaDescription). port_of p x.codec_payload_type ≡ x.media_port) xs
unfolding port_of
ports-Described p allocated [] e h = tt
ports-Described p allocated (x ∷ xs) e (h, hs) = (ground arith, ports-Described p allocated xs e hs)

module _ {Engine Peer : Type 0} (replies : ParticipantReplies Engine Peer)
    (options : ParticipantOptions) where
  announced-MakesForwarding :
      (e : Option Error) (transport : PcTransport Peer) (node : Node Peer) (d : Draft)
      → Matches d
      → MakesForwarding node.participants (announced replies options e transport node d)
  announced-MakesForwarding (some e) transport node d h = tt
  announced-MakesForwarding none transport node d h =
      let p = from_draft replies options transport d in
      (p, refl, ports-Described p d.draft_allocated d.draft_media refl h)

  announce-MakesForwarding :
      (transport : PcTransport Peer) (node : Node Peer) (r : Outcome (Unit {0}) × Draft)
      → Matches r.1
      → MakesForwarding node.participants (announce replies options transport node r)
  announce-MakesForwarding transport node (ok _, d) h =
      announced-MakesForwarding _ transport node d h
  announce-MakesForwarding transport node (err e, d) h = tt
  announce-MakesForwarding transport node (panic, d) h = tt

  with_transport-MakesForwarding :
      (transport : Outcome (PcTransport Peer)) (node : Node Peer)
      → Distinct (codecs_in_order replies.audio_first node.codecs)
      → MakesForwarding node.participants (with_transport replies options transport node)
  unfolding with_transport
  with_transport-MakesForwarding (ok transport) node distinct =
      announce-MakesForwarding transport node _ (
        allocate_codecs-Matches replies.visits (codecs_in_order replies.audio_first node.codecs)
          (new_draft node.ports) distinct (no_ports-Unrecorded node.ports _) tt)
  with_transport-MakesForwarding (err e) node distinct = tt
  with_transport-MakesForwarding panic node distinct = tt

  -- Where the codecs have different payload types that fit into a byte, a new participant
  -- forwards the packets of each codec to the port that it has told the transcoder.
  pub media_ports_match :
      (engines : EngineApi Engine) (names : WebRtcNames) (node : Node Peer)
      → Distinct (
          codecs_in_order replies.audio_first
            (new_pc_transport engines names replies.open_peer
              (transport_params replies options)
              node.codecs).1)
      → MakesForwarding node.participants (new_participant replies options engines names node)
  unfolding new_participant
  media_ports_match engines names node distinct = described replies.session_description_reply
    where
      described :
          (e : Option Error)
          → MakesForwarding node.participants (described_by replies options e engines names node)
      described (some e) = tt
      described none = with_transport-MakesForwarding _ (record node { codecs = _ }) distinct
