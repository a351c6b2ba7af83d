-- ===== src/Rtc/Participant.antt =====
-- internal/rtc/participant.go. A method is given the participant's position in the node.
pub mod Methods
pub mod Tracks
pub mod Creation
pub mod Media
use livelook_sfu.Common.{
  ℕ, zero, suc, ◌%◌, Bool, true, false, Option, none, some, String, List, [], ◌∷◌, ◌++◌, map,
  length, get_elem?, set, lookup, insert, ◌==◌, nat_eq, string_eq, if◌then◌else◌, trim_prefix,
  Outcome, ok, err, panic, Error,
}
use livelook_sfu.Config.{CodecType, audio, video, EnabledCodecs, WebRtcConfig, WebRtcNames}
use livelook_sfu.Eventbus.Rpc.{
  UserSessionId, Rpc, SessionDescription, IceCandidateInit, IceCandidateParams, SdpParams,
  SignalingTarget, publisher_target, new_ice_candidate_rpc, new_sdp_answer_rpc,
}
use livelook_sfu.Rtc.Ports.{PortsAllocator, allocate, deallocate}
use livelook_sfu.Rtc.MediaEngine.{CodecTable, CodecParameters, EngineApi}
use livelook_sfu.Rtc.Transport.{
  PeerApi, PcTransport, TransportParams, new_pc_transport, transport_add_ice_candidate,
  transport_set_remote_description, transport_close,
}
use livelook_sfu.Rtc.Node.{
  MediaTrack, MediaDescription, Participant, TranscoderMessage, start_transcoder, stop_transcoder,
  Node,
}

abbrev pub reliable_data_channel : String
reliable_data_channel = "_reliable"

pub record ParticipantOptions : Type 0 where
  pub participant_user_id : UserSessionId
  pub participant_codecs : EnabledCodecs
  pub rtc_conf : WebRtcConfig

-- How the calls of other code come out while a participant is made: the session description, the
-- peer connection, the orders in which `range` visits the codec table and, for each payload type,
-- the ports, and the marshalling and the publishing of the start message.
pub record ParticipantReplies (Engine Peer : Type 0) : Type 0 where
  pub session_description_reply : Option Error
  pub open_peer : Engine → Outcome Peer
  pub audio_first : Bool
  pub visits : ℕ → List ℕ
  pub marshal_reply : Option Error
  pub publish_start_reply : Option Error

-- The allocator, `allocatedPorts` and the media of `transcoderSDP` while the ports are allocated.
pub record Draft : Type 0 where
  pub draft_ports : PortsAllocator
  pub draft_allocated : List (ℕ × ℕ)
  pub draft_media : List MediaDescription

-- The name without its `audio/` and its `video/`.
unfoldable pub codec_name_of : String → String
codec_name_of mime = trim_prefix (trim_prefix mime "audio/") "video/"

unfoldable pub describe_codec : CodecType → CodecParameters → ℕ → MediaDescription
unfolding codec_name_of
describe_codec t params port = record {
  media_type = t;
  codec_payload_type = params.payload_type % 256;
  codec_name = codec_name_of params.capability.mime_type;
  codec_clock_rate = params.capability.clock_rate;
  codec_channels = params.capability.channels;
  codec_fmtp_line = params.capability.sdp_fmtp_line;
  media_port = port;
}

abbrev pub record_port :
    CodecType → CodecParameters → Draft → Outcome ℕ × PortsAllocator → Outcome (Unit {0}) × Draft
record_port t params d (ok port, ports) = (
  ok tt,
  record {
    draft_ports = ports;
    draft_allocated = insert params.payload_type port d.draft_allocated;
    draft_media = d.draft_media ++ describe_codec t params port ∷ [];
  },
)
record_port t params d (err e, ports) = (err e, record d { draft_ports = ports })
record_port t params d (panic, ports) = (panic, record d { draft_ports = ports })

-- The body of the loop over the codecs.
unfoldable pub allocate_codec :
    (ℕ → List ℕ) → CodecType → CodecParameters → Draft → Outcome (Unit {0}) × Draft
unfolding describe_codec
allocate_codec visits t params d =
    record_port t params d (allocate (visits params.payload_type) d.draft_ports)

-- The error return of the body, else the rest of the loop.
abbrev pub then_draft :
    Outcome (Unit {0}) × Draft → (Draft → Outcome (Unit {0}) × Draft) → Outcome (Unit {0}) × Draft
then_draft (ok _, d) rest = rest d
then_draft (err e, d) rest = (err e, d)
then_draft (panic, d) rest = (panic, d)

unfoldable pub allocate_codecs :
    (ℕ → List ℕ) → List (CodecType × CodecParameters) → Draft → Outcome (Unit {0}) × Draft
allocate_codecs visits [] d = (ok tt, d)
allocate_codecs visits ((t, params) ∷ rest) d =
    then_draft (allocate_codec visits t params d) (allocate_codecs visits rest)

abbrev pub tagged : CodecType → List CodecParameters → List (CodecType × CodecParameters)
tagged t = map (λ params. (t, params))

-- The codecs in the order of the two nested `range` loops.
unfoldable pub codecs_in_order : Bool → CodecTable → List (CodecType × CodecParameters)
codecs_in_order true table = tagged audio table.audio_codecs ++ tagged video table.video_codecs
codecs_in_order false table = tagged video table.video_codecs ++ tagged audio table.audio_codecs

abbrev pub new_draft : PortsAllocator → Draft
new_draft ports = record { draft_ports = ports; draft_allocated = []; draft_media = [] }

abbrev pub first_error : Option Error → Option Error → Option Error
first_error (some e) later = some e
first_error none later = later

module _ {Engine Peer : Type 0} (replies : ParticipantReplies Engine Peer)
    (options : ParticipantOptions) where
  abbrev pub from_draft : PcTransport Peer → Draft → Participant Peer
  from_draft transport d = record {
    id = options.participant_user_id;
    publisher = transport;
    subscriber = none;
    reliable_dc = none;
    published_tracks = some [];
    allocated_ports = some d.draft_allocated;
    transcoder_sdp = d.draft_media;
  }

  -- The start message; the result is the position of the new participant.
  abbrev pub announced : Option Error → PcTransport Peer → Node Peer → Draft → Outcome ℕ × Node Peer
  announced (some e) transport node d = (err e, record node { ports = d.draft_ports })
  announced none transport node d = (
    ok (length node.participants),
    record node {
      ports = d.draft_ports;
      participants = node.participants ++ from_draft transport d ∷ [];
      transcoder_messages =
          start_transcoder options.participant_user_id d.draft_media ∷ node.transcoder_messages;
    },
  )

  abbrev pub announce :
      PcTransport Peer → Node Peer → Outcome (Unit {0}) × Draft → Outcome ℕ × Node Peer
  announce transport node (err e, d) = (err e, record node { ports = d.draft_ports })
  announce transport node (panic, d) = (panic, record node { ports = d.draft_ports })
  announce transport node (ok _, d) =
      announced (first_error replies.marshal_reply replies.publish_start_reply) transport node d

  -- The ports, once the transport is there.
  unfoldable pub with_transport : Outcome (PcTransport Peer) → Node Peer → Outcome ℕ × Node Peer
  unfolding allocate_codecs
  with_transport (err e) node = (err e, node)
  with_transport panic node = (panic, node)
  with_transport (ok transport) node = announce transport node (
      allocate_codecs replies.visits (codecs_in_order replies.audio_first node.codecs)
        (new_draft node.ports))

  abbrev pub transport_params : TransportParams
  transport_params = record {
    enabled_codecs = options.participant_codecs;
    rtc_config = options.rtc_conf;
    target = publisher_target;
  }

  abbrev pub described_by :
      Option Error → EngineApi Engine → WebRtcNames → Node Peer → Outcome ℕ × Node Peer
  described_by (some e) engines names node = (err e, node)
  described_by none engines names node =
      let (transport, table) =
        new_pc_transport engines names replies.open_peer transport_params node.codecs in
      with_transport transport (record node { codecs = table })

  -- `NewParticipant`. Its error comes with a nil participant: what was made so far is dropped.
  unfoldable pub new_participant :
      EngineApi Engine → WebRtcNames → Node Peer → Outcome ℕ × Node Peer
  unfolding with_transport
  new_participant engines names node =
      described_by replies.session_description_reply engines names node
