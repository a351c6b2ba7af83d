-- ===== src/Rtc/Node.antt =====
-- The state that the participants of one server process share: the port allocator, the codec
-- table of internal/rtc/mediaengine.go, the participants themselves, and what has been published.
-- A `*Participant` is its position in `participants`: a closed one, or one that a newer one has
-- replaced in its room, is still there for the callbacks of its peer connection.
use livelook_sfu.Common.{ℕ, Bool, String, Option, List}
use livelook_sfu.Config.{CodecType}
use livelook_sfu.Eventbus.Rpc.{UserSessionId, Rpc}
use livelook_sfu.Rtc.Ports.{PortsAllocator}
use livelook_sfu.Rtc.MediaEngine.{CodecTable}
use livelook_sfu.Rtc.Transport.{PcTransport}

-- `MediaTrack`, with its `udpConn`; `conn_open` says whether `conn` is there, and not nil.
pub record MediaTrack : Type 0 where
  pub track_id : String
  pub transcoder_port : ℕ
  pub track_payload_type : ℕ
  pub conn_open : Bool

-- What `sdp.NewJSEPMediaDescription` and `WithCodec` are given.
pub record MediaDescription : Type 0 where
  pub media_type : CodecType
  pub codec_payload_type : ℕ  -- uint8
  pub codec_name : String
  pub codec_clock_rate : ℕ
  pub codec_channels : ℕ
  pub codec_fmtp_line : String
  pub media_port : ℕ

-- `Participant`; the two maps are nil once it is closed.
pub record Participant (Peer : Type 0) : Type 0 where
  pub id : UserSessionId
  pub publisher : PcTransport Peer
  pub subscriber : Option (PcTransport Peer)
  pub reliable_dc : Option String
  pub published_tracks : Option (List (String × MediaTrack))
  pub allocated_ports : Option (List (ℕ × ℕ))
  pub transcoder_sdp : List MediaDescription

-- What is published on the subjects of internal/transcode/constants.go.
pub data TranscoderMessage : Type 0 where
  start_transcoder : UserSessionId → List MediaDescription → TranscoderMessage
  stop_transcoder : UserSessionId → TranscoderMessage

-- Messages are kept newest first.
pub record Node (Peer : Type 0) : Type 0 where
  pub ports : PortsAllocator
  pub codecs : CodecTable
  pub participants : List (Participant Peer)
  pub client_messages : List (UserSessionId × Rpc)
  pub transcoder_messages : List TranscoderMessage
