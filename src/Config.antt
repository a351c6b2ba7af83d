-- ===== src/Config.antt =====
-- internal/config/config.go: what the server is configured with. The fields that are third-party
-- values (the ICE configuration, the setting engine) stand for nothing that the server reads back.
use livelook_sfu.Common.{
  ℕ, ◌%◌, ◌^◌, Bool, true, false, Option, none, some, String, List, [], ◌∷◌, ◌++◌, ◌==◌, nat_eq,
  string_eq, if◌then◌else◌, Outcome, ok, err, Error,
}

-- `webrtc.RTPCodecType`
pub data CodecType : Type 0 where
  audio video : CodecType

-- `webrtc.RTCPFeedback`
pub record RtcpFeedback : Type 0 where
  pub feedback_type : String
  pub parameter : String

pub record TranscoderConfig : Type 0 where
  pub port_start : ℕ
  pub port_end : ℕ

pub record InterfacesConfig : Type 0 where
  pub includes : List String

pub record RtcConfig : Type 0 where
  pub ice_port_range_start : ℕ  -- uint32
  pub ice_port_range_end : ℕ  -- uint32
  pub transcoder : TranscoderConfig
  pub interfaces : InterfacesConfig

pub record CodecSpec : Type 0 where
  pub mime : String
  pub fmtp_line : String

abbrev pub EnabledCodecs : Type 0
EnabledCodecs = List (CodecType × CodecSpec)

pub record PeerConfig : Type 0 where
  pub enabled_codecs : EnabledCodecs

pub record Config : Type 0 where
  pub peer : PeerConfig
  pub rtc : RtcConfig

pub record RtpHeaderExtensionConfig : Type 0 where
  pub audio_extensions : List String
  pub video_extensions : List String

pub record RtcpFeedbackConfig : Type 0 where
  pub audio_feedback : List RtcpFeedback
  pub video_feedback : List RtcpFeedback

pub record DirectionConfig : Type 0 where
  pub rtp_header_extension : RtpHeaderExtensionConfig
  pub rtcp_feedback : RtcpFeedbackConfig

pub record WebRtcConfig : Type 0 where
  pub port_range_start : ℕ  -- uint16
  pub port_range_end : ℕ  -- uint16
  pub interface_filter : Option (String → Bool)
  pub publisher_config : DirectionConfig
  pub subscriber_config : DirectionConfig

-- The constants of the third-party packages that the source names: their values are not read.
pub record WebRtcNames : Type 0 where
  pub mime_type_opus : String
  pub mime_type_vp8 : String
  pub mime_type_vp9 : String
  pub mime_type_h264 : String
  pub mime_type_av1 : String
  pub sdes_mid_uri : String
  pub sdes_rtp_stream_id_uri : String
  pub audio_level_uri : String
  pub transport_cc_uri : String
  pub abs_send_time_uri : String
  pub fb_goog_remb : String
  pub fb_transport_cc : String
  pub fb_ccm : String
  pub fb_nack : String

abbrev pub frame_marking : String
frame_marking = "urn:ietf:params:rtp-hdrext:framemarking"

unfoldable pub new_config : WebRtcNames → Config
new_config names = record {
  rtc = record {
    ice_port_range_start = 50000;
    ice_port_range_end = 60000;
    transcoder = record { port_start = 4000; port_end = 5000 };
    interfaces = record { includes = "wlp0s20u9" ∷ "enp3s0" ∷ [] };
  };
  peer = record {
    enabled_codecs = (video, record { mime = names.mime_type_vp8; fmtp_line = "" }) ∷ [];
  };
}

-- The closure that filters the network interfaces: the loop over `includes`.
unfoldable pub includes_interface : List String → String → Bool
includes_interface [] s = false
includes_interface (iface ∷ rest) s = if iface == s then true else includes_interface rest s

-- The filter is set only where interfaces are listed; the closure tests that again.
unfoldable pub filter_of : List String → Option (String → Bool)
unfolding includes_interface
filter_of [] = none
filter_of (iface ∷ rest) = some (includes_interface (iface ∷ rest))

unfoldable pub feedback : String → String → RtcpFeedback
feedback t p = record { feedback_type = t; parameter = p }

unfoldable pub publisher_direction : WebRtcNames → DirectionConfig
unfolding feedback
publisher_direction names = record {
  rtp_header_extension = record {
    audio_extensions =
        names.sdes_mid_uri ∷ names.sdes_rtp_stream_id_uri ∷ names.audio_level_uri ∷ [];
    video_extensions =
        names.sdes_mid_uri ∷ names.sdes_rtp_stream_id_uri ∷ names.transport_cc_uri ∷ frame_marking
        ∷ [];
  };
  rtcp_feedback = record {
    audio_feedback = [];
    video_feedback =
        feedback names.fb_goog_remb ""
        ∷ feedback names.fb_transport_cc ""
        ∷ feedback names.fb_ccm "fir"
        ∷ feedback names.fb_nack ""
        ∷ feedback names.fb_nack "pli"
        ∷ [];
  };
}

unfoldable pub subscriber_direction : WebRtcNames → DirectionConfig
unfolding feedback
subscriber_direction names = record {
  rtp_header_extension = record {
    audio_extensions = [];
    video_extensions = [] ++ names.abs_send_time_uri ∷ [];
  };
  rtcp_feedback = record {
    audio_feedback = [];
    video_feedback =
        (feedback names.fb_ccm "fir"
          ∷ feedback names.fb_nack ""
          ∷ feedback names.fb_nack "pli"
          ∷ [])
        ++ feedback names.fb_goog_remb "" ∷ [];
  };
}

-- `set_range` is what `SetEphemeralUDPPortRange` answers.
unfoldable pub new_web_rtc_config :
    WebRtcNames → (ℕ → ℕ → Option Error) → Config → Outcome WebRtcConfig
unfolding publisher_direction subscriber_direction filter_of
new_web_rtc_config names set_range config = elim (set_range first last) [
  | some e ↦ err e
  | none ↦ ok (record {
    port_range_start = first;
    port_range_end = last;
    interface_filter = filter_of config.rtc.interfaces.includes;
    publisher_config = publisher_direction names;
    subscriber_config = subscriber_direction names;
  })
]
  where
    first : ℕ
    first = config.rtc.ice_port_range_start % 2 ^ 16

    last : ℕ
    last = config.rtc.ice_port_range_end % 2 ^ 16
