-- ===== src/Tests/Fixtures.antt =====
-- A peer connection, a media engine and a configuration to run the models with.
use livelook_sfu.Common.{true, Option, none, some, String, List, [], ◌∷◌, ◌++◌, refl, ok}
use livelook_sfu.Config.{
  video, WebRtcNames, WebRtcConfig, Config, publisher_direction, subscriber_direction,
}
use livelook_sfu.Eventbus.Rpc.{SessionDescription, IceCandidateInit}
use livelook_sfu.Rtc.MediaEngine.{EngineApi}
use livelook_sfu.Rtc.Transport.{PeerApi}
use livelook_sfu.Rtc.Transport.Laws.{PeerLaws}
use livelook_sfu.Rtc.Participant.{ParticipantReplies}
use livelook_sfu.Core.Sessions.{SessionsTable}
use livelook_sfu.Service.{Setup, Replies}

-- A connection that accepts everything and remembers it.
pub record FakePeer : Type 0 where
  pub remote : Option SessionDescription
  pub local : Option SessionDescription
  pub received : List IceCandidateInit

abbrev pub fresh_peer : FakePeer
fresh_peer = record { remote = none; local = none; received = [] }

abbrev pub answer : SessionDescription
answer = record { sdp_type = "answer"; sdp = "v=0" }

abbrev pub offer : SessionDescription
offer = record { sdp_type = "offer"; sdp = "v=0" }

abbrev pub ice : String → IceCandidateInit
ice s = record { candidate = s; sdp_mid = none; sdp_m_line_index = none; username_fragment = none }

abbrev pub fake_peers : PeerApi FakePeer
fake_peers = record {
  remote_description = λ p. p.remote;
  set_remote_description = λ p d. (none, record p { remote = some d });
  add_ice_candidate = λ p c. (none, record p { received = p.received ++ c ∷ [] });
  create_answer = λ p. ok answer;
  set_local_description = λ p d. (none, record p { local = some d });
  local_description = λ p. p.local;
  close_peer = λ p. p;
}

pub fake-PeerLaws : PeerLaws fake_peers
fake-PeerLaws = record { set_describes = λ pc d e. refl; add_keeps = λ pc c. refl }

abbrev pub fake_engines : EngineApi (Unit {0})
fake_engines = record {
  new_engine = tt;
  register_codec = λ e p t. (none, tt);
  register_header_extension = λ e s t. (none, tt);
  register_default_interceptors = λ e. (none, tt);
}

abbrev pub webrtc_names : WebRtcNames
webrtc_names = record {
  mime_type_opus = "audio/opus";
  mime_type_vp8 = "video/VP8";
  mime_type_vp9 = "video/VP9";
  mime_type_h264 = "video/H264";
  mime_type_av1 = "video/AV1";
  sdes_mid_uri = "mid";
  sdes_rtp_stream_id_uri = "rid";
  audio_level_uri = "level";
  transport_cc_uri = "cc";
  abs_send_time_uri = "send";
  fb_goog_remb = "goog-remb";
  fb_transport_cc = "transport-cc";
  fb_ccm = "ccm";
  fb_nack = "nack";
}

-- The configuration of the source with three transcoder ports.
abbrev pub small_config : Config
small_config = record {
  rtc = record {
    ice_port_range_start = 50000;
    ice_port_range_end = 60000;
    transcoder = record { port_start = 4000; port_end = 4003 };
    interfaces = record { includes = [] };
  };
  peer = record { enabled_codecs = (video, record { mime = "video/vp8"; fmtp_line = "" }) ∷ [] };
}

abbrev pub small_web_rtc_config : WebRtcConfig
small_web_rtc_config = record {
  port_range_start = 50000;
  port_range_end = 60000;
  interface_filter = none;
  publisher_config = publisher_direction webrtc_names;
  subscriber_config = subscriber_direction webrtc_names;
}

abbrev pub setup : Setup (Unit {0}) FakePeer
setup = record {
  config = small_config;
  web_rtc_config = small_web_rtc_config;
  names = webrtc_names;
  engines = fake_engines;
  peers = fake_peers;
}

abbrev pub good_participant : ParticipantReplies (Unit {0}) FakePeer
good_participant = record {
  session_description_reply = none;
  open_peer = λ e. ok fresh_peer;
  audio_first = true;
  visits = λ payload_type. 4001 ∷ 4000 ∷ 4002 ∷ [];
  marshal_reply = none;
  publish_start_reply = none;
}

abbrev pub good : Replies (Unit {0}) FakePeer
good = record {
  database = none;
  now = 7;
  participant = good_participant;
  bus = none;
  nats_stop = none;
}

abbrev pub empty_table : SessionsTable
empty_table = record { rows = []; next_id = 1 }
