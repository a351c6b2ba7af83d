-- ===== src/Rtc/MediaEngine.antt =====
-- internal/rtc/mediaengine.go: the codecs that a peer connection is offered. The package variable
-- `enabledCodecParams` is a `CodecTable` that the functions take and return.
use livelook_sfu.Common.{
  ℕ, Bool, true, false, ◌||◌, not, Option, none, some, String, List, [], ◌∷◌, ◌++◌, ◌==◌, string_eq,
  if◌then◌else◌, equal_fold, Outcome, ok, err, Error,
}
use livelook_sfu.Config.{
  CodecType, audio, video, RtcpFeedback, EnabledCodecs, RtcpFeedbackConfig,
  RtpHeaderExtensionConfig, DirectionConfig, WebRtcNames,
}
use livelook_sfu.Eventbus.Rpc.{SignalingTarget, publisher_target}

-- `webrtc.RTPCodecCapability` and `webrtc.RTPCodecParameters`
pub record CodecCapability : Type 0 where
  pub mime_type : String
  pub clock_rate : ℕ
  pub channels : ℕ
  pub sdp_fmtp_line : String
  pub rtcp_feedback : List RtcpFeedback

pub record CodecParameters : Type 0 where
  pub capability : CodecCapability
  pub payload_type : ℕ

-- The two keys of `enabledCodecParams`.
pub record CodecTable : Type 0 where
  pub audio_codecs : List CodecParameters
  pub video_codecs : List CodecParameters

abbrev pub no_codecs : CodecTable
no_codecs = record { audio_codecs = []; video_codecs = [] }

-- The third-party media engine, with its interceptor registry.
pub record EngineApi (Engine : Type 0) : Type 0 where
  pub new_engine : Engine
  pub register_codec : Engine → CodecParameters → CodecType → Option Error × Engine
  pub register_header_extension : Engine → String → CodecType → Option Error × Engine
  pub register_default_interceptors : Engine → Option Error × Engine

-- The loop returns at the first spec that matches; `continue` is the test on the MIME type.
unfoldable pub is_codec_enabled : EnabledCodecs → CodecCapability → Bool
is_codec_enabled [] cap = false
is_codec_enabled ((_, codec) ∷ codecs) cap =
    let rest = is_codec_enabled codecs cap in
    if not (equal_fold codec.mime cap.mime_type)
    then rest
    else if codec.fmtp_line == "" || equal_fold codec.fmtp_line cap.sdp_fmtp_line
    then true
    else rest

unfoldable pub opus_codec : WebRtcNames → RtcpFeedbackConfig → CodecParameters
opus_codec names fb = record {
  capability = record {
    mime_type = names.mime_type_opus;
    clock_rate = 48000;
    channels = 1;
    sdp_fmtp_line = "minptime=10;useinbandfec=1";
    rtcp_feedback = fb.audio_feedback;
  };
  payload_type = 111;
}

unfoldable pub video_codec : RtcpFeedbackConfig → String → String → ℕ → CodecParameters
video_codec fb mime fmtp payload_type = record {
  capability = record {
    mime_type = mime;
    clock_rate = 90000;
    channels = 0;
    sdp_fmtp_line = fmtp;
    rtcp_feedback = fb.video_feedback;
  };
  payload_type = payload_type;
}

-- `availableCodecs` of `registerVideoCodecs`.
unfoldable pub available_codecs : WebRtcNames → RtcpFeedbackConfig → List CodecParameters
unfolding video_codec
available_codecs names fb =
    video_codec fb names.mime_type_vp8 "" 96
    ∷ video_codec fb names.mime_type_vp9 "profile-id=0" 98
    ∷ video_codec fb names.mime_type_vp9 "profile-id=1" 100
    ∷ video_codec fb names.mime_type_h264
        "level-asymmetry-allowed=1;packetization-mode=1;profile-level-id=42e01f" 125
    ∷ video_codec fb names.mime_type_h264
        "level-asymmetry-allowed=1;packetization-mode=0;profile-level-id=42e01f" 108
    ∷ video_codec fb names.mime_type_h264
        "level-asymmetry-allowed=1;packetization-mode=1;profile-level-id=640032" 123
    ∷ video_codec fb names.mime_type_av1 "" 35
    ∷ []

-- The loop that appends each enabled codec to those that are there.
unfoldable pub append_enabled :
    EnabledCodecs → List CodecParameters → List CodecParameters → List CodecParameters
unfolding is_codec_enabled
append_enabled enabled [] acc = acc
append_enabled enabled (codec ∷ rest) acc =
    append_enabled enabled rest
      (if is_codec_enabled enabled codec.capability then acc ++ codec ∷ [] else acc)

-- `len(table) == 0` guards the filling of either list.
unfoldable pub fill_if_empty :
    EnabledCodecs → List CodecParameters → List CodecParameters → List CodecParameters
unfolding append_enabled
fill_if_empty enabled available [] = append_enabled enabled available []
fill_if_empty enabled available (codec ∷ rest) = codec ∷ rest

module _ {Engine : Type 0} (api : EngineApi Engine) (names : WebRtcNames) where
  -- `for _, params := range … { if err := mediaEngine.RegisterCodec(…) }`
  unfoldable pub register_all : CodecType → List CodecParameters → Engine → Option Error × Engine
  register_all t [] engine = (none, engine)
  register_all t (params ∷ rest) engine =
      let (e, engine') = api.register_codec engine params t in
      elim e [ some x ↦ (some x, engine') | none ↦ register_all t rest engine' ]

  unfoldable pub register_audio_codecs :
      EnabledCodecs
      → RtcpFeedbackConfig
      → Engine
      → CodecTable
      → (Option Error × Engine) × CodecTable
  unfolding register_all fill_if_empty opus_codec
  register_audio_codecs enabled fb engine table =
      let codecs = fill_if_empty enabled (opus_codec names fb ∷ []) table.audio_codecs in
      (register_all audio codecs engine, record table { audio_codecs = codecs })

  unfoldable pub register_video_codecs :
      EnabledCodecs
      → RtcpFeedbackConfig
      → Engine
      → CodecTable
      → (Option Error × Engine) × CodecTable
  unfolding register_all fill_if_empty available_codecs
  register_video_codecs enabled fb engine table =
      let codecs = fill_if_empty enabled (available_codecs names fb) table.video_codecs in
      (register_all video codecs engine, record table { video_codecs = codecs })

  unfoldable pub register_codecs :
      EnabledCodecs
      → RtcpFeedbackConfig
      → Engine
      → CodecTable
      → (Option Error × Engine) × CodecTable
  unfolding register_audio_codecs register_video_codecs
  register_codecs enabled fb engine table =
      let ((e, engine'), table') = register_audio_codecs enabled fb engine table in
      elim e [
        | some x ↦ ((some x, engine'), table')
        | none ↦ register_video_codecs enabled fb engine' table'
      ]

  unfoldable pub register_extensions : CodecType → List String → Engine → Option Error × Engine
  register_extensions t [] engine = (none, engine)
  register_extensions t (uri ∷ rest) engine =
      let (e, engine') = api.register_header_extension engine uri t in
      elim e [ some x ↦ (some x, engine') | none ↦ register_extensions t rest engine' ]

  unfoldable pub register_header_extensions :
      RtpHeaderExtensionConfig → Engine → Option Error × Engine
  unfolding register_extensions
  register_header_extensions ext engine =
      let (e, engine') = register_extensions video ext.video_extensions engine in
      elim e [
        | some x ↦ (some x, engine')
        | none ↦ register_extensions audio ext.audio_extensions engine'
      ]

  -- The default interceptors are for a publisher only.
  unfoldable pub finish_engine :
      DirectionConfig → SignalingTarget → Option Error × Engine → Outcome Engine
  unfolding register_header_extensions
  finish_engine direction target (some x, engine) = err x
  finish_engine direction target (none, engine) =
      let (e, engine') = register_header_extensions direction.rtp_header_extension engine in
      let (i, engine'') = api.register_default_interceptors engine' in
      elim e [
        | some x ↦ err x
        | none ↦
            if target == publisher_target
            then elim i [ some x ↦ err x | none ↦ ok engine'' ]
            else ok engine'
      ]

  unfoldable pub create_media_engine :
      EnabledCodecs → DirectionConfig → SignalingTarget → CodecTable → Outcome Engine × CodecTable
  unfolding register_codecs finish_engine
  create_media_engine enabled direction target table =
      let (registered, table') =
        register_codecs enabled direction.rtcp_feedback api.new_engine table in
      (finish_engine direction target registered, table')
