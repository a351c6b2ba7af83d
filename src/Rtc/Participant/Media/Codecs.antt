-- ===== src/Rtc/Participant/Media/Codecs.antt =====
-- The payload types in the codec table of internal/rtc/mediaengine.go.
use mathlib.Core.List.{append_assoc, append-nil}
use livelook_sfu.Common.{
  ◌<◌, ◌≡◌, ◌≢◌, refl, sym, subst, ◌∙◌, Bool, true, false, Bool-cases, inl, inr, Option, none, some,
  List, [], ◌∷◌, ◌++◌, All, if◌then◌else◌, arith, Error,
}
use livelook_sfu.Config.{EnabledCodecs, RtcpFeedbackConfig, DirectionConfig, WebRtcNames}
use livelook_sfu.Eventbus.Rpc.{SignalingTarget}
use livelook_sfu.Rtc.MediaEngine.{
  CodecParameters, CodecTable, EngineApi, no_codecs, is_codec_enabled, append_enabled,
  fill_if_empty, opus_codec, available_codecs, register_audio_codecs, register_video_codecs,
  register_codecs, create_media_engine,
}

-- The codecs of a list that are enabled.
unfoldable pub enabled_of : EnabledCodecs → List CodecParameters → List CodecParameters
enabled_of enabled [] = []
enabled_of enabled (codec ∷ rest) =
    let more = enabled_of enabled rest in
    if is_codec_enabled enabled codec.capability then codec ∷ more else more

append_enabled-enabled_of :
    (enabled : EnabledCodecs) (xs acc : List CodecParameters)
    → append_enabled enabled xs acc ≡ acc ++ enabled_of enabled xs
unfolding append_enabled enabled_of
append_enabled-enabled_of enabled [] acc = sym (append-nil acc)
append_enabled-enabled_of enabled (c ∷ xs) acc =
    elim (Bool-cases (is_codec_enabled enabled c.capability)) [
      | inl on ↦
          rw on (append_enabled-enabled_of enabled xs (acc ++ c ∷ []) ∙ append_assoc acc (c ∷ []) _)
      | inr off ↦ rw off (append_enabled-enabled_of enabled xs acc)
    ]

if-All :
    (P : CodecParameters → Type 0) (b : Bool) (c : CodecParameters) (xs : List CodecParameters)
    → P c
    → All P xs
    → All P (if b then c ∷ xs else xs)
if-All P true c xs p h = (p, h)
if-All P false c xs p h = h

enabled_of-All :
    (P : CodecParameters → Type 0) (enabled : EnabledCodecs) (xs : List CodecParameters)
    → All P xs
    → All P (enabled_of enabled xs)
unfolding enabled_of
enabled_of-All P enabled [] h = tt
enabled_of-All P enabled (c ∷ xs) (p, h) =
    if-All P (is_codec_enabled enabled c.capability) c _ p (enabled_of-All P enabled xs h)

-- The payload types of a list differ and fit into a byte.
abbrev pub Types : List CodecParameters → Type 0
Types [] = Unit {0}
Types (c ∷ rest) =
    (c.payload_type < 256)
    × All (λ (q : CodecParameters). c.payload_type ≢ q.payload_type) rest
    × Types rest

if-Types :
    (b : Bool) (c : CodecParameters) (xs : List CodecParameters)
    → Types (c ∷ xs)
    → Types (if b then c ∷ xs else xs)
if-Types true c xs h = h
if-Types false c xs (small, ne, h) = h

enabled_of-Types :
    (enabled : EnabledCodecs) (xs : List CodecParameters) → Types xs → Types (enabled_of enabled xs)
unfolding enabled_of
enabled_of-Types enabled [] h = tt
enabled_of-Types enabled (c ∷ xs) (small, ne, h) =
    if-Types (is_codec_enabled enabled c.capability) c _ (
      small,
      enabled_of-All (λ (q : CodecParameters). c.payload_type ≢ q.payload_type) enabled xs ne,
      enabled_of-Types enabled xs h,
    )

available-Types :
    (names : WebRtcNames) (fb : RtcpFeedbackConfig) → Types (available_codecs names fb)
unfolding available_codecs
available-Types names fb = (
  omega arith,
  (omega arith, (omega arith, (omega arith, (omega arith, (omega arith, (omega arith, tt)))))),
  (
    omega arith,
    (omega arith, (omega arith, (omega arith, (omega arith, (omega arith, tt))))),
    (
      omega arith,
      (omega arith, (omega arith, (omega arith, (omega arith, tt)))),
      (
        omega arith,
        (omega arith, (omega arith, (omega arith, tt))),
        (
          omega arith,
          (omega arith, (omega arith, tt)),
          (omega arith, (omega arith, tt), (omega arith, tt, tt)),
        ),
      ),
    ),
  ),
)

-- The audio codecs are all Opus; no video codec has its payload type.
abbrev pub IsOpus : CodecParameters → Type 0
IsOpus c = c.payload_type ≡ 111

abbrev pub IsNoOpus : CodecParameters → Type 0
IsNoOpus c = c.payload_type ≢ 111

pub record IsSound (table : CodecTable) : Type 0 where
  pub audio_types : Types table.audio_codecs
  pub audio_opus : All IsOpus table.audio_codecs
  pub video_types : Types table.video_codecs
  pub video_others : All IsNoOpus table.video_codecs

available-IsNoOpus :
    (names : WebRtcNames) (fb : RtcpFeedbackConfig) → All IsNoOpus (available_codecs names fb)
unfolding available_codecs
available-IsNoOpus names fb = (
  omega arith,
  (omega arith, (omega arith, (omega arith, (omega arith, (omega arith, (omega arith, tt)))))),
)

fill-Types :
    (enabled : EnabledCodecs) (available old : List CodecParameters)
    → Types available
    → Types old
    → Types (fill_if_empty enabled available old)
unfolding fill_if_empty
fill-Types enabled available [] h k =
    subst Types (sym (append_enabled-enabled_of enabled available []))
      (enabled_of-Types enabled available h)
fill-Types enabled available (c ∷ old) h k = k

fill-All :
    (P : CodecParameters → Type 0) (enabled : EnabledCodecs) (available old : List CodecParameters)
    → All P available
    → All P old
    → All P (fill_if_empty enabled available old)
unfolding fill_if_empty
fill-All P enabled available [] h k =
    subst (All P) (sym (append_enabled-enabled_of enabled available []))
      (enabled_of-All P enabled available h)
fill-All P enabled available (c ∷ old) h k = k

module _ {Engine : Type 0} (api : EngineApi Engine) (names : WebRtcNames) where
  filled_audio-IsSound :
      (enabled : EnabledCodecs) (fb : RtcpFeedbackConfig) (table : CodecTable)
      → IsSound table
      → IsSound (record table {
        audio_codecs = fill_if_empty enabled (opus_codec names fb ∷ []) table.audio_codecs;
      })
  unfolding opus_codec
  filled_audio-IsSound enabled fb table s = record {
    audio_types =
        fill-Types enabled (opus_codec names fb ∷ []) table.audio_codecs (omega arith, tt, tt)
          s.audio_types;
    audio_opus =
        fill-All IsOpus enabled (opus_codec names fb ∷ []) table.audio_codecs (refl, tt)
          s.audio_opus;
    video_types = s.video_types;
    video_others = s.video_others;
  }

  filled_video-IsSound :
      (enabled : EnabledCodecs) (fb : RtcpFeedbackConfig) (table : CodecTable)
      → IsSound table
      → IsSound (record table {
        video_codecs = fill_if_empty enabled (available_codecs names fb) table.video_codecs;
      })
  filled_video-IsSound enabled fb table s = record {
    audio_types = s.audio_types;
    audio_opus = s.audio_opus;
    video_types =
        fill-Types enabled (available_codecs names fb) table.video_codecs (available-Types names fb)
          s.video_types;
    video_others =
        fill-All IsNoOpus enabled (available_codecs names fb) table.video_codecs
          (available-IsNoOpus names fb) s.video_others;
  }

  either-IsSound :
      (e : Option Error) (engine : Engine) (table : CodecTable)
      (later : (Option Error × Engine) × CodecTable)
      → IsSound table
      → IsSound later.1
      → IsSound
          (elim e as (λ x. (Option Error × Engine) × CodecTable) [
            | some x ↦ ((some x, engine), table)
            | none ↦ later
          ]).1
  either-IsSound (some x) engine table later h k = h
  either-IsSound none engine table later h k = k

  register_codecs-IsSound :
      (enabled : EnabledCodecs) (fb : RtcpFeedbackConfig) (engine : Engine) (table : CodecTable)
      → IsSound table
      → IsSound (register_codecs api names enabled fb engine table).1
  unfolding register_codecs register_audio_codecs register_video_codecs
  register_codecs-IsSound enabled fb engine table s =
      let a = filled_audio-IsSound enabled fb table s in
      either-IsSound _ _ _ _ a (filled_video-IsSound enabled fb _ a)

  -- A sound codec table is so after a connection has been made, whatever its configuration and
  -- however the media engine answers.
  pub create_media_engine-IsSound :
      (enabled : EnabledCodecs) (direction : DirectionConfig) (target : SignalingTarget)
      (table : CodecTable)
      → IsSound table
      → IsSound (create_media_engine api names enabled direction target table).1
  unfolding create_media_engine
  create_media_engine-IsSound enabled direction target table s =
      register_codecs-IsSound enabled direction.rtcp_feedback api.new_engine table s

pub no_codecs-IsSound : IsSound no_codecs
no_codecs-IsSound = record {
  audio_types = tt;
  audio_opus = tt;
  video_types = tt;
  video_others = tt;
}
