-- ===== src/Rtc/Participant/Creation.antt =====
-- What `NewParticipant` of internal/rtc/participant.go makes, and what it does not touch.
use livelook_sfu.Common.{
  ℕ, ◌≡◌, refl, Option, none, some, [], ◌∷◌, ◌++◌, length, Outcome, ok, err, panic, Error,
}
use livelook_sfu.Config.{WebRtcNames}
use livelook_sfu.Eventbus.Rpc.{UserSessionId}
use livelook_sfu.Rtc.MediaEngine.{CodecTable, EngineApi}
use livelook_sfu.Rtc.Transport.{PcTransport}
use livelook_sfu.Rtc.Node.{Participant, Node, start_transcoder}
use livelook_sfu.Rtc.Participant.{
  ParticipantReplies, ParticipantOptions, Draft, new_participant, announced, announce,
  with_transport, described_by,
}

-- The new participant stands at the end, under its user, with no track yet, and the transcoder
-- has been told its session description.
pub record IsCreated {Peer : Type 0} (user : UserSessionId) (node node' : Node Peer) (at : ℕ)
    : Type 0 where
  pub participant : Participant Peer
  pub position : at ≡ length node.participants
  pub appended : node'.participants ≡ node.participants ++ participant ∷ []
  pub owner : participant.id ≡ user
  pub trackless : participant.published_tracks ≡ some []
  pub messages_kept : node'.client_messages ≡ node.client_messages
  pub announced_start :
      node'.transcoder_messages
      ≡ start_transcoder user participant.transcoder_sdp ∷ node.transcoder_messages

-- A failure makes no participant and publishes nothing.
abbrev pub Creates : {Peer : Type 0} → UserSessionId → Node Peer → Outcome ℕ × Node Peer → Type 0
Creates user node (ok at, node') = IsCreated user node node' at
Creates user node (err e, node') =
    (node'.participants ≡ node.participants)
    × (node'.client_messages ≡ node.client_messages)
    × (node'.transcoder_messages ≡ node.transcoder_messages)
Creates user node (panic, node') =
    (node'.participants ≡ node.participants)
    × (node'.client_messages ≡ node.client_messages)
    × (node'.transcoder_messages ≡ node.transcoder_messages)

-- The codec table has no part in it.
Creates-codecs :
    {Peer : Type 0} (user : UserSessionId) (node : Node Peer) (table : CodecTable)
    (r : Outcome ℕ × Node Peer)
    → Creates user (record node { codecs = table }) r
    → Creates user node r
Creates-codecs user node table (ok at, node') c = record {
  participant = c.participant;
  position = c.position;
  appended = c.appended;
  owner = c.owner;
  trackless = c.trackless;
  messages_kept = c.messages_kept;
  announced_start = c.announced_start;
}
Creates-codecs user node table (err e, node') c = c
Creates-codecs user node table (panic, node') c = c

module _ {Engine Peer : Type 0} (replies : ParticipantReplies Engine Peer)
    (options : ParticipantOptions) where
  announced-Creates :
      (e : Option Error) (transport : PcTransport Peer) (node : Node Peer) (d : Draft)
      → Creates options.participant_user_id node (announced replies options e transport node d)
  announced-Creates (some e) transport node d = (refl, refl, refl)
  announced-Creates none transport node d = record {
    participant = _;
    position = refl;
    appended = refl;
    owner = refl;
    trackless = refl;
    messages_kept = refl;
    announced_start = refl;
  }

  announce-Creates :
      (transport : PcTransport Peer) (node : Node Peer) (r : Outcome (Unit {0}) × Draft)
      → Creates options.participant_user_id node (announce replies options transport node r)
  announce-Creates transport node (ok _, d) = announced-Creates _ transport node d
  announce-Creates transport node (err e, d) = (refl, refl, refl)
  announce-Creates transport node (panic, d) = (refl, refl, refl)

  with_transport-Creates :
      (transport : Outcome (PcTransport Peer)) (node : Node Peer)
      → Creates options.participant_user_id node (with_transport replies options transport node)
  unfolding with_transport
  with_transport-Creates (ok transport) node = announce-Creates transport node _
  with_transport-Creates (err e) node = (refl, refl, refl)
  with_transport-Creates panic node = (refl, refl, refl)

  described_by-Creates :
      (e : Option Error) (engines : EngineApi Engine) (names : WebRtcNames) (node : Node Peer)
      → Creates options.participant_user_id node (described_by replies options e engines names node)
  described_by-Creates (some e) engines names node = (refl, refl, refl)
  described_by-Creates none engines names node =
      Creates-codecs options.participant_user_id node _ _
        (with_transport-Creates _ (record node { codecs = _ }))

  -- `NewParticipant` makes one participant or none, and closes none.
  pub new_participant-Creates :
      (engines : EngineApi Engine) (names : WebRtcNames) (node : Node Peer)
      → Creates options.participant_user_id node
          (new_participant replies options engines names node)
  unfolding new_participant
  new_participant-Creates engines names node = described_by-Creates _ engines names node
