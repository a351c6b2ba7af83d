-- ===== src/Rtc/Ownership/Creation.antt =====
-- `NewParticipant` of internal/rtc/participant.go keeps the invariant, also where it fails.
use livelook_sfu.Common.{
  ℕ, refl, Bool, Option, none, some, [], ◌∷◌, arith, string_eq, All-append, Outcome, ok, err, panic,
  Error,
}
use livelook_sfu.Config.{WebRtcNames}
use livelook_sfu.Rtc.MediaEngine.{EngineApi}
use livelook_sfu.Rtc.Transport.{PcTransport}
use livelook_sfu.Rtc.Node.{Node}
use livelook_sfu.Rtc.Participant.{
  ParticipantReplies, ParticipantOptions, Draft, new_participant, announce, announced,
  with_transport, described_by, new_draft, codecs_in_order, from_draft,
}
use livelook_sfu.Rtc.Ownership.{count_port, holders, holders-append}
use livelook_sfu.Rtc.Ownership.Drafts.{IsSound, allocate_codecs-IsSound}
use livelook_sfu.Rtc.Ownership.Invariant.{NodeInv}

module _ {Engine Peer : Type 0} (range : ℕ → Bool) (replies : ParticipantReplies Engine Peer)
    (options : ParticipantOptions) where
  -- Ports that are allocated and then forgotten stay taken.
  dropped :
      (node : Node Peer) (d : Draft)
      → IsSound (λ q. holders q node.participants) range d
      → NodeInv range node
      → NodeInv range (record node { ports = d.draft_ports })
  dropped node d s v = record {
    exclusive = λ q. omega (arith, s.exclusive q);
    in_range = s.in_range;
    no_subscriber = v.no_subscriber;
  }

  announced-NodeInv :
      (e : Option Error) (transport : PcTransport Peer) (node : Node Peer) (d : Draft)
      → IsSound (λ q. holders q node.participants) range d
      → NodeInv range node
      → NodeInv range (announced replies options e transport node d).1
  unfolding holders
  announced-NodeInv (some e) transport node d s v = dropped node d s v
  announced-NodeInv none transport node d s v = record {
    exclusive = λ q. omega (
      arith,
      s.exclusive q,
      holders-append q node.participants (from_draft replies options transport d ∷ []),
    );
    in_range = s.in_range;
    no_subscriber = All-append _ node.participants _ v.no_subscriber (refl, tt);
  }

  announce-NodeInv :
      (transport : PcTransport Peer) (node : Node Peer) (r : Outcome (Unit {0}) × Draft)
      → IsSound (λ q. holders q node.participants) range r.1
      → NodeInv range node
      → NodeInv range (announce replies options transport node r).1
  announce-NodeInv transport node (err e, d) s v = dropped node d s v
  announce-NodeInv transport node (panic, d) s v = dropped node d s v
  announce-NodeInv transport node (ok _, d) s v = announced-NodeInv _ transport node d s v

  with_transport-NodeInv :
      (transport : Outcome (PcTransport Peer)) (node : Node Peer)
      → NodeInv range node
      → NodeInv range (with_transport replies options transport node).1
  unfolding with_transport count_port
  with_transport-NodeInv (err e) node v = v
  with_transport-NodeInv panic node v = v
  with_transport-NodeInv (ok transport) node v =
      announce-NodeInv transport node _
        (allocate_codecs-IsSound (λ q. holders q node.participants) range replies.visits
          (codecs_in_order replies.audio_first node.codecs) (new_draft node.ports)
          (record { exclusive = λ q. omega (arith, v.exclusive q); in_range = v.in_range }))
        v

  described_by-NodeInv :
      (e : Option Error) (engines : EngineApi Engine) (names : WebRtcNames) (node : Node Peer)
      → NodeInv range node
      → NodeInv range (described_by replies options e engines names node).1
  described_by-NodeInv (some e) engines names node v = v
  described_by-NodeInv none engines names node v =
      with_transport-NodeInv _ (record node { codecs = _ })
        (record { exclusive = v.exclusive; in_range = v.in_range; no_subscriber = v.no_subscriber })

  pub new_participant-NodeInv :
      (engines : EngineApi Engine) (names : WebRtcNames) (node : Node Peer)
      → NodeInv range node
      → NodeInv range (new_participant replies options engines names node).1
  unfolding new_participant
  new_participant-NodeInv engines names node v = described_by-NodeInv _ engines names node v
