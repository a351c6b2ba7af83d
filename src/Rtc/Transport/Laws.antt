-- ===== src/Rtc/Transport/Laws.antt =====
-- What becomes of the candidates that internal/rtc/transport.go receives.
use mathlib.Core.List.{append-nil, append_assoc}
use livelook_sfu.Common.{
  ◌≡◌, refl, ap, ◌∙◌, map, none, some, List, [], ◌∷◌, ◌++◌, err, arith, Error,
}
use livelook_sfu.Eventbus.Rpc.{SessionDescription, IceCandidateInit}
use livelook_sfu.Rtc.Transport.{
  PeerApi, PcTransport, transport_add_ice_candidate, flush_candidates,
  transport_set_remote_description,
}

-- What a transport is asked: a candidate, or the remote description.
pub data Signal : Type 0 where
  candidate : IceCandidateInit → Signal
  description : SessionDescription → Signal

module _ {Peer : Type 0} (api : PeerApi Peer) where
  unfoldable pub handle_signal : PcTransport Peer → Signal → PcTransport Peer
  handle_signal t (candidate c) = (transport_add_ice_candidate api t c).1
  handle_signal t (description d) = (transport_set_remote_description api t d).1

  unfoldable pub handle_signals : PcTransport Peer → List Signal → PcTransport Peer
  handle_signals t [] = t
  handle_signals t (s ∷ ss) = handle_signals (handle_signal t s) ss

  -- Adding candidates to a peer connection, one after the other.
  pub feed : Peer → List IceCandidateInit → Peer
  feed pc [] = pc
  feed pc (c ∷ cs) = feed (api.add_ice_candidate pc c).1 cs

-- What is documented of the connection: a description that is accepted is the remote description
-- from then on, and a candidate does not change it.
pub record PeerLaws {Peer : Type 0} (api : PeerApi Peer) : Type 0 where
  pub set_describes :
      (pc : Peer) (d : SessionDescription)
      → (api.set_remote_description pc d).0 ≡ none
      → api.remote_description (api.set_remote_description pc d).1 ≡ some d
  pub add_keeps :
      (pc : Peer) (c : IceCandidateInit)
      → api.remote_description (api.add_ice_candidate pc c).1 ≡ api.remote_description pc

module _ {Peer : Type 0} (api : PeerApi Peer) where
  pub handle_signals-append :
      (t : PcTransport Peer) (xs ys : List Signal)
      → handle_signals api t (xs ++ ys) ≡ handle_signals api (handle_signals api t xs) ys
  unfolding handle_signals
  handle_signals-append t [] ys = refl
  handle_signals-append t (x ∷ xs) ys = handle_signals-append (handle_signal api t x) xs ys

  feed-append :
      (pc : Peer) (xs ys : List IceCandidateInit)
      → feed api pc (xs ++ ys) ≡ feed api (feed api pc xs) ys
  unfolding feed
  feed-append pc [] ys = refl
  feed-append pc (x ∷ xs) ys = feed-append (api.add_ice_candidate pc x).1 xs ys

  add_waits :
      (t : PcTransport Peer) (c : IceCandidateInit)
      → api.remote_description t.pc ≡ none
      → handle_signal api t (candidate c)
        ≡ record t { pending_candidates = t.pending_candidates ++ c ∷ [] }
  unfolding handle_signal transport_add_ice_candidate
  add_waits t c h = ground arith

  add_passes :
      (t : PcTransport Peer) (c : IceCandidateInit) (d : SessionDescription)
      → api.remote_description t.pc ≡ some d
      → handle_signal api t (candidate c) ≡ record t { pc = (api.add_ice_candidate t.pc c).1 }
  unfolding handle_signal transport_add_ice_candidate
  add_passes t c d h = ground arith

  -- Without a remote description the candidates wait, oldest first.
  pub candidates_wait :
      (t : PcTransport Peer) (cs : List IceCandidateInit)
      → api.remote_description t.pc ≡ none
      → handle_signals api t (map candidate cs)
        ≡ record t { pending_candidates = t.pending_candidates ++ cs }
  unfolding handle_signals
  candidates_wait t [] h = simp append-nil
  candidates_wait t (c ∷ cs) h =
      ap (λ s. handle_signals api s (map candidate cs)) (add_waits t c h)
      ∙ candidates_wait (record t { pending_candidates = t.pending_candidates ++ c ∷ [] }) cs h
      ∙ simp append_assoc

  flush-feed :
      (cs : List IceCandidateInit) (pc : Peer)
      → (flush_candidates api cs pc).0 ≡ none
      → (flush_candidates api cs pc).1 ≡ feed api pc cs
  unfolding flush_candidates feed
  flush-feed [] pc h = refl
  flush-feed (c ∷ cs) pc h = ground (arith, flush-feed cs (api.add_ice_candidate pc c).1)

  -- With one they go straight to the connection.
  candidates_pass :
      PeerLaws api
      → (t : PcTransport Peer) (d : SessionDescription) (cs : List IceCandidateInit)
      → api.remote_description t.pc ≡ some d
      → handle_signals api t (map candidate cs) ≡ record t { pc = feed api t.pc cs }
  unfolding handle_signals feed
  candidates_pass laws t d [] h = refl
  candidates_pass laws t d (c ∷ cs) h =
      ap (λ s. handle_signals api s (map candidate cs)) (add_passes t c d h)
      ∙ candidates_pass laws (record t { pc = (api.add_ice_candidate t.pc c).1 }) d cs
          (laws.add_keeps t.pc c ∙ h)

  feed_keeps :
      PeerLaws api
      → (pc : Peer) (cs : List IceCandidateInit)
      → api.remote_description (feed api pc cs) ≡ api.remote_description pc
  unfolding feed
  feed_keeps laws pc [] = refl
  feed_keeps laws pc (c ∷ cs) =
      feed_keeps laws (api.add_ice_candidate pc c).1 cs ∙ laws.add_keeps pc c

  set_remote-ok :
      (t : PcTransport Peer) (d : SessionDescription)
      → (api.set_remote_description t.pc d).0 ≡ none
      → (flush_candidates api t.pending_candidates (api.set_remote_description t.pc d).1).0 ≡ none
      → (transport_set_remote_description api t d).1 ≡ record t {
        pc = feed api (api.set_remote_description t.pc d).1 t.pending_candidates;
        pending_candidates = [];
      }
  unfolding transport_set_remote_description
  set_remote-ok t d h k =
      ground (arith, flush-feed t.pending_candidates (api.set_remote_description t.pc d).1)

  -- On a transport without a remote description and without a waiting candidate, the candidates that
  -- come before the description and after it all reach the connection, each once and in their order,
  -- where the connection accepts the description and none of the candidates that wait is refused.
  pub candidates_delivered :
      PeerLaws api
      → (t : PcTransport Peer) (d : SessionDescription) (before after : List IceCandidateInit)
      → api.remote_description t.pc ≡ none
      → t.pending_candidates ≡ []
      → (api.set_remote_description t.pc d).0 ≡ none
      → (flush_candidates api before (api.set_remote_description t.pc d).1).0 ≡ none
      → handle_signals api t (map candidate before ++ description d ∷ map candidate after)
        ≡ record t {
          pc = feed api (api.set_remote_description t.pc d).1 (before ++ after);
          pending_candidates = [];
        }
  unfolding handle_signals handle_signal
  candidates_delivered laws t d before after undescribed empty accepted flushes =
      handle_signals-append t (map candidate before) _
      ∙ ap (λ s. handle_signals api s (description d ∷ map candidate after))
          (candidates_wait t before undescribed ∙ rw empty)
      ∙ ap (λ s. handle_signals api s (map candidate after))
          (set_remote-ok (record t { pending_candidates = before }) d accepted flushes)
      ∙ candidates_pass laws _ d after (
          feed_keeps laws (api.set_remote_description t.pc d).1 before
          ∙ laws.set_describes t.pc d accepted)
      ∙ rw (feed-append (api.set_remote_description t.pc d).1 before after)

  -- A description that is refused, or a waiting candidate that is, leaves every waiting
  -- candidate in place.
  pub set_remote-err :
      (t : PcTransport Peer) (d : SessionDescription) (e : Error)
      → (transport_set_remote_description api t d).0 ≡ err e
      → (transport_set_remote_description api t d).1.pending_candidates ≡ t.pending_candidates
  unfolding transport_set_remote_description
  set_remote-err t d e h = ground arith
