-- ===== src/Bot/Signaling/Laws.antt =====
-- What becomes of the RPCs that the bot of internal/bot/bot.go reads.
use livelook_sfu.Common.{
  ◌≡◌, ◌≢◌, ◌↔◌, inl, inr, refl, subst, true, Option, none, some, ◌==◌, string_eq, string_beq_iff,
  Outcome, ok, panic, Error,
}
use livelook_sfu.Eventbus.Rpc.{
  SessionDescription, IceCandidateInit, Rpc, join_rpc, ice_candidate_rpc, sdp_rpc,
  close_session_rpc, start_stream_rpc, stop_stream_rpc, subscribe_stream_rpc,
  subscribe_stream_cancel_rpc, get_method, sdp_offer_method, sdp_answer_method,
}
use livelook_sfu.Eventbus.Decoding.{Codec, rpc_from_reader}
use livelook_sfu.Eventbus.Decoding.Laws.{Canonical, Decodes, rpc_from_reader-Decodes}
use livelook_sfu.Rtc.Transport.{PeerApi, flush_candidates}
use livelook_sfu.Bot.{Bot}
use livelook_sfu.Bot.Signaling.{bot_dispatch, candidate_over, flushed_to, answered_by, read_rpc}

-- The RPCs that need the peer connection.
abbrev pub ForConnection : Rpc → Type 0
ForConnection (ice_candidate_rpc h p) = Unit {0}
ForConnection (sdp_rpc h p) = h.method ≡ sdp_answer_method
ForConnection _ = ⊥

offer-ne-answer : sdp_offer_method ≢ sdp_answer_method
offer-ne-answer h =
    let same : (sdp_offer_method == sdp_answer_method) ≡ true = (string_beq_iff _ _).1 h in cc same

never : {A : Type 0} → ◌≡◌ {A = Outcome (Unit {0})} (ok tt) panic → A
never h = absurd (cc h)

module _ {Peer : Type 0} (api : PeerApi Peer) where
  dispatch-unconnected :
      (r : Rpc) (b : Bot Peer)
      → Canonical r
      → b.peer_connection ≡ none
      → ((bot_dispatch api (get_method r) r b).0 ≡ panic) ↔ ForConnection r
  unfolding bot_dispatch get_method
  dispatch-unconnected (ice_candidate_rpc h p) b e none_yet =
      rw e (rw none_yet (λ x. tt, λ x. refl))
  dispatch-unconnected (join_rpc h) b e none_yet = rw e (never, λ x. absurd x)
  dispatch-unconnected (sdp_rpc h p) b (inl e) none_yet =
      rw e (never, λ x. absurd (offer-ne-answer x))
  dispatch-unconnected (sdp_rpc h p) b (inr e) none_yet = rw e (rw none_yet (λ x. refl, λ x. refl))
  dispatch-unconnected (close_session_rpc h) b e none_yet = rw e (never, λ x. absurd x)
  dispatch-unconnected (start_stream_rpc h) b e none_yet = rw e (never, λ x. absurd x)
  dispatch-unconnected (stop_stream_rpc h) b e none_yet = rw e (never, λ x. absurd x)
  dispatch-unconnected (subscribe_stream_rpc h p) b e none_yet = rw e (never, λ x. absurd x)
  dispatch-unconnected (subscribe_stream_cancel_rpc h p) b e none_yet = rw e (never, λ x. absurd x)

  candidate_over-quiet :
      (c : IceCandidateInit) (x : Option SessionDescription) (pc : Peer) (b : Bot Peer)
      → (candidate_over api c x pc b).0 ≢ panic
  candidate_over-quiet c (some d) pc b h = cc h
  candidate_over-quiet c none pc b h = cc h

  flushed_to-quiet : (x : Option Error × Peer) (b : Bot Peer) → (flushed_to api x b).0 ≢ panic
  flushed_to-quiet (some e, pc) b h = cc h
  flushed_to-quiet (none, pc) b h = cc h

  answered_by-quiet : (x : Option Error × Peer) (b : Bot Peer) → (answered_by api x b).0 ≢ panic
  answered_by-quiet (some e, pc) b h = cc h
  answered_by-quiet (none, pc) b h =
      flushed_to-quiet (flush_candidates api b.pending_candidates pc) b h

  dispatch-connected :
      (r : Rpc) (b : Bot Peer) (pc : Peer)
      → Canonical r
      → b.peer_connection ≡ some pc
      → (bot_dispatch api (get_method r) r b).0 ≢ panic
  unfolding bot_dispatch get_method
  dispatch-connected (ice_candidate_rpc h p) b pc e there = rw e (
      rw there (
        candidate_over-quiet p.candidate_init (api.remote_description pc) pc
          (record b { peer_connection = some pc })))
  dispatch-connected (join_rpc h) b pc e there = rw e never
  dispatch-connected (sdp_rpc h p) b pc (inl e) there = rw e never
  dispatch-connected (sdp_rpc h p) b pc (inr e) there = rw e (
      rw there (
        answered_by-quiet (api.set_remote_description pc p.session_description)
          (record b { peer_connection = some pc })))
  dispatch-connected (close_session_rpc h) b pc e there = rw e never
  dispatch-connected (start_stream_rpc h) b pc e there = rw e never
  dispatch-connected (stop_stream_rpc h) b pc e there = rw e never
  dispatch-connected (subscribe_stream_rpc h p) b pc e there = rw e never
  dispatch-connected (subscribe_stream_cancel_rpc h p) b pc e there = rw e never

-- The peer connection is there.
abbrev pub HasConnection : {Peer : Type 0} → Option Peer → Type 0
HasConnection none = ⊥
HasConnection (some pc) = Unit {0}

module _ {Peer Bytes Params : Type 0} (api : PeerApi Peer) (codec : Codec Bytes Params) where
  over_connection :
      (r : Rpc) (b : Bot Peer) (x : Option Peer)
      → Canonical r
      → b.peer_connection ≡ x
      → ((bot_dispatch api (get_method r) r b).0 ≡ panic)
        ↔ (ForConnection r × (HasConnection x → ⊥))
  over_connection r b none canonical e =
      let exactly = dispatch-unconnected api r b canonical e in
      (λ h. (exactly.0 h, λ there. there), λ h. exactly.1 h.0)
  over_connection r b (some pc) canonical e =
      (λ h. absurd (dispatch-connected api r b pc canonical e h), λ h. absurd (h.1 tt))

  -- Reading an RPC panics exactly where it is an ICE candidate or an answer and the goroutine that
  -- the join has begun has not created the peer connection yet.
  pub read_rpc-panics :
      (text : Bytes) (r : Rpc) (b : Bot Peer)
      → rpc_from_reader codec text ≡ ok r
      → ((read_rpc api codec (ok text) b).0 ≡ panic)
        ↔ (ForConnection r × (HasConnection b.peer_connection → ⊥))
  unfolding read_rpc
  read_rpc-panics text r b read =
      let canonical = subst Decodes read (rpc_from_reader-Decodes codec text) in
      rw read (over_connection r b b.peer_connection canonical refl)
