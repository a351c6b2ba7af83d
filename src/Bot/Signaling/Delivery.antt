-- ===== src/Bot/Signaling/Delivery.antt =====
-- The signals that the bot of internal/bot/bot.go reads go to its peer connection as those of
-- internal/rtc/transport.go do.
use livelook_sfu.Common.{
  ◌≡◌, refl, sym, ap, subst, inl, ◌∙◌, map, false, none, some, List, [], ◌∷◌, ◌++◌, All, Outcome,
  ok, arith,
}
use livelook_sfu.Eventbus.Rpc.{
  SessionDescription, IceCandidateInit, Rpc, get_method, publisher_target, new_ice_candidate_rpc,
  new_sdp_answer_rpc,
}
use livelook_sfu.Eventbus.Encoding.{JsonText, JsonTextLaws, to_json}
use livelook_sfu.Eventbus.Encoding.Reading.{json_codec}
use livelook_sfu.Eventbus.Encoding.RoundTrip.{Fits, rpc_from_reader-to_json}
use livelook_sfu.Rtc.Transport.{
  PeerApi, PcTransport, flush_candidates, transport_add_ice_candidate,
  transport_set_remote_description,
}
use livelook_sfu.Rtc.Transport.Laws.{
  Signal, candidate, description, handle_signal, handle_signals, feed, PeerLaws,
  candidates_delivered, candidates_wait,
}
use livelook_sfu.Bot.{Bot}
use livelook_sfu.Bot.Signaling.{
  bot_add_ice_candidate, bot_set_remote_description, bot_dispatch, read_rpc, read_rpcs, next_rpc,
}

-- The RPC by which the server sends a signal to the publisher.
abbrev pub rpc_of_signal : Signal → Rpc
rpc_of_signal (candidate c) = new_ice_candidate_rpc c publisher_target
rpc_of_signal (description d) = new_sdp_answer_rpc d publisher_target

-- A line index is a uint16, and pion knows the SDP type.
abbrev pub Sendable : {Bytes : Type 0} → JsonText Bytes → Signal → Type 0
Sendable t (candidate c) = Fits c.sdp_m_line_index
Sendable t (description d) = t.read_sdp_type d.sdp_type ≡ ok d.sdp_type

module _ {Peer : Type 0} (api : PeerApi Peer) where
  -- The transport that keeps what the bot keeps, and the bot that keeps what a transport keeps.
  abbrev pub transport_of : Peer → Bot Peer → PcTransport Peer
  transport_of pc b = record {
    pc = pc;
    stream_allocator = false;
    pending_candidates = b.pending_candidates;
  }

  abbrev pub keeping : PcTransport Peer → Bot Peer → Bot Peer
  keeping t b = record b { peer_connection = some t.pc; pending_candidates = t.pending_candidates }

  -- What the transport answers to a signal.
  abbrev pub signal_result : PcTransport Peer → Signal → Outcome (Unit {0})
  signal_result t (candidate c) = (transport_add_ice_candidate api t c).0
  signal_result t (description d) = (transport_set_remote_description api t d).0

  candidate-same :
      (c : IceCandidateInit) (t : PcTransport Peer) (b : Bot Peer)
      → bot_add_ice_candidate api c (keeping t b)
        ≡ (signal_result t (candidate c), keeping (handle_signal api t (candidate c)) b)
  unfolding bot_add_ice_candidate transport_add_ice_candidate handle_signal
  candidate-same c t b = ground arith

  description-same :
      (d : SessionDescription) (t : PcTransport Peer) (b : Bot Peer)
      → bot_set_remote_description api d (keeping t b)
        ≡ (signal_result t (description d), keeping (handle_signal api t (description d)) b)
  unfolding bot_set_remote_description transport_set_remote_description handle_signal
  description-same d t b = ground arith

  -- Every signal is taken.
  abbrev pub AllTaken : PcTransport Peer → List Signal → Type 0
  AllTaken t [] = Unit {0}
  AllTaken t (s ∷ ss) = (signal_result t s ≡ ok tt) × AllTaken (handle_signal api t s) ss

  add-taken : (t : PcTransport Peer) (c : IceCandidateInit) → signal_result t (candidate c) ≡ ok tt
  unfolding transport_add_ice_candidate
  add-taken t c = ground arith

  set-taken :
      (t : PcTransport Peer) (d : SessionDescription)
      → (api.set_remote_description t.pc d).0 ≡ none
      → (flush_candidates api t.pending_candidates (api.set_remote_description t.pc d).1).0 ≡ none
      → signal_result t (description d) ≡ ok tt
  unfolding transport_set_remote_description
  set-taken t d h k = ground arith

  candidates-taken :
      (t : PcTransport Peer) (cs : List IceCandidateInit) → AllTaken t (map candidate cs)
  candidates-taken t [] = tt
  candidates-taken t (c ∷ cs) =
      (add-taken t c, candidates-taken (handle_signal api t (candidate c)) cs)

  AllTaken-append :
      (t : PcTransport Peer) (xs ys : List Signal)
      → AllTaken t xs
      → AllTaken (handle_signals api t xs) ys
      → AllTaken t (xs ++ ys)
  unfolding handle_signals
  AllTaken-append t [] ys h k = k
  AllTaken-append t (x ∷ xs) ys (h, hs) k = (h, AllTaken-append (handle_signal api t x) xs ys hs k)

  session-taken :
      (t : PcTransport Peer) (d : SessionDescription) (before after : List IceCandidateInit)
      → api.remote_description t.pc ≡ none
      → t.pending_candidates ≡ []
      → (api.set_remote_description t.pc d).0 ≡ none
      → (flush_candidates api before (api.set_remote_description t.pc d).1).0 ≡ none
      → AllTaken t (map candidate before ++ description d ∷ map candidate after)
  session-taken t d before after undescribed empty accepted flushes =
      let waiting : PcTransport Peer = record t { pending_candidates = before } in
      let now : handle_signals api t (map candidate before) ≡ waiting =
        candidates_wait api t before undescribed ∙ rw empty in
      AllTaken-append t (map candidate before) (description d ∷ map candidate after)
        (candidates-taken t before)
        (subst (λ u. AllTaken u (description d ∷ map candidate after)) (sym now)
          (
            set-taken waiting d accepted flushes,
            candidates-taken (handle_signal api waiting (description d)) after,
          ))

module _ {Peer Bytes : Type 0} (api : PeerApi Peer) (t : JsonText Bytes)
    (laws : JsonTextLaws t) where
  read-signal :
      (s : Signal) (u : PcTransport Peer) (b : Bot Peer)
      → Sendable t s
      → read_rpc api (json_codec t) (ok (to_json t (rpc_of_signal s))) (keeping api u b)
        ≡ (signal_result api u s, keeping api (handle_signal api u s) b)
  unfolding read_rpc bot_dispatch get_method new_ice_candidate_rpc new_sdp_answer_rpc
  read-signal (candidate c) u b fits =
      rw (rpc_from_reader-to_json t laws (rpc_of_signal (candidate c)) (refl, fits))
        (candidate-same api c u b)
  read-signal (description d) u b known =
      rw (rpc_from_reader-to_json t laws (rpc_of_signal (description d)) (known, inl refl))
        (description-same api d u b)

  read-signals :
      (ss : List Signal) (u : PcTransport Peer) (b : Bot Peer)
      → All (Sendable t) ss
      → AllTaken api u ss
      → read_rpcs api
          (json_codec t)
          (map (λ s. ok (to_json t (rpc_of_signal s))) ss)
          (keeping api u b)
        ≡ (ok tt, keeping api (handle_signals api u ss) b)
  unfolding read_rpcs handle_signals
  read-signals [] u b sendable taken = refl
  read-signals (s ∷ ss) u b (fits, sendable) (done, taken) =
      let rest = read_rpcs api (json_codec t) (map (λ x. ok (to_json t (rpc_of_signal x))) ss) in
      ap (λ x. next_rpc api (json_codec t) x rest)
        (read-signal s u b fits ∙ ap (λ r. (r, keeping api (handle_signal api u s) b)) done)
      ∙ read-signals ss (handle_signal api u s) b sendable taken

  -- A bot whose peer connection is there and waits for the answer reads what the server sends: the
  -- candidates before the answer, the answer, and the candidates after it. All candidates reach the
  -- connection, each once and in their order, and the reader goes on. The connection accepts the
  -- answer and the candidates that waited for it; line indices are uint16, the SDP type is known.
  pub bot_signals_delivered :
      PeerLaws api
      → (b : Bot Peer) (pc : Peer) (d : SessionDescription) (before after : List IceCandidateInit)
      → b.peer_connection ≡ some pc
      → b.pending_candidates ≡ []
      → api.remote_description pc ≡ none
      → (api.set_remote_description pc d).0 ≡ none
      → (flush_candidates api before (api.set_remote_description pc d).1).0 ≡ none
      → All (Sendable t) (map candidate before ++ description d ∷ map candidate after)
      → read_rpcs api
          (json_codec t)
          (map
            (λ s. ok (to_json t (rpc_of_signal s)))
            (map candidate before ++ description d ∷ map candidate after))
          b
        ≡ (
          ok tt,
          record b {
            peer_connection = some (feed api (api.set_remote_description pc d).1 (before ++ after));
            pending_candidates = [];
          },
        )
  bot_signals_delivered peer_laws b pc d before after there empty undescribed accepted flushes
        sendable =
      let ss = map candidate before ++ description d ∷ map candidate after in
      let u = transport_of api pc b in
      let same : b ≡ keeping api u b = ap (λ x. record b { peer_connection = x }) there in
      ap (read_rpcs api (json_codec t) (map (λ s. ok (to_json t (rpc_of_signal s))) ss)) same
      ∙ read-signals ss u b sendable
          (session-taken api u d before after undescribed empty accepted flushes)
      ∙ ap (λ v. (ok tt, keeping api v b))
          (candidates_delivered api peer_laws u d before after undescribed empty accepted flushes)
