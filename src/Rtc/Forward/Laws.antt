-- ===== src/Rtc/Forward/Laws.antt =====
-- What the transcoder gets from the loop of internal/rtc/mediatrack.go, and when the loop ends.
use livelook_sfu.Common.{
  ℕ, ◌%◌, ◌<◌, ◌≡◌, ◌≢◌, refl, sym, ap, subst, ◌∙◌, none, List, [], ◌∷◌, ◌++◌, snoc, All,
  All-append, ok, err, Error, arith,
}
use mathlib.Core.List.{append_assoc, append-nil}
use livelook_sfu.Rtc.Node.{MediaTrack}
use livelook_sfu.Rtc.Forward.{
  RtpApi, buffer_size, WriteReply, write_done, refused, write_failed, Round, Forwarding, forwards,
  read_stopped, unmarshal_stopped, marshal_stopped, write_stopped, Progress, after_write, retyped,
  forward_packet, next_packet, forward_packets, started, forward_rtp,
}

-- What pion/rtp documents: the text that `MarshalTo` writes of a packet bears the payload type that was
-- set, where it has seven bits.
pub record RtpLaws {Packet Bytes : Type 0} (api : RtpApi Packet Bytes) (type_of : Bytes → ℕ)
    : Type 0 where
  pub marshal_type :
      (n size : ℕ) (p : Packet) (text : Bytes)
      → n < 128
      → api.marshal_to size (api.with_payload_type n p) ≡ ok text
      → type_of text ≡ n

module _ {Packet Bytes : Type 0} (api : RtpApi Packet Bytes) (track : MediaTrack) where
  -- What a text that is read becomes: the packet `p` is the one in which it is parsed, which is that
  -- of the round before, and `q` the one that is left.
  pub record Rewrites (text : Bytes) (p q : Packet) (out : Bytes) : Type 0 where
    pub parsed : Packet
    pub parses : api.unmarshal text p ≡ ok parsed
    pub retypes : retyped api track parsed ≡ q
    pub marshals : api.marshal_to buffer_size q ≡ ok out

  -- A round that reads a text, gives `out` to the connection and goes on.
  pub record Passes (r : Round Bytes) (p q : Packet) (out : Bytes) : Type 0 where
    pub text : Bytes
    pub reads : r.read_reply ≡ ok text
    pub rewrites : Rewrites text p q out
    pub writes : (e : Error) → r.write_reply ≢ write_failed e

  -- Rounds that pass, from the packet `p` to the packet `q`.
  abbrev pub AllPass : List (Round Bytes) → List Bytes → Packet → Packet → Type 0
  AllPass [] [] p q = p ≡ q
  AllPass (r ∷ rs) (out ∷ outs) p q = (next : Packet) × Passes r p next out × AllPass rs outs next q
  AllPass _ _ p q = ⊥

  -- A round that ends the loop, why, and what it still gives to the connection.
  pub data Ends (r : Round Bytes) (p : Packet) : Forwarding → List Bytes → Type 0 where
    read_ends : (e : Error) → r.read_reply ≡ err e → Ends r p (read_stopped e) []
    unmarshal_ends :
        (text : Bytes) (e : Error)
        → r.read_reply ≡ ok text
        → api.unmarshal text p ≡ err e
        → Ends r p (unmarshal_stopped e) []
    marshal_ends :
        (text : Bytes) (q : Packet) (e : Error)
        → r.read_reply ≡ ok text
        → api.unmarshal text p ≡ ok q
        → api.marshal_to buffer_size (retyped api track q) ≡ err e
        → Ends r p (marshal_stopped e) []
    write_ends :
        (text out : Bytes) (q : Packet) (e : Error)
        → r.read_reply ≡ ok text
        → Rewrites text p q out
        → r.write_reply ≡ write_failed e
        → Ends r p (write_stopped e) (out ∷ [])

  abbrev pub Shows : Progress Packet Bytes → Forwarding → List Bytes → Type 0
  Shows s reason sent = (s.forwarding ≡ reason) × (s.sent ≡ sent)

  write_done-Shows :
      (w : WriteReply) (out : Bytes) (s : Progress Packet Bytes)
      → ((e : Error) → w ≢ write_failed e)
      → after_write api track w out s ≡ record s { sent = snoc s.sent out }
  write_done-Shows write_done out s h = refl
  write_done-Shows refused out s h = refl
  write_done-Shows (write_failed e) out s h = absurd (h e refl)

  Passes-same :
      (r : Round Bytes) (q : Packet) (out : Bytes) (s : Progress Packet Bytes)
      → Passes r s.packet q out
      → forward_packet api track r s ≡ record s { packet = q; sent = snoc s.sent out }
  unfolding forward_packet
  Passes-same r q out s h =
      let w = h.rewrites in
      let marshals = ap (api.marshal_to buffer_size) w.retypes ∙ w.marshals in
      rw h.reads (
        rw w.parses (
          rw marshals (
            write_done-Shows r.write_reply out (record s { packet = retyped api track w.parsed })
              h.writes
            ∙ ap (λ x. record s { packet = x; sent = snoc s.sent out }) w.retypes)))

  Ends-Shows :
      {reason : Forwarding} {extra : List Bytes} (r : Round Bytes) (s : Progress Packet Bytes)
      → Ends r s.packet reason extra
      → Shows (forward_packet api track r s) reason (s.sent ++ extra)
  unfolding forward_packet
  Ends-Shows r s (read_ends e read) = rw read (refl, sym (append-nil s.sent))
  Ends-Shows r s (unmarshal_ends text e read fails) =
      rw read (rw fails (refl, sym (append-nil s.sent)))
  Ends-Shows r s (marshal_ends text q e read parsed fails) =
      rw read (rw parsed (rw fails (refl, sym (append-nil s.sent))))
  Ends-Shows r s (write_ends text out q e read w fails) =
      let marshals = ap (api.marshal_to buffer_size) w.retypes ∙ w.marshals in
      rw read (rw w.parses (rw marshals (rw fails (refl, refl))))

  next-stopped :
      {reason : Forwarding} {extra : List Bytes} {r : Round Bytes} {p : Packet}
      (s : Progress Packet Bytes) (rest : Progress Packet Bytes → Progress Packet Bytes)
      → Ends r p reason extra
      → next_packet api track reason s rest ≡ s
  next-stopped s rest (read_ends _ _) = refl
  next-stopped s rest (unmarshal_ends _ _ _ _) = refl
  next-stopped s rest (marshal_ends _ _ _ _ _ _) = refl
  next-stopped s rest (write_ends _ _ _ _ _ _ _) = refl

  forward_packets-Shows :
      {reason : Forwarding} {extra : List Bytes} (rs : List (Round Bytes)) (outs : List Bytes)
      (last : Round Bytes) (rest : List (Round Bytes)) (s : Progress Packet Bytes) (q : Packet)
      → s.forwarding ≡ forwards
      → AllPass rs outs s.packet q
      → Ends last q reason extra
      → Shows (forward_packets api track (rs ++ last ∷ rest) s) reason (s.sent ++ (outs ++ extra))
  unfolding forward_packets
  forward_packets-Shows {reason} {extra} [] [] last rest s q on pass ends =
      let ends' : Ends last s.packet reason extra =
        subst (λ p. Ends last p reason extra) (sym pass) ends in
      let (why, all) = Ends-Shows last s ends' in
      rw why (
        rw (next-stopped (forward_packet api track last s) (forward_packets api track rest) ends')
          (why, all))
  forward_packets-Shows {reason} {extra} (r ∷ rs) (out ∷ outs) last rest s q on (p, h, pass) ends =
      let s' : Progress Packet Bytes = record s { packet = p; sent = snoc s.sent out } in
      let h' = forward_packets-Shows rs outs last rest s' q on pass ends in
      subst
        (λ x.
          Shows
            (next_packet api track x.forwarding x (forward_packets api track (rs ++ last ∷ rest)))
            reason (s.sent ++ (out ∷ outs ++ extra)))
        (sym (Passes-same r p out s h))
        (subst
          (λ f.
            Shows (next_packet api track f s' (forward_packets api track (rs ++ last ∷ rest)))
              reason (s.sent ++ (out ∷ outs ++ extra)))
          (sym on) (h'.0, h'.1 ∙ append_assoc s.sent (out ∷ []) (outs ++ extra)))
  forward_packets-Shows [] (out ∷ outs) last rest s q on pass ends = absurd pass
  forward_packets-Shows (r ∷ rs) [] last rest s q on pass ends = absurd pass

  module _ (type_of : Bytes → ℕ) (laws : RtpLaws api type_of)
      (small : track.track_payload_type < 128) where
    Rewrites-typed :
        (text : Bytes) (p q : Packet) (out : Bytes)
        → Rewrites text p q out
        → type_of out ≡ track.track_payload_type
    Rewrites-typed text p q out w =
        let same : track.track_payload_type % 256 ≡ track.track_payload_type = omega arith in
        laws.marshal_type (track.track_payload_type % 256) buffer_size w.parsed out (omega arith)
          (ap (api.marshal_to buffer_size) w.retypes ∙ w.marshals)
        ∙ same

    AllPass-typed :
        (rs : List (Round Bytes)) (outs : List Bytes) (p q : Packet)
        → AllPass rs outs p q
        → All (λ out. type_of out ≡ track.track_payload_type) outs
    AllPass-typed [] [] p q pass = tt
    AllPass-typed (r ∷ rs) (out ∷ outs) p q (x, h, pass) =
        (Rewrites-typed h.text p x out h.rewrites, AllPass-typed rs outs x q pass)
    AllPass-typed [] (out ∷ outs) p q pass = absurd pass
    AllPass-typed (r ∷ rs) [] p q pass = absurd pass

    Ends-typed :
        {reason : Forwarding} {extra : List Bytes} {r : Round Bytes} {p : Packet}
        → Ends r p reason extra
        → All (λ out. type_of out ≡ track.track_payload_type) extra
    Ends-typed (read_ends _ _) = tt
    Ends-typed (unmarshal_ends _ _ _ _) = tt
    Ends-typed (marshal_ends _ _ _ _ _ _) = tt
    Ends-typed {p = p} (write_ends text out q e read w fails) = (Rewrites-typed text p q out w, tt)

    -- Once dialled, the loop ends in the first round that fails, for the reason of that round. The
    -- connection has then been given the packets of the rounds before, each once and in order, and the
    -- packet of the failing round only if it is the write that failed; all of them have the payload type
    -- of the track, if it has seven bits. Each is what the text of its round becomes when it is parsed
    -- into the packet of the round before, which the loop reuses. What would be read afterwards is not.
    pub forward_rtp-Ends :
        {reason : Forwarding} {extra : List Bytes} (rs : List (Round Bytes)) (outs : List Bytes)
        (last : Round Bytes) (rest : List (Round Bytes)) (q : Packet)
        → AllPass rs outs api.empty_packet q
        → Ends last q reason extra
        → ((forward_rtp api track none none (rs ++ last ∷ rest)).forwarding ≡ reason)
          × ((forward_rtp api track none none (rs ++ last ∷ rest)).sent ≡ outs ++ extra)
          × All (λ out. type_of out ≡ track.track_payload_type) (outs ++ extra)
    unfolding forward_rtp
    forward_rtp-Ends {reason} {extra} rs outs last rest q pass ends =
        let h = forward_packets-Shows rs outs last rest (started api track) q refl pass ends in
        (
          h.0,
          h.1,
          All-append (λ out. type_of out ≡ track.track_payload_type) outs extra
              (AllPass-typed rs outs api.empty_packet q pass) (Ends-typed ends),
        )
