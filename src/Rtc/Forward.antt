-- ===== src/Rtc/Forward.antt =====
-- `ForwardRTP` of internal/rtc/mediatrack.go: the packets of a track of the browser go to the port of
-- the transcoder under the payload type of its session description.
pub mod Laws
use livelook_sfu.Common.{
  ℕ, ◌%◌, ◌<◌, ◌≡◌, Bool, true, false, Option, none, some, List, [], ◌∷◌, snoc, Outcome, ok, err,
  panic, Error,
}
use livelook_sfu.Rtc.Node.{MediaTrack}

-- The calls of pion/rtp. `unmarshal` stores a packet in the one that it is given.
pub record RtpApi (Packet Bytes : Type 0) : Type 0 where
  pub empty_packet : Packet
  pub unmarshal : Bytes → Packet → Outcome Packet
  pub with_payload_type : ℕ → Packet → Packet
  pub marshal_to : ℕ → Packet → Outcome Bytes

-- `make([]byte, 1500)`
abbrev pub buffer_size : ℕ
buffer_size = 1500

-- How `conn.Write` answers: `refused` is the error "write: connection refused".
pub data WriteReply : Type 0 where
  write_done : WriteReply
  refused : WriteReply
  write_failed : Error → WriteReply

-- The answers in one round of the loop.
pub record Round (Bytes : Type 0) : Type 0 where
  pub read_reply : Outcome Bytes
  pub write_reply : WriteReply

-- Why the goroutine has returned, if it has.
pub data Forwarding : Type 0 where
  forwards : Forwarding
  not_resolved : Error → Forwarding
  not_dialled : Error → Forwarding
  read_stopped : Error → Forwarding
  unmarshal_stopped : Error → Forwarding
  marshal_stopped : Error → Forwarding
  write_stopped : Error → Forwarding
  crashed : Forwarding

-- The state of the loop, and the texts that it has given to `conn.Write`.
pub record Progress (Packet Bytes : Type 0) : Type 0 where
  pub forwarding : Forwarding
  pub packet : Packet
  pub sent : List Bytes

module _ {Packet Bytes : Type 0} (api : RtpApi Packet Bytes) (track : MediaTrack) where
  abbrev pub stopped_by : Forwarding → Progress Packet Bytes → Progress Packet Bytes
  stopped_by reason s = record s { forwarding = reason }

  abbrev pub after_write : WriteReply → Bytes → Progress Packet Bytes → Progress Packet Bytes
  after_write write_done text s = record s { sent = snoc s.sent text }
  after_write refused text s = record s { sent = snoc s.sent text }
  after_write (write_failed e) text s = record s {
    forwarding = write_stopped e;
    sent = snoc s.sent text;
  }

  abbrev pub after_marshal :
      WriteReply → Outcome Bytes → Progress Packet Bytes → Progress Packet Bytes
  after_marshal write (ok text) s = after_write write text s
  after_marshal write (err e) s = stopped_by (marshal_stopped e) s
  after_marshal write panic s = stopped_by crashed s

  -- `uint8(t.transcoderConn.payloadType)`
  abbrev pub retyped : Packet → Packet
  retyped p = api.with_payload_type (track.track_payload_type % 256) p

  abbrev pub after_unmarshal :
      WriteReply → Outcome Packet → Progress Packet Bytes → Progress Packet Bytes
  after_unmarshal write (ok p) s =
      after_marshal write (api.marshal_to buffer_size (retyped p)) (record s { packet = retyped p })
  after_unmarshal write (err e) s = stopped_by (unmarshal_stopped e) s
  after_unmarshal write panic s = stopped_by crashed s

  abbrev pub after_read : WriteReply → Outcome Bytes → Progress Packet Bytes → Progress Packet Bytes
  after_read write (ok text) s = after_unmarshal write (api.unmarshal text s.packet) s
  after_read write (err e) s = stopped_by (read_stopped e) s
  after_read write panic s = stopped_by crashed s

  -- The body of the loop.
  unfoldable pub forward_packet : Round Bytes → Progress Packet Bytes → Progress Packet Bytes
  forward_packet r s = after_read r.write_reply r.read_reply s

  -- The loop ends once the body has returned.
  abbrev pub next_packet :
      Forwarding
      → Progress Packet Bytes
      → (Progress Packet Bytes → Progress Packet Bytes)
      → Progress Packet Bytes
  next_packet forwards s rest = rest s
  next_packet reason s rest = s

  unfoldable pub forward_packets :
      List (Round Bytes) → Progress Packet Bytes → Progress Packet Bytes
  unfolding forward_packet
  forward_packets [] s = s
  forward_packets (r ∷ rest) s =
      let s' = forward_packet r s in next_packet s'.forwarding s' (forward_packets rest)

  abbrev pub started : Progress Packet Bytes
  started = record { forwarding = forwards; packet = api.empty_packet; sent = [] }

  -- The answer to the resolution of the address and to the dial come first.
  unfoldable pub forward_rtp :
      Option Error → Option Error → List (Round Bytes) → Progress Packet Bytes
  unfolding forward_packets
  forward_rtp (some e) dial rounds = stopped_by (not_resolved e) started
  forward_rtp none (some e) rounds = stopped_by (not_dialled e) started
  forward_rtp none none rounds = forward_packets rounds started
