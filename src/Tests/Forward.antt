-- ===== src/Tests/Forward.antt =====
-- A track of which three packets are read before the peer goes away.
use livelook_sfu.Common.{
  ℕ, ◌≡◌, ◌≢◌, Error, false, refl, ◌++◌, All, List, [], ◌∷◌, ok, err, external, arith, none,
}
use livelook_sfu.Rtc.Node.{MediaTrack}
use livelook_sfu.Rtc.Forward.{
  RtpApi, WriteReply, Round, write_done, write_failed, refused, read_stopped, forward_rtp,
}
use livelook_sfu.Rtc.Forward.Laws.{RtpLaws, Passes, read_ends, forward_rtp-Ends}

-- A packet, and its text, is the payload type and a number.
abbrev packets : RtpApi (ℕ × ℕ) (ℕ × ℕ)
packets = record {
  empty_packet = (0, 0);
  unmarshal = λ text p. ok text;
  with_payload_type = λ n p. (n, p.1);
  marshal_to = λ size p. ok p;
}

abbrev type_of : ℕ × ℕ → ℕ
type_of p = p.0

pair-type : (n x : ℕ) (text : ℕ × ℕ) → ok (n, x) ≡ ok text → text.0 ≡ n
pair-type n x (m, y) h = cc

packets_laws : RtpLaws packets type_of
packets_laws = record { marshal_type = λ n size p text small h. pair-type n p.1 text h }

abbrev camera : MediaTrack
camera = record {
  track_id = "camera";
  transcoder_port = 4000;
  track_payload_type = 96;
  conn_open = false;
}

abbrev passed : List (Round (ℕ × ℕ))
passed =
    record { read_reply = ok (100, 1); write_reply = write_done }
    ∷ record { read_reply = ok (100, 2); write_reply = refused }
    ∷ record { read_reply = ok (100, 3); write_reply = write_done }
    ∷ []

abbrev gone : Round (ℕ × ℕ)
gone = record { read_reply = err (external 0); write_reply = write_done }

-- A round that passes.
step_of :
    (n m : ℕ) (p : ℕ × ℕ) (w : WriteReply)
    → ((e : Error) → w ≢ write_failed e)
    → Passes packets camera (record { read_reply = ok (n, m); write_reply = w }) p (96, m) (96, m)
step_of n m p w h = record {
  text = (n, m);
  reads = refl;
  rewrites = record { parsed = (n, m); parses = refl; retypes = refl; marshals = refl };
  writes = h;
}

forward_rtp-Ends_example :
    ((forward_rtp packets camera none none (passed ++ gone ∷ passed)).forwarding
      ≡ read_stopped (external 0))
    × ((forward_rtp packets camera none none (passed ++ gone ∷ passed)).sent
        ≡ ((96, 1) ∷ (96, 2) ∷ (96, 3) ∷ []) ++ [])
    × All (λ out. type_of out ≡ 96) (((96, 1) ∷ (96, 2) ∷ (96, 3) ∷ []) ++ [])
forward_rtp-Ends_example =
    forward_rtp-Ends packets camera type_of packets_laws (omega arith) passed
      ((96, 1) ∷ (96, 2) ∷ (96, 3) ∷ []) gone passed (96, 3)
      (
        (96, 1),
        step_of 100 1 (0, 0) write_done (λ e h. cc h),
        (
          (96, 2),
          step_of 100 2 (96, 1) refused (λ e h. cc h),
          ((96, 3), step_of 100 3 (96, 2) write_done (λ e h. cc h), refl),
        ),
      )
      (read_ends (external 0) refl)
