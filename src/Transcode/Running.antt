-- ===== src/Transcode/Running.antt =====
-- How a daemon of internal/transcode/daemon.go subscribes to NATS, waits, and leaves.
use livelook_sfu.Common.{
  ◌≡◌, refl, Bool, true, false, Option, none, some, List, [], ◌∷◌, Outcome, ok, err, Error,
}

-- What NATS keeps for the daemon.
pub record Subscriptions : Type 0 where
  pub connected : Bool
  pub start_subscribed : Bool
  pub stop_subscribed : Bool

-- How NATS answers when the daemon leaves.
pub record LeaveReplies : Type 0 where
  pub start_left : Option Error
  pub stop_left : Option Error
  pub drained : Option Error

-- `New`
unfoldable pub new_daemon : Option Error → Outcome Subscriptions
new_daemon (some e) = err e
new_daemon none =
    ok (record { connected = true; start_subscribed = false; stop_subscribed = false })

-- A call that fails is logged, and leaves what there was.
abbrev pub unless_failed : Option Error → Bool → Bool
unless_failed (some e) before = before
unless_failed none before = false

-- `Drain` ends the subscriptions and then the connection.
abbrev pub after_drain : Option Error → Subscriptions → Subscriptions
after_drain (some e) s = s
after_drain none s = record { connected = false; start_subscribed = false; stop_subscribed = false }

-- `Stop`. To leave a subscription that is nil is an error, which is logged as well.
unfoldable pub stop_daemon : LeaveReplies → Subscriptions → Subscriptions
stop_daemon replies s = after_drain replies.drained (record s {
  start_subscribed = unless_failed replies.start_left s.start_subscribed;
  stop_subscribed = unless_failed replies.stop_left s.stop_subscribed;
})

-- What the channels of the daemon hand to `Run`.
pub data Wake : Type 0 where
  reported : Error → Wake
  told_to_stop : Wake

-- The loop of `Run`: `none` where it still waits. An error of a handler is logged.
abbrev pub wait_for :
    LeaveReplies → List Wake → Subscriptions → Option (Outcome (Unit {0})) × Subscriptions
wait_for replies [] s = (none, s)
wait_for replies (reported e ∷ rest) s = wait_for replies rest s
wait_for replies (told_to_stop ∷ rest) s = (some (ok tt), stop_daemon replies s)

abbrev pub stop_asked :
    LeaveReplies
    → Option Error
    → List Wake
    → Subscriptions
    → Option (Outcome (Unit {0})) × Subscriptions
stop_asked replies (some e) wakes s = (some (err e), stop_daemon replies s)
stop_asked replies none wakes s = wait_for replies wakes (record s { stop_subscribed = true })

-- `Run`, with the answers to the two subscriptions.
unfoldable pub run_daemon :
    LeaveReplies
    → Option Error
    → Option Error
    → List Wake
    → Subscriptions
    → Option (Outcome (Unit {0})) × Subscriptions
unfolding stop_daemon
run_daemon replies (some e) stop wakes s = (some (err e), stop_daemon replies s)
run_daemon replies none stop wakes s =
    stop_asked replies stop wakes (record s { start_subscribed = true })

wait_for-stopped :
    (replies : LeaveReplies) (wakes : List Wake) (s : Subscriptions) {r : Outcome (Unit {0})}
    → replies.drained ≡ none
    → (wait_for replies wakes s).0 ≡ some r
    → (wait_for replies wakes s).1.connected ≡ false
unfolding stop_daemon
wait_for-stopped replies [] s h e = cc
wait_for-stopped replies (reported x ∷ rest) s h e = wait_for-stopped replies rest s h e
wait_for-stopped replies (told_to_stop ∷ rest) s h e = rw h refl

-- Once `Run` has returned, for whatever reason, a daemon that could be drained is not connected.
pub run_daemon-disconnected :
    (replies : LeaveReplies) (start stop : Option Error) (wakes : List Wake) (s : Subscriptions)
    {r : Outcome (Unit {0})}
    → replies.drained ≡ none
    → (run_daemon replies start stop wakes s).0 ≡ some r
    → (run_daemon replies start stop wakes s).1.connected ≡ false
unfolding run_daemon
run_daemon-disconnected replies (some x) stop wakes s h e = rw h refl
run_daemon-disconnected replies none (some x) wakes s h e = rw h refl
run_daemon-disconnected replies none none wakes s h e = wait_for-stopped replies wakes _ h e
