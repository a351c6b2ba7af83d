-- ===== src/Tests/Transcode.antt =====
-- The transcoder daemon at concrete inputs.
use livelook_sfu.Common.{
  ◌≡◌, refl, true, false, none, some, [], ◌∷◌, lookup, string_eq, arith, err, Error, external,
}
use livelook_sfu.Transcode.Running.{run_daemon}
use livelook_sfu.Transcode.{Message, Daemon}
use livelook_sfu.Transcode.Laws.{started, stopped, runs, start_stop, restart_orphans}

abbrev broadcast : Message
broadcast = record { receiver = "alice"; description = [] }

abbrev busy : Daemon
busy = record { transcoder_pids = ("bob", 40) ∷ []; running = 40 ∷ []; sdp_files = [] }

start_stop_example :
    (lookup "alice" (started 41 broadcast busy).transcoder_pids ≡ some 41)
    × (lookup "alice" (stopped broadcast (started 41 broadcast busy)).transcoder_pids ≡ none)
    × (lookup "bob" (stopped broadcast (started 41 broadcast busy)).transcoder_pids
        ≡ lookup "bob" busy.transcoder_pids)
    × (runs 40 (stopped broadcast (started 41 broadcast busy)).running ≡ runs 40 busy.running)
start_stop_example = start_stop 41 40 broadcast "bob" busy refl

restart_orphans_example :
    (lookup "alice"
        (stopped broadcast (started 42 broadcast (started 41 broadcast busy))).transcoder_pids
      ≡ none)
    × (runs 42 (stopped broadcast (started 42 broadcast (started 41 broadcast busy))).running
        ≡ false)
    × (runs 41 (stopped broadcast (started 42 broadcast (started 41 broadcast busy))).running
        ≡ true)
restart_orphans_example = restart_orphans 41 42 broadcast busy (omega arith)

abbrev refused : Error
refused = external 1

-- Where the second subscription fails, the daemon leaves the first.
half_subscribed :
    run_daemon
      (record { start_left = none; stop_left = none; drained = none })
      none
      (some refused)
      []
      (record { connected = true; start_subscribed = false; stop_subscribed = false })
    ≡ (
      some (err refused),
      record { connected = false; start_subscribed = false; stop_subscribed = false },
    )
unfolding run_daemon
half_subscribed = refl
