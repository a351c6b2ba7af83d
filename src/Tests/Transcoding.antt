-- ===== src/Tests/Transcoding.antt =====
-- A session of one user, two transcoder daemons, and a stop message that reaches both.
use livelook_sfu.Common.{ℕ, ◌<◌, ◌≡◌, refl, true, false, [], ◌∷◌, arith}
use livelook_sfu.Transcode.{Daemon}
use livelook_sfu.Transcode.Cluster.{process_runs, Forgotten}
use livelook_sfu.Service.{start_session, close_session}
use livelook_sfu.Service.Transcoding.{Chance, after_messages, session_transcoded}
use livelook_sfu.Tests.Fixtures.{setup, good}
use livelook_sfu.Tests.Service.{at_start, alice_starts, no_rooms}

abbrev to_second : Chance
to_second = record { marshal = λ media. []; chosen = λ j. 1; pid = λ j. 40 }

abbrev idle : Daemon
idle = record { transcoder_pids = []; running = []; sdp_files = [] }

second_is_there : (j : ℕ) → to_second.chosen j < 2
second_is_there j = omega arith

session_transcoded_example :
    let joined = (start_session setup good "alice" at_start).1 in
    let left = (close_session setup good "alice" joined).1 in
    (process_runs 1 40 (after_messages to_second joined.node.transcoder_messages (idle ∷ idle ∷ []))
      ≡ true)
    × (process_runs 1 40 (after_messages to_second left.node.transcoder_messages (idle ∷ idle ∷ []))
        ≡ false)
    × Forgotten "alice" (after_messages to_second left.node.transcoder_messages (idle ∷ idle ∷ []))
session_transcoded_example =
    session_transcoded setup to_second (idle ∷ idle ∷ []) second_is_there good good "alice" at_start
      no_rooms alice_starts refl
