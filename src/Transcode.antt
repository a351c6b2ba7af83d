-- ===== src/Transcode.antt =====
-- internal/transcode/daemon.go: an ffmpeg process for each user who broadcasts.
pub mod Laws
pub mod Running
pub mod Cluster
use livelook_sfu.Common.{
  ℕ, Bool, true, false, Option, none, some, List, [], ◌∷◌, ◌++◌, codes, lookup, insert, delete,
  ◌==◌, nat_eq, string_eq, if◌then◌else◌, Outcome, ok, err, panic, Error, return_error,
}
use livelook_sfu.Eventbus.Rpc.{UserSessionId}

-- `Message`
pub record Message : Type 0 where
  pub receiver : UserSessionId
  pub description : List ℕ

-- `tanscoderPids`, the processes that run, and the session descriptions that have been written,
-- by user.
pub record Daemon : Type 0 where
  pub transcoder_pids : List (UserSessionId × ℕ)
  pub running : List ℕ
  pub sdp_files : List (UserSessionId × List ℕ)

-- How the operating system answers while a transcoder is started: the two directories, the file
-- and its content, the two pipes, and the process with its PID.
pub record StartReplies : Type 0 where
  pub user_dir_reply : Option Error
  pub stream_dir_reply : Option Error
  pub create_reply : Option Error
  pub write_reply : Option Error
  pub stdin_reply : Option Error
  pub stdout_reply : Option Error
  pub start_reply : Option Error
  pub new_pid : ℕ

pub record StopReplies : Type 0 where
  pub find_reply : Option Error
  pub kill_reply : Option Error
  pub remove_reply : Option Error

abbrev pub write_sdp : Message → List ℕ → Daemon → Daemon
write_sdp payload content d = record d { sdp_files = insert payload.receiver content d.sdp_files }

-- `ffmpegCmd.Start()`, and the PID that is recorded.
abbrev pub launched : ℕ → Message → Option Error → Daemon → Outcome (Unit {0}) × Daemon
launched pid payload (some e) d = (err e, d)
launched pid payload none d = (
  ok tt,
  record d {
    transcoder_pids = insert payload.receiver pid d.transcoder_pids;
    running = pid ∷ d.running;
  },
)

abbrev pub piped :
    StartReplies → Message → Option Error → Option Error → Daemon → Outcome (Unit {0}) × Daemon
piped replies payload (some e) stdout d = (err e, d)
piped replies payload none (some e) d = (err e, d)
piped replies payload none none d = launched replies.new_pid payload replies.start_reply d

-- `os.Create` empties the file; a write that fails leaves it so, as far as the daemon knows.
abbrev pub written : StartReplies → Message → Option Error → Daemon → Outcome (Unit {0}) × Daemon
written replies payload (some e) d = (err e, write_sdp payload [] d)
written replies payload none d =
    piped replies payload replies.stdin_reply replies.stdout_reply
      (write_sdp payload payload.description d)

abbrev pub created : StartReplies → Message → Option Error → Daemon → Outcome (Unit {0}) × Daemon
created replies payload (some e) d = (err e, d)
created replies payload none d = written replies payload replies.write_reply d

abbrev pub made_dirs :
    StartReplies → Message → Option Error → Option Error → Daemon → Outcome (Unit {0}) × Daemon
made_dirs replies payload (some e) stream d = (err e, d)
made_dirs replies payload none (some e) d = (err e, d)
made_dirs replies payload none none d = created replies payload replies.create_reply d

-- `startTranscoder` up to `Wait`, which changes nothing of the daemon when the process ends.
unfoldable pub start_daemon_transcoder :
    StartReplies → Message → Daemon → Outcome (Unit {0}) × Daemon
start_daemon_transcoder replies payload d =
    made_dirs replies payload replies.user_dir_reply replies.stream_dir_reply d

unfoldable pub without : ℕ → List ℕ → List ℕ
without pid [] = []
without pid (p ∷ rest) = if p == pid then without pid rest else p ∷ without pid rest

-- The error of `Kill` is logged.
abbrev pub killed : Option Error → ℕ → List ℕ → List ℕ
killed (some e) pid processes = processes
killed none pid processes = without pid processes

abbrev pub removed : Option Error → UserSessionId → Daemon → Outcome (Unit {0}) × Daemon
removed (some e) user d = (err e, d)
removed none user d = (ok tt, record d { sdp_files = delete user d.sdp_files })

abbrev pub found_process :
    StopReplies → UserSessionId → ℕ → Option Error → Daemon → Outcome (Unit {0}) × Daemon
found_process replies user pid (some e) d = (err e, d)
found_process replies user pid none d = removed replies.remove_reply user (record d {
  running = killed replies.kill_reply pid d.running;
  transcoder_pids = delete user d.transcoder_pids;
})

abbrev pub found_pid : StopReplies → UserSessionId → Option ℕ → Daemon → Outcome (Unit {0}) × Daemon
found_pid replies user none d = (ok tt, d)
found_pid replies user (some pid) d = found_process replies user pid replies.find_reply d

-- `stopTranscoder`
unfoldable pub stop_daemon_transcoder :
    StopReplies → UserSessionId → Daemon → Outcome (Unit {0}) × Daemon
unfolding without
stop_daemon_transcoder replies user d = found_pid replies user (lookup user d.transcoder_pids) d

-- `handleStartTranscoderMessage` and `handleStopTranscoderMessage`; `decoded` is the message, or
-- the error of its JSON.
unfoldable pub handle_start_transcoder_message :
    StartReplies → Outcome Message → Daemon → Outcome (Unit {0}) × Daemon
unfolding start_daemon_transcoder
handle_start_transcoder_message replies (ok payload) d = start_daemon_transcoder replies payload d
handle_start_transcoder_message replies (err e) d = (err e, d)
handle_start_transcoder_message replies panic d = (panic, d)

unfoldable pub handle_stop_transcoder_message :
    StopReplies → Outcome Message → Daemon → Outcome (Unit {0}) × Daemon
unfolding stop_daemon_transcoder
handle_stop_transcoder_message replies (ok payload) d =
    stop_daemon_transcoder replies payload.receiver d
handle_stop_transcoder_message replies (err e) d = (err e, d)
handle_stop_transcoder_message replies panic d = (panic, d)
