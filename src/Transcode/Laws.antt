-- ===== src/Transcode/Laws.antt =====
-- What the daemon keeps of the processes that it starts.
use livelook_sfu.Common.{
  ℕ, ◌≡◌, ◌≢◌, refl, ap, ◌∙◌, Bool, true, false, none, some, List, [], ◌∷◌, lookup, insert, delete,
  lookup-insert, lookup-delete, ◌==◌, nat_eq, nat_beq_iff, string_eq, string_beq_iff, if◌then◌else◌,
  arith, ok,
}
use livelook_sfu.Eventbus.Rpc.{UserSessionId}
use livelook_sfu.Transcode.{
  Message, Daemon, StartReplies, StopReplies, without, handle_start_transcoder_message,
  handle_stop_transcoder_message,
}

unfoldable pub runs : ℕ → List ℕ → Bool
runs pid [] = false
runs pid (p ∷ rest) = if p == pid then true else runs pid rest

pub runs-without :
    (pid q : ℕ) (xs : List ℕ) → runs q (without pid xs) ≡ (if pid == q then false else runs q xs)
unfolding runs without
runs-without pid q [] = ground arith
runs-without pid q (p ∷ xs) =
    ground (arith, nat_beq_iff p pid, nat_beq_iff p q, nat_beq_iff pid q, runs-without pid q xs)

-- Where the operating system does what it is asked to.
abbrev pub starts_as : ℕ → StartReplies
starts_as pid = record {
  user_dir_reply = none;
  stream_dir_reply = none;
  create_reply = none;
  write_reply = none;
  stdin_reply = none;
  stdout_reply = none;
  start_reply = none;
  new_pid = pid;
}

abbrev pub stops : StopReplies
stops = record { find_reply = none; kill_reply = none; remove_reply = none }

abbrev pub started : ℕ → Message → Daemon → Daemon
started pid payload d = (handle_start_transcoder_message (starts_as pid) (ok payload) d).1

abbrev pub stopped : Message → Daemon → Daemon
stopped payload d = (handle_stop_transcoder_message stops (ok payload) d).1

pub stop_known :
    (payload : Message) (pid : ℕ) (d : Daemon)
    → lookup payload.receiver d.transcoder_pids ≡ some pid
    → handle_stop_transcoder_message stops (ok payload) d ≡ (
      ok tt,
      record d {
        running = without pid d.running;
        transcoder_pids = delete payload.receiver d.transcoder_pids;
        sdp_files = delete payload.receiver d.sdp_files;
      },
    )
unfolding handle_stop_transcoder_message
stop_known payload pid d h = rw h refl

pub start_records :
    (pid : ℕ) (payload : Message) (d : Daemon)
    → lookup payload.receiver (started pid payload d).transcoder_pids ≡ some pid
unfolding handle_start_transcoder_message
start_records pid payload d =
    lookup-insert payload.receiver payload.receiver pid d.transcoder_pids
    ∙ rw ((string_beq_iff payload.receiver payload.receiver).1 refl) refl

-- A stop message ends the process that the last start message of the user has begun and forgets
-- it; the processes of other users, and what is recorded of them, stay.
pub start_stop :
    (pid q : ℕ) (payload : Message) (other : UserSessionId) (d : Daemon)
    → (payload.receiver == other) ≡ false
    → let d' = started pid payload d in
      let d'' = stopped payload d' in
      (lookup payload.receiver d'.transcoder_pids ≡ some pid)
      × (lookup payload.receiver d''.transcoder_pids ≡ none)
      × (lookup other d''.transcoder_pids ≡ lookup other d.transcoder_pids)
      × (runs q d''.running ≡ (if pid == q then false else runs q d.running))
unfolding handle_start_transcoder_message runs
start_stop pid q payload other d differ =
    let user = payload.receiver in
    let self = (string_beq_iff user user).1 refl in
    let e = stop_known payload pid (started pid payload d) (start_records pid payload d) in
    (
      start_records pid payload d,
      ap (λ r. lookup user r.1.transcoder_pids) e
          ∙ lookup-delete user user (insert user pid d.transcoder_pids)
          ∙ rw self refl,
      ap (λ r. lookup other r.1.transcoder_pids) e
          ∙ lookup-delete user other (insert user pid d.transcoder_pids)
          ∙ rw differ (lookup-insert user other pid d.transcoder_pids ∙ rw differ refl),
      ap (λ r. runs q r.1.running) e ∙ runs-without pid q (pid ∷ d.running) ∙ ground arith,
    )

-- A second start message of a user, without a stop between, orphans the first process: the stop
-- message ends the second one and leaves the first running, of which nothing is recorded any more.
pub restart_orphans :
    (first second : ℕ) (payload : Message) (d : Daemon)
    → second ≢ first
    → let d' = stopped payload (started second payload (started first payload d)) in
      (lookup payload.receiver d'.transcoder_pids ≡ none)
      × (runs second d'.running ≡ false)
      × (runs first d'.running ≡ true)
unfolding handle_start_transcoder_message runs
restart_orphans first second payload d differ =
    let user = payload.receiver in
    let before = started first payload d in
    let e =
      stop_known payload second (started second payload before)
        (start_records second payload before) in
    (
      ap (λ r. lookup user r.1.transcoder_pids) e
          ∙ lookup-delete user user (insert user second before.transcoder_pids)
          ∙ rw ((string_beq_iff user user).1 refl) refl,
      ap (λ r. runs second r.1.running) e
          ∙ runs-without second second (second ∷ first ∷ d.running)
          ∙ ground (arith, nat_beq_iff second second),
      ap (λ r. runs first r.1.running) e
          ∙ runs-without second first (second ∷ first ∷ d.running)
          ∙ ground (arith, nat_beq_iff second first, nat_beq_iff first first),
    )
