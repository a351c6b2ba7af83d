-- ===== src/Transcode/Cluster.antt =====
-- The daemons of internal/transcode/daemon.go that share the subjects of NATS: a start message goes
-- to one member of the queue group, a stop message to all of them.
use livelook_sfu.Common.{
  ℕ, zero, suc, ◌<◌, ◌≡◌, refl, ap, ◌∙◌, Bool, true, false, Option, none, some, List, [], ◌∷◌, snoc,
  length, All, nat_eq, nat_beq_iff, string_eq, string_beq_iff, Outcome, arith, lookup,
  lookup-delete, ok,
}
use livelook_sfu.Eventbus.Rpc.{UserSessionId}
use livelook_sfu.Transcode.{
  Message, Daemon, StartReplies, StopReplies, handle_start_transcoder_message,
  handle_stop_transcoder_message, found_pid, without,
}
use livelook_sfu.Transcode.Laws.{
  starts_as, stops, started, runs, runs-without, stop_known, start_records,
}

-- A message of one of the two subjects; `start_delivered` has the position of the daemon that NATS
-- has chosen, and `stop_delivered` how the operating system of each daemon answers.
pub data Delivery : Type 0 where
  start_delivered : ℕ → StartReplies → Outcome Message → Delivery
  stop_delivered : (ℕ → StopReplies) → Outcome Message → Delivery

abbrev pub start_at : ℕ → StartReplies → Outcome Message → List Daemon → List Daemon
start_at i replies m [] = []
start_at zero replies m (d ∷ ds) = (handle_start_transcoder_message replies m d).1 ∷ ds
start_at (suc i) replies m (d ∷ ds) = d ∷ start_at i replies m ds

abbrev pub stop_all : (ℕ → StopReplies) → Outcome Message → List Daemon → List Daemon
stop_all replies m [] = []
stop_all replies m (d ∷ ds) =
    (handle_stop_transcoder_message (replies 0) m d).1 ∷ stop_all (λ i. replies (suc i)) m ds

abbrev pub deliver : Delivery → List Daemon → List Daemon
deliver (start_delivered i replies m) ds = start_at i replies m ds
deliver (stop_delivered replies m) ds = stop_all replies m ds

unfoldable pub deliver_all : List Delivery → List Daemon → List Daemon
deliver_all [] ds = ds
deliver_all (x ∷ rest) ds = deliver_all rest (deliver x ds)

-- Whether the process with a PID runs at a daemon.
unfoldable pub process_runs : ℕ → ℕ → List Daemon → Bool
process_runs i pid [] = false
process_runs zero pid (d ∷ ds) = runs pid d.running
process_runs (suc i) pid (d ∷ ds) = process_runs i pid ds

-- No daemon has recorded a process of the user.
abbrev pub Forgotten : UserSessionId → List Daemon → Type 0
Forgotten user = All (λ (d : Daemon). lookup user d.transcoder_pids ≡ none)

pub length-start_at :
    (i : ℕ) (replies : StartReplies) (m : Outcome Message) (ds : List Daemon)
    → length (start_at i replies m ds) ≡ length ds
length-start_at i replies m [] = refl
length-start_at zero replies m (d ∷ ds) = refl
length-start_at (suc i) replies m (d ∷ ds) = ap suc (length-start_at i replies m ds)

length-stop_all :
    (replies : ℕ → StopReplies) (m : Outcome Message) (ds : List Daemon)
    → length (stop_all replies m ds) ≡ length ds
length-stop_all replies m [] = refl
length-stop_all replies m (d ∷ ds) = ap suc (length-stop_all (λ i. replies (suc i)) m ds)

length-deliver : (x : Delivery) (ds : List Daemon) → length (deliver x ds) ≡ length ds
length-deliver (start_delivered i replies m) ds = length-start_at i replies m ds
length-deliver (stop_delivered replies m) ds = length-stop_all replies m ds

pub length-deliver_all :
    (xs : List Delivery) (ds : List Daemon) → length (deliver_all xs ds) ≡ length ds
unfolding deliver_all
length-deliver_all [] ds = refl
length-deliver_all (x ∷ xs) ds = length-deliver_all xs (deliver x ds) ∙ length-deliver x ds

pub deliver_all-snoc :
    (xs : List Delivery) (x : Delivery) (ds : List Daemon)
    → deliver_all (snoc xs x) ds ≡ deliver x (deliver_all xs ds)
unfolding deliver_all
deliver_all-snoc [] x ds = refl
deliver_all-snoc (y ∷ xs) x ds = deliver_all-snoc xs x (deliver y ds)

-- A start message begins its process at the daemon that was chosen.
pub start_at-runs :
    (i pid : ℕ) (m : Message) (ds : List Daemon)
    → i < length ds
    → process_runs i pid (start_at i (starts_as pid) (ok m) ds) ≡ true
unfolding process_runs handle_start_transcoder_message runs
start_at-runs i pid m [] h = ground arith
start_at-runs zero pid m (d ∷ ds) h = ground (arith, nat_beq_iff pid pid)
start_at-runs (suc i) pid m (d ∷ ds) h = start_at-runs i pid m ds (omega arith)

-- A stop message for its user ends it there.
pub stop_all-ends :
    (i pid : ℕ) (m stop : Message) (ds : List Daemon)
    → stop.receiver ≡ m.receiver
    → process_runs i pid (stop_all (λ j. stops) (ok stop) (start_at i (starts_as pid) (ok m) ds))
      ≡ false
unfolding process_runs
stop_all-ends i pid m stop [] same = refl
stop_all-ends zero pid m stop (d ∷ ds) same =
    let d' = started pid m d in
    let known : lookup stop.receiver d'.transcoder_pids ≡ some pid =
      ap (λ u. lookup u d'.transcoder_pids) same ∙ start_records pid m d in
    ap (λ r. runs pid r.1.running) (stop_known stop pid d' known)
    ∙ runs-without pid pid d'.running
    ∙ ground (arith, nat_beq_iff pid pid)
stop_all-ends (suc i) pid m stop (d ∷ ds) same = stop_all-ends i pid m stop ds same

found_pid-forgets :
    (user : UserSessionId) (d : Daemon) (known : Option ℕ)
    → lookup user d.transcoder_pids ≡ known
    → lookup user (found_pid stops user known d).1.transcoder_pids ≡ none
unfolding without
found_pid-forgets user d none h = h
found_pid-forgets user d (some pid) h =
    ground (arith, lookup-delete user user d.transcoder_pids, string_beq_iff user user)

-- A stop message reaches every daemon.
pub stop_all-Forgotten :
    (stop : Message) (ds : List Daemon)
    → Forgotten stop.receiver (stop_all (λ j. stops) (ok stop) ds)
unfolding handle_stop_transcoder_message
stop_all-Forgotten stop [] = tt
stop_all-Forgotten stop (d ∷ ds) = (
  found_pid-forgets stop.receiver d (lookup stop.receiver d.transcoder_pids) refl,
  stop_all-Forgotten stop ds,
)
