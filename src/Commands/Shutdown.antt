-- ===== src/Commands/Shutdown.antt =====
-- How the servers of cmd/server/main.go and internal/ws/app.go end.
use mathlib.Core.List.{append-nil, append_assoc}
use livelook_sfu.Common.{
  ◌≡◌, refl, sym, subst, ◌∙◌, Bool, true, false, Option, none, some, List, [], ◌∷◌, ◌++◌,
}
use livelook_sfu.Commands.{
  Service, sfu_router, Callback, not_called, closing, awaiting_router, done_closed, Exit, returned,
  fatal, Server, started, Step, signal, shutdown, close_next, message, handled, send_stop,
  close_stopped, router_awaited, close_done, grace_over, listen_failed, main_returns, Reach, here,
  next,
}

-- What the callback has still to close.
abbrev pub remaining : List Service → Callback → List Service
remaining services not_called = services
remaining services (closing rest) = rest
remaining services (awaiting_router rest) = sfu_router ∷ rest
remaining services done_closed = []

-- What is closed and what remains are the services, in their order; the process returns only once
-- nothing remains; the listener is open exactly until the callback is called.
abbrev pub ListeningFits : Bool → Callback → Type 0
ListeningFits listening not_called = listening ≡ true
ListeningFits listening (closing rest) = listening ≡ false
ListeningFits listening (awaiting_router rest) = listening ≡ false
ListeningFits listening done_closed = listening ≡ false

abbrev ExitFits : Option Exit → Callback → Type 0
ExitFits (some returned) c = c ≡ done_closed
ExitFits (some fatal) c = Unit {0}
ExitFits none c = Unit {0}

pub record IsSound (services : List Service) (s : Server) : Type 0 where
  in_order : s.closed ++ remaining services s.callback ≡ services
  pub open_until : ListeningFits s.listening s.callback
  exits_done : ExitFits s.exit s.callback

pub started-IsSound : (services : List Service) → IsSound services started
started-IsSound services = record { in_order = refl; open_until = refl; exits_done = tt }

Step-IsSound :
    {services : List Service} {s t : Server}
    → Step services s t
    → IsSound services s
    → IsSound services t
Step-IsSound (signal s runs) v = record {
  in_order = v.in_order;
  open_until = v.open_until;
  exits_done = v.exits_done;
}
Step-IsSound {services} (shutdown s runs told idle) v = record {
  in_order = subst (λ c. s.closed ++ remaining services c ≡ services) idle v.in_order;
  open_until = refl;
  exits_done = subst (λ e. ExitFits e (closing services)) (sym runs) tt;
}
Step-IsSound {services} (close_next s x rest runs plain at) v = record {
  in_order =
      append_assoc s.closed (x ∷ []) rest
      ∙ subst (λ c. s.closed ++ remaining services c ≡ services) at v.in_order;
  open_until = subst (λ c. ListeningFits s.listening c) at v.open_until;
  exits_done = subst (λ e. ExitFits e (closing rest)) (sym runs) tt;
}
Step-IsSound (message s runs at) v = record {
  in_order = v.in_order;
  open_until = v.open_until;
  exits_done = v.exits_done;
}
Step-IsSound (handled s runs at) v = record {
  in_order = v.in_order;
  open_until = v.open_until;
  exits_done = v.exits_done;
}
Step-IsSound {services} (send_stop s rest runs at waits) v = record {
  in_order = subst (λ c. s.closed ++ remaining services c ≡ services) at v.in_order;
  open_until = subst (λ c. ListeningFits s.listening c) at v.open_until;
  exits_done = subst (λ e. ExitFits e (awaiting_router rest)) (sym runs) tt;
}
Step-IsSound (close_stopped s runs at) v = record {
  in_order = v.in_order;
  open_until = v.open_until;
  exits_done = v.exits_done;
}
Step-IsSound {services} (router_awaited s rest runs at ended) v = record {
  in_order =
      append_assoc s.closed (sfu_router ∷ []) rest
      ∙ subst (λ c. s.closed ++ remaining services c ≡ services) at v.in_order;
  open_until = subst (λ c. ListeningFits s.listening c) at v.open_until;
  exits_done = subst (λ e. ExitFits e (closing rest)) (sym runs) tt;
}
Step-IsSound {services} (close_done s runs at) v = record {
  in_order = subst (λ c. s.closed ++ remaining services c ≡ services) at v.in_order;
  open_until = subst (λ c. ListeningFits s.listening c) at v.open_until;
  exits_done = subst (λ e. ExitFits e done_closed) (sym runs) tt;
}
Step-IsSound (grace_over s runs down) v = record {
  in_order = v.in_order;
  open_until = v.open_until;
  exits_done = tt;
}
Step-IsSound (listen_failed s runs up) v = record {
  in_order = v.in_order;
  open_until = v.open_until;
  exits_done = tt;
}
Step-IsSound (main_returns s runs down at) v = record {
  in_order = v.in_order;
  open_until = v.open_until;
  exits_done = at;
}

pub Reach-IsSound :
    {services : List Service} {s t : Server}
    → Reach services s t
    → IsSound services s
    → IsSound services t
Reach-IsSound here v = v
Reach-IsSound (next r st) v = Step-IsSound st (Reach-IsSound r v)

-- In whatever order the goroutines run, a server that returns has closed all its services, each once
-- and in the order of the callback.
pub returned_closed :
    (services : List Service) (s : Server)
    → Reach services started s
    → s.exit ≡ some returned
    → s.closed ≡ services
returned_closed services s r back =
    let v = Reach-IsSound r (started-IsSound services) in
    let done : s.callback ≡ done_closed = subst (λ e. ExitFits e s.callback) back v.exits_done in
    sym (append-nil s.closed)
    ∙ subst (λ c. s.closed ++ remaining services c ≡ services) done v.in_order
