-- ===== src/Commands/Return.antt =====
-- That the servers of cmd/server/main.go and internal/ws/app.go can end without an error.
use livelook_sfu.Common.{
  ◌≡◌, refl, subst, ◌⊎◌, inl, inr, true, false, none, some, List, [], ◌∷◌, All,
}
use livelook_sfu.Commands.{
  Service, sessions_manager, sfu_router, redis_link, db_link, is_router, RouterLoop, in_select,
  in_handler, told_to_stop, stopped, Callback, not_called, closing, awaiting_router, done_closed,
  returned, Server, started, Step, signal, shutdown, close_next, message, handled, send_stop,
  close_stopped, router_awaited, close_done, grace_over, listen_failed, main_returns, Reach, here,
  next,
}
use livelook_sfu.Commands.Shutdown.{ListeningFits, started-IsSound, Reach-IsSound}

-- A server from which one that has returned can be reached.
abbrev pub Returns : List Service → Server → Type 0
Returns services s = (t : Server) × Reach services s t × (t.exit ≡ some returned)

Reach-trans :
    {services : List Service} {s t u : Server}
    → Reach services s t
    → Reach services t u
    → Reach services s u
Reach-trans r here = r
Reach-trans r (next q st) = next (Reach-trans r q) st

Step-Returns :
    {services : List Service} {s t : Server}
    → Step services s t
    → Returns services t
    → Returns services s
Step-Returns st (u, r, e) = (u, Reach-trans (next here st) r, e)

done-Returns :
    (services : List Service) (s : Server)
    → s.exit ≡ none
    → s.listening ≡ false
    → s.callback ≡ done_closed
    → Returns services s
done-Returns services s runs down at = Step-Returns (main_returns s runs down at) (_, here, refl)

-- No service of the list is the router; it is there once at most.
abbrev pub NoRouter : List Service → Type 0
NoRouter = All (λ x. is_router x ≡ false)

abbrev pub OneRouter : List Service → Type 0
OneRouter [] = Unit {0}
OneRouter (x ∷ rest) = ((is_router x ≡ true) → NoRouter rest) × OneRouter rest

abbrev pub Live : RouterLoop → Type 0
Live in_select = Unit {0}
Live in_handler = Unit {0}
Live told_to_stop = ⊥
Live stopped = ⊥

abbrev Ending : RouterLoop → Type 0
Ending told_to_stop = Unit {0}
Ending stopped = Unit {0}
Ending in_select = ⊥
Ending in_handler = ⊥

-- The router serves until the callback has stopped it, and after that no service that is left to close
-- is the router.
abbrev RouterFits : List Service → RouterLoop → Callback → Type 0
RouterFits services router not_called = Live router × OneRouter services
RouterFits services router (closing rest) = (Live router × OneRouter rest) ⊎ NoRouter rest
RouterFits services router (awaiting_router rest) = Ending router × NoRouter rest
RouterFits services router done_closed = Unit {0}

moves_on :
    (services : List Service) (before after : RouterLoop) (c : Callback)
    → (Live before → Live after)
    → (Ending before → Ending after)
    → RouterFits services before c
    → RouterFits services after c
moves_on services before after not_called live ends (l, o) = (live l, o)
moves_on services before after (closing rest) live ends (inl (l, o)) = inl (live l, o)
moves_on services before after (closing rest) live ends (inr n) = inr n
moves_on services before after (awaiting_router rest) live ends (e, n) = (ends e, n)
moves_on services before after done_closed live ends f = tt

closed_one :
    (router : RouterLoop) (x : Service) (rest : List Service)
    → (Live router × OneRouter (x ∷ rest)) ⊎ NoRouter (x ∷ rest)
    → (Live router × OneRouter rest) ⊎ NoRouter rest
closed_one router x rest (inl (l, o)) = inl (l, o.1)
closed_one router x rest (inr n) = inr n.1

told_once :
    (router : RouterLoop) (rest : List Service)
    → (Live router × OneRouter (sfu_router ∷ rest)) ⊎ NoRouter (sfu_router ∷ rest)
    → NoRouter rest
told_once router rest (inl (l, o)) = o.0 refl
told_once router rest (inr n) = absurd (cc n.0)

Step-RouterFits :
    {services : List Service} {s t : Server}
    → Step services s t
    → RouterFits services s.router_loop s.callback
    → RouterFits services t.router_loop t.callback
Step-RouterFits (signal s runs) f = f
Step-RouterFits {services} (shutdown s runs told idle) f =
    inl (subst (λ c. RouterFits services s.router_loop c) idle f)
Step-RouterFits {services} (close_next s x rest runs plain at) f =
    closed_one s.router_loop x rest (subst (λ c. RouterFits services s.router_loop c) at f)
Step-RouterFits {services} (message s runs at) f =
    moves_on services s.router_loop in_handler s.callback (λ l. tt) (λ e. subst Ending at e) f
Step-RouterFits {services} (handled s runs at) f =
    moves_on services s.router_loop in_select s.callback (λ l. tt) (λ e. subst Ending at e) f
Step-RouterFits {services} (send_stop s rest runs at waits) f =
    (tt, told_once s.router_loop rest (subst (λ c. RouterFits services s.router_loop c) at f))
Step-RouterFits {services} (close_stopped s runs at) f =
    moves_on services s.router_loop stopped s.callback (λ l. subst Live at l) (λ e. tt) f
Step-RouterFits {services} (router_awaited s rest runs at ended) f =
    inr (subst (λ c. RouterFits services s.router_loop c) at f).1
Step-RouterFits (close_done s runs at) f = tt
Step-RouterFits (grace_over s runs down) f = f
Step-RouterFits (listen_failed s runs up) f = f
Step-RouterFits (main_returns s runs down at) f = f

Reach-RouterFits :
    {services : List Service} {s t : Server}
    → Reach services s t
    → RouterFits services s.router_loop s.callback
    → RouterFits services t.router_loop t.callback
Reach-RouterFits here f = f
Reach-RouterFits (next r st) f = Step-RouterFits st (Reach-RouterFits r f)

-- Closing services of which none is the router waits for nothing.
plain-Returns :
    (services rest : List Service) (s : Server)
    → s.exit ≡ none
    → s.listening ≡ false
    → s.callback ≡ closing rest
    → NoRouter rest
    → Returns services s
plain-Returns services [] s runs down at n =
    Step-Returns (close_done s runs at) (done-Returns services _ runs down refl)
plain-Returns services (x ∷ rest) s runs down at (plain, n) =
    Step-Returns (close_next s x rest runs plain at)
      (plain-Returns services rest _ runs down refl n)

-- The router closes `stopped`, and the callback goes on.
awaited-Returns :
    (services rest : List Service) (s : Server) (router : RouterLoop)
    → s.exit ≡ none
    → s.listening ≡ false
    → s.callback ≡ awaiting_router rest
    → s.router_loop ≡ router
    → Ending router
    → NoRouter rest
    → Returns services s
awaited-Returns services rest s stopped runs down at loop e n =
    Step-Returns (router_awaited s rest runs at loop)
      (plain-Returns services rest _ runs down refl n)
awaited-Returns services rest s told_to_stop runs down at loop e n =
    Step-Returns (close_stopped s runs loop) (
      Step-Returns (router_awaited _ rest runs at refl)
        (plain-Returns services rest _ runs down refl n))
awaited-Returns services rest s in_select runs down at loop e n = absurd e
awaited-Returns services rest s in_handler runs down at loop e n = absurd e

-- The router takes `stop` once it is back in its `select`.
told-Returns :
    (services rest : List Service) (s : Server) (router : RouterLoop)
    → s.exit ≡ none
    → s.listening ≡ false
    → s.callback ≡ closing (sfu_router ∷ rest)
    → s.router_loop ≡ router
    → Live router
    → NoRouter rest
    → Returns services s
told-Returns services rest s in_select runs down at loop l n =
    Step-Returns (send_stop s rest runs at loop)
      (awaited-Returns services rest _ told_to_stop runs down refl refl tt n)
told-Returns services rest s in_handler runs down at loop l n = Step-Returns (handled s runs loop) (
    Step-Returns (send_stop _ rest runs at refl)
      (awaited-Returns services rest _ told_to_stop runs down refl refl tt n))
told-Returns services rest s told_to_stop runs down at loop l n = absurd l
told-Returns services rest s stopped runs down at loop l n = absurd l

closing-Returns :
    (services rest : List Service) (s : Server)
    → s.exit ≡ none
    → s.listening ≡ false
    → s.callback ≡ closing rest
    → Live s.router_loop
    → OneRouter rest
    → Returns services s
closing-Returns services [] s runs down at l o = plain-Returns services [] s runs down at tt
closing-Returns services (sfu_router ∷ rest) s runs down at l o =
    told-Returns services rest s s.router_loop runs down at refl l (o.0 refl)
closing-Returns services (sessions_manager ∷ rest) s runs down at l o =
    Step-Returns (close_next s sessions_manager rest runs refl at)
      (closing-Returns services rest _ runs down refl l o.1)
closing-Returns services (redis_link ∷ rest) s runs down at l o =
    Step-Returns (close_next s redis_link rest runs refl at)
      (closing-Returns services rest _ runs down refl l o.1)
closing-Returns services (db_link ∷ rest) s runs down at l o =
    Step-Returns (close_next s db_link rest runs refl at)
      (closing-Returns services rest _ runs down refl l o.1)

callback-Returns :
    (services : List Service) (s : Server) (c : Callback)
    → s.exit ≡ none
    → s.callback ≡ c
    → ListeningFits s.listening c
    → RouterFits services s.router_loop c
    → Returns services s
callback-Returns services s not_called runs at down (l, o) = Step-Returns (signal s runs) (
    Step-Returns (shutdown _ runs refl at) (closing-Returns services services _ runs refl refl l o))
callback-Returns services s (closing rest) runs at down (inl (l, o)) =
    closing-Returns services rest s runs down at l o
callback-Returns services s (closing rest) runs at down (inr n) =
    plain-Returns services rest s runs down at n
callback-Returns services s (awaiting_router rest) runs at down (e, n) =
    awaited-Returns services rest s s.router_loop runs down at refl e n
callback-Returns services s done_closed runs at down f = done-Returns services s runs down at

-- The server never blocks for good: whatever its goroutines have done, as long as it has not exited it
-- can still return, where the router is one of its services once at most and a handler of the router
-- that runs can end. In particular the stop of the router, which waits for the loop twice, is taken up
-- wherever the loop stands.
pub can_return :
    (services : List Service) (s : Server)
    → OneRouter services
    → Reach services started s
    → s.exit ≡ none
    → Returns services s
can_return services s once r runs =
    let v = Reach-IsSound r (started-IsSound services) in
    callback-Returns services s s.callback runs refl v.open_until (Reach-RouterFits r (tt, once))
