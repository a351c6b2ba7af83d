-- ===== src/Tests/Commands.antt =====
-- A server that is told to end while it serves.
use livelook_sfu.Common.{◌≡◌, refl, true, false, none, some, ◌∷◌, []}
use livelook_sfu.Commands.Return.{Returns, can_return}
use livelook_sfu.Commands.{
  Server, returned, closing, awaiting_router, told_to_stop, stopped, done_closed, server_services,
  started, Reach, here, next, signal, shutdown, close_next, send_stop, close_stopped,
  router_awaited, close_done, main_returns, sfu_router, redis_link, db_link, sessions_manager,
}
use livelook_sfu.Commands.Shutdown.{returned_closed}

abbrev ended : Server
ended = record {
  signalled = true;
  listening = false;
  callback = done_closed;
  router_loop = stopped;
  closed = server_services;
  exit = some returned;
}

-- A server that has been told to end and has closed two of its services.
abbrev half_closed : Server
half_closed = record {
  signalled = true;
  listening = false;
  callback = closing (redis_link ∷ db_link ∷ []);
  router_loop = stopped;
  closed = sessions_manager ∷ sfu_router ∷ [];
  exit = none;
}

-- From the signal to the stop of the router.
stops_router : Reach server_services started (record started {
  signalled = true;
  listening = false;
  callback = awaiting_router (redis_link ∷ db_link ∷ []);
  router_loop = told_to_stop;
  closed = sessions_manager ∷ [];
})
stops_router =
    next
      (next (next (next here (signal started refl)) (shutdown _ refl refl refl))
        (close_next _ sessions_manager (sfu_router ∷ redis_link ∷ db_link ∷ []) refl refl refl))
      (send_stop _ (redis_link ∷ db_link ∷ []) refl refl refl)

closes_half : Reach server_services started half_closed
closes_half =
    next (next stops_router (close_stopped _ refl refl))
      (router_awaited _ (redis_link ∷ db_link ∷ []) refl refl refl)

ends : Reach server_services started ended
ends =
    next
      (next
        (next (next closes_half (close_next _ redis_link (db_link ∷ []) refl refl refl))
          (close_next _ db_link [] refl refl refl))
        (close_done _ refl refl))
      (main_returns _ refl refl refl)

returned_closed_example : ended.closed ≡ server_services
returned_closed_example = returned_closed server_services ended ends refl

-- The same server while the router has been told to stop.
can_return_example : Returns server_services (record half_closed {
  callback = awaiting_router (redis_link ∷ db_link ∷ []);
  router_loop = told_to_stop;
  closed = sessions_manager ∷ [];
})
can_return_example =
    can_return server_services _
      ((λ h. cc), ((λ h. (refl, (refl, tt))), ((λ h. cc), ((λ h. cc), tt)))) stops_router refl
