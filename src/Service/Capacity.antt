-- ===== src/Service/Capacity.antt =====
-- How many ports the server of internal/service/sessions_manager.go can hand out.
use livelook_sfu.Common.{ℕ, ◌-◌, ◌≤◌, ◌<◌, List, arith}
use livelook_sfu.Config.{TranscoderConfig}
use livelook_sfu.Rtc.Node.{Participant}
use livelook_sfu.Core.Sessions.{SessionsTable}
use livelook_sfu.Rtc.Ownership.{holders}
use livelook_sfu.Rtc.Ownership.Capacity.{total_held, total_held-le}
use livelook_sfu.Service.{Setup, new_sessions_manager}
use livelook_sfu.Service.Events.{Event, run}
use livelook_sfu.Service.Invariant.{ports_exclusive}

module _ {Engine Peer : Type 0} (setup : Setup Engine Peer) where
  -- After any messages and callbacks every port that a participant holds lies in the configured range,
  -- from its start to below its end, and all participants together hold no more ports than it has.
  pub held_ports_bounds :
      (es : List (Event Engine Peer)) (table : SessionsTable)
      → let ps = (run setup es (new_sessions_manager setup table)).node.participants in
        let range = setup.config.rtc.transcoder in
        ((q : ℕ) → 0 < holders q ps → (range.port_start ≤ q) × (q < range.port_end))
        × (total_held ps ≤ range.port_end - range.port_start)
  held_ports_bounds es table = (
    within,
    total_held-le ps range.port_start (range.port_end - range.port_start)
        (λ q pos. let b = within q pos in (b.0, omega arith)) once,
  )
    where
      range : TranscoderConfig
      range = setup.config.rtc.transcoder

      ps : List (Participant Peer)
      ps = (run setup es (new_sessions_manager setup table)).node.participants

      once : (q : ℕ) → holders q ps ≤ 1
      once q = ground (arith, ports_exclusive setup es table q)

      within : (q : ℕ) → 0 < holders q ps → (range.port_start ≤ q) × (q < range.port_end)
      within q pos = ground (arith, ports_exclusive setup es table q)
