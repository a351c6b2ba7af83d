-- ===== src/Tests/Capacity.antt =====
-- The ports of a server with three of them, after two joins and a failure.
use livelook_sfu.Common.{ℕ, ◌-◌, ◌≤◌, ◌<◌}
use livelook_sfu.Rtc.Ownership.{holders}
use livelook_sfu.Rtc.Ownership.Capacity.{total_held}
use livelook_sfu.Service.{new_sessions_manager}
use livelook_sfu.Service.Events.{run}
use livelook_sfu.Service.Capacity.{held_ports_bounds}
use livelook_sfu.Tests.Fixtures.{setup, empty_table}
use livelook_sfu.Tests.Service.{two_sessions}

held_ports_bounds_example :
    let ps = (run setup two_sessions (new_sessions_manager setup empty_table)).node.participants in
    ((q : ℕ) → 0 < holders q ps → (4000 ≤ q) × (q < 4003)) × (total_held ps ≤ 4003 - 4000)
held_ports_bounds_example = held_ports_bounds setup two_sessions empty_table
