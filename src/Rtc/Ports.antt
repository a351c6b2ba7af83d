-- ===== src/Rtc/Ports.antt =====
-- internal/rtc/ports_allocator.go: the UDP ports that are handed to the transcoder.
-- `range` visits the keys of a Go map in an order of its own: `allocate` is given that order.
pub mod Laws
use livelook_sfu.Common.{
  ℕ, zero, suc, ◌+◌, ◌-◌, Bool, true, false, Option, none, some, List, [], ◌∷◌, lookup, insert,
  nat_eq, Outcome, ok, err, no_free_ports,
}

-- `udpPorts`: true for a port that is taken.
pub record PortsAllocator : Type 0 where
  pub udp_ports : List (ℕ × Bool)

-- The loop `for i := rangeStart; i < rangeEnd; i++`, over the rounds that are left.
unfoldable pub seed_ports : ℕ → ℕ → List (ℕ × Bool) → List (ℕ × Bool)
seed_ports zero i m = m
seed_ports (suc rounds) i m = seed_ports rounds (i + 1) (insert i false m)

unfoldable pub new_ports_allocator : ℕ → ℕ → PortsAllocator
unfolding seed_ports
new_ports_allocator range_start range_end = record {
  udp_ports = seed_ports (range_end - range_start) range_start [];
}

unfoldable pub allocate : List ℕ → PortsAllocator → Outcome ℕ × PortsAllocator
allocate [] p = (err no_free_ports, p)
allocate (port ∷ rest) p = elim (lookup port p.udp_ports) [
  | some false ↦ (ok port, record p { udp_ports = insert port true p.udp_ports })
  | _ ↦ allocate rest p
]

unfoldable pub deallocate : ℕ → PortsAllocator → PortsAllocator
deallocate port p = record p { udp_ports = insert port false p.udp_ports }
