-- ===== src/Tests/Rtc.antt =====
-- Ports, candidates and codecs at concrete inputs.
use livelook_sfu.Common.{
  ℕ, ◌≡◌, refl, map, ◌++◌, false, none, List, [], ◌∷◌, lookup, insert, ok, err, ◌⊎◌, nat_eq,
  no_free_ports,
}
use livelook_sfu.Rtc.Ports.{PortsAllocator, allocate, deallocate, new_ports_allocator}
use livelook_sfu.Rtc.Ports.Laws.{taken, NoneFree, allocate_cases, taken-allocate, taken-deallocate}
use livelook_sfu.Rtc.Transport.{PcTransport, flush_candidates}
use livelook_sfu.Rtc.Transport.Laws.{
  candidate, description, handle_signals, feed, candidates_delivered,
}
use livelook_sfu.Tests.Fixtures.{FakePeer, fresh_peer, fake_peers, fake-PeerLaws, ice, offer}

abbrev three_ports : PortsAllocator
three_ports = new_ports_allocator 4000 4003

abbrev visits : List ℕ
visits = 4001 ∷ 4000 ∷ 4002 ∷ []

allocate_cases_example :
    ((port : ℕ) × ((allocate visits three_ports).0 ≡ ok port))
    ⊎ ((allocate visits three_ports ≡ (err no_free_ports, three_ports))
        × NoneFree visits three_ports)
allocate_cases_example = allocate_cases visits three_ports

allocates_4001 : (allocate visits three_ports).0 ≡ ok 4001
unfolding allocate new_ports_allocator lookup insert
allocates_4001 = refl

taken-allocate_example :
    (taken 4001 three_ports ≡ 0)
    × (taken 4000 (allocate visits three_ports).1 ≡ taken 4000 three_ports)
taken-allocate_example = taken-allocate visits three_ports 4001 4000 allocates_4001

taken-deallocate_example : taken 4001 (deallocate 4001 (allocate visits three_ports).1) ≡ 0
taken-deallocate_example = taken-deallocate (allocate visits three_ports).1 4001 4001

abbrev new_transport : PcTransport FakePeer
new_transport = record { pc = fresh_peer; stream_allocator = false; pending_candidates = [] }

flushes :
    (flush_candidates fake_peers
      (ice "a" ∷ ice "b" ∷ [])
      (fake_peers.set_remote_description fresh_peer offer).1).0
    ≡ none
unfolding flush_candidates
flushes = refl

candidates_delivered_example :
    handle_signals fake_peers new_transport
      (map candidate (ice "a" ∷ ice "b" ∷ []) ++ description offer ∷ map candidate (ice "c" ∷ []))
    ≡ record new_transport {
      pc =
          feed fake_peers
            (fake_peers.set_remote_description fresh_peer offer).1
            ((ice "a" ∷ ice "b" ∷ []) ++ ice "c" ∷ []);
      pending_candidates = [];
    }
candidates_delivered_example =
    candidates_delivered fake_peers fake-PeerLaws new_transport offer (ice "a" ∷ ice "b" ∷ [])
      (ice "c" ∷ []) refl refl refl flushes
