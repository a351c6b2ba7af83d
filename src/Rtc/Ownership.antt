-- ===== src/Rtc/Ownership.antt =====
-- Which participant holds which port of internal/rtc/ports_allocator.go.
pub mod Drafts
pub mod Creation
pub mod Methods
pub mod Rooms
pub mod Invariant
pub mod Capacity
use livelook_sfu.Common.{
  ℕ, zero, suc, ◌+◌, ◌≤◌, ◌<◌, ◌≡◌, refl, ap, ◌∙◌, Bool, true, false, ◌&&◌, Option, none, some,
  List, [], ◌∷◌, ◌++◌, arith, get_elem?, set, insert, ◌==◌, nat_eq, if◌then◌else◌, leb, ltb, All,
  Bool-cases, ◌⊎◌, inl, inr, Outcome, ok, err, panic, nat_beq, nat_beq_iff,
}
use livelook_sfu.Rtc.Ports.{PortsAllocator, allocate, deallocate}
use livelook_sfu.Rtc.Ports.Laws.{
  taken, known, allocate_cases, taken-allocate, taken-deallocate, known-allocate, known-deallocate,
  taken-le_one, known_of-taken,
}
use livelook_sfu.Rtc.Node.{Participant, Node}
use livelook_sfu.Rtc.MediaEngine.{CodecParameters}
use livelook_sfu.Config.{CodecType}
use livelook_sfu.Rtc.Participant.{Draft, allocate_codec, allocate_codecs, record_port}
use livelook_sfu.Rtc.Participant.Methods.{deallocate_all, ports_of}

-- How often a port stands in an `allocatedPorts`.
unfoldable pub count_port : ℕ → List (ℕ × ℕ) → ℕ
count_port q [] = 0
count_port q ((payload_type, port) ∷ m) = (if port == q then 1 else 0) + count_port q m

-- How often it is held, over all participants.
unfoldable pub holders : {Peer : Type 0} → ℕ → List (Participant Peer) → ℕ
unfolding count_port
holders q [] = 0
holders q (p ∷ ps) = count_port q (ports_of p.allocated_ports) + holders q ps

count_port-insert :
    (q payload_type port : ℕ) (m : List (ℕ × ℕ))
    → count_port q (insert payload_type port m) ≤ (if port == q then 1 else 0) + count_port q m
unfolding count_port insert
count_port-insert q payload_type port [] = omega arith
count_port-insert q payload_type port ((t, x) ∷ m) =
    ground (arith, count_port-insert q payload_type port m)

abbrev count_some : {Peer : Type 0} → ℕ → Option (Participant Peer) → ℕ
count_some q none = 0
count_some q (some p) = count_port q (ports_of p.allocated_ports)

module _ {Peer : Type 0} where
  pub holders-append :
      (q : ℕ) (xs ys : List (Participant Peer)) → holders q (xs ++ ys) ≡ holders q xs + holders q ys
  unfolding holders
  holders-append q [] ys = omega arith
  holders-append q (x ∷ xs) ys = omega (arith, holders-append q xs ys)

  pub holders-set :
      (q : ℕ) (ps : List (Participant Peer)) (at : ℕ) (p p' : Participant Peer)
      → get_elem? ps at ≡ some p
      → holders q (set ps at p') + count_port q (ports_of p.allocated_ports)
        ≡ holders q ps + count_port q (ports_of p'.allocated_ports)
  unfolding holders
  holders-set q [] at p p' h = cc
  holders-set q (x ∷ ps) zero p p' h =
      omega (arith, ap (λ (o : Option (Participant Peer)). count_some q o) h)
  holders-set q (x ∷ ps) (suc at) p p' h = omega (arith, holders-set q ps at p p' h)

module _ {Peer : Type 0} where
  pub count_port-le-holders :
      (q : ℕ) (ps : List (Participant Peer)) (at : ℕ) (p : Participant Peer)
      → get_elem? ps at ≡ some p
      → count_port q (ports_of p.allocated_ports) ≤ holders q ps
  unfolding holders
  count_port-le-holders q [] at p h = cc
  count_port-le-holders q (x ∷ ps) zero p h =
      omega (arith, ap (λ (o : Option (Participant Peer)). count_some q o) h)
  count_port-le-holders q (x ∷ ps) (suc at) p h = omega (arith, count_port-le-holders q ps at p h)

-- A port that is given back is free; the others are as they were.
pub taken-deallocate_all :
    (q : ℕ) (m : List (ℕ × ℕ)) (ports : PortsAllocator)
    → ((count_port q m ≡ 0) × (taken q (deallocate_all m ports) ≡ taken q ports))
      ⊎ ((0 < count_port q m) × (taken q (deallocate_all m ports) ≡ 0))
unfolding count_port deallocate_all
taken-deallocate_all q [] ports = inl (refl, refl)
taken-deallocate_all q ((t, port) ∷ m) ports =
    ground (arith, taken-deallocate_all q m (deallocate port ports), taken-deallocate ports port q)
