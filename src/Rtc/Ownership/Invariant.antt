-- ===== src/Rtc/Ownership/Invariant.antt =====
-- No port is held twice: what every method of internal/rtc/participant.go keeps.
use livelook_sfu.Common.{
  ℕ, ◌+◌, ◌≤◌, ◌<◌, ◌≡◌, refl, ap, ◌∙◌, Bool, true, Option, none, some, List, [], ◌∷◌, arith,
  get_elem?, set, All, All-set, All-get, nat_eq, string_eq, Outcome, ok, err, panic, Error,
  nat_beq_iff,
}
use livelook_sfu.Rtc.Ports.{PortsAllocator, deallocate}
use livelook_sfu.Rtc.Ports.Laws.{taken, known, known-deallocate, taken-le_one, known_of-taken}
use livelook_sfu.Rtc.Transport.{PeerApi}
use livelook_sfu.Rtc.Node.{Participant, Node}
use livelook_sfu.Rtc.Participant.Methods.{
  put, ports_of, deallocate_all, closed_participant, closed_node, once_closed, close_tracks,
  tracks_of, close_participant,
}
use livelook_sfu.Rtc.Ownership.{count_port, holders, holders-set, taken-deallocate_all}

-- Every port is held at most once, and only while it is taken; the range stays as it was; and no
-- participant has a subscriber transport.
pub record NodeInv {Peer : Type 0} (range : ℕ → Bool) (node : Node Peer) : Type 0 where
  pub exclusive : (q : ℕ) → holders q node.participants ≤ taken q node.ports
  pub in_range : (q : ℕ) → known q node.ports ≡ range q
  pub no_subscriber : All (λ (p : Participant Peer). p.subscriber ≡ none) node.participants

-- Giving back ports of the range takes none out of it.
known-deallocate_all :
    (q : ℕ) (m : List (ℕ × ℕ)) (ports : PortsAllocator)
    → ((x : ℕ) → 0 < count_port x m → known x ports ≡ true)
    → known q (deallocate_all m ports) ≡ known q ports
unfolding deallocate_all count_port
known-deallocate_all q [] ports h = refl
known-deallocate_all q ((t, port) ∷ m) ports h =
    known-deallocate_all q m (deallocate port ports)
      (λ x pos. ground (arith, known-deallocate ports port x, h x))
    ∙ ground (arith, known-deallocate ports port q, nat_beq_iff port q, h q)

module _ {Peer : Type 0} (range : ℕ → Bool) where
  -- A participant may change in all but its ports and its subscriber.
  pub put-NodeInv :
      (at : ℕ) (p p' : Participant Peer) (node : Node Peer)
      → get_elem? node.participants at ≡ some p
      → p'.allocated_ports ≡ p.allocated_ports
      → p'.subscriber ≡ p.subscriber
      → NodeInv range node
      → NodeInv range (put at p' node)
  put-NodeInv at p p' node there same none_too v = record {
    exclusive = λ q. omega (
      arith,
      v.exclusive q,
      holders-set q node.participants at p p' there,
      ap (λ m. count_port q (ports_of m)) same,
    );
    in_range = v.in_range;
    no_subscriber =
        All-set _ node.participants at p' v.no_subscriber
          (none_too ∙ All-get _ node.participants at v.no_subscriber there);
  }

  closed_node-NodeInv :
      (api : PeerApi Peer) (reply : Option Error) (at : ℕ) (p : Participant Peer) (node : Node Peer)
      → get_elem? node.participants at ≡ some p
      → NodeInv range node
      → NodeInv range (closed_node api reply at p node)
  unfolding deallocate_all count_port
  closed_node-NodeInv api reply at p node there v = record {
    exclusive = λ q. ground (
      arith,
      v.exclusive q,
      taken-le_one q node.ports,
      moved q,
      taken-deallocate_all q (ports_of p.allocated_ports) node.ports,
    );
    in_range = λ q.
        known-deallocate_all q (ports_of p.allocated_ports) node.ports
          (λ x pos. known_of-taken x node.ports (omega (arith, v.exclusive x, moved x)))
        ∙ v.in_range q;
    no_subscriber =
        All-set _ node.participants at (closed_participant api p) v.no_subscriber
          (All-get _ node.participants at v.no_subscriber there);
  }
    where
      moved :
          (q : ℕ)
          → holders q (set node.participants at (closed_participant api p))
              + count_port q (ports_of p.allocated_ports)
            ≡ holders q node.participants + 0
      moved q = holders-set q node.participants at p (closed_participant api p) there

  once_closed-NodeInv :
      (api : PeerApi Peer) (reply : Option Error) (at : ℕ) (p : Participant Peer)
      (r : Outcome (Unit {0})) (node : Node Peer)
      → get_elem? node.participants at ≡ some p
      → NodeInv range node
      → NodeInv range (once_closed api reply at p r node).1
  once_closed-NodeInv api reply at p (ok _) node there v =
      closed_node-NodeInv api reply at p node there v
  once_closed-NodeInv api reply at p (err e) node there v = v
  once_closed-NodeInv api reply at p panic node there v = v

  pub close_participant-NodeInv :
      (api : PeerApi Peer) (reply : Option Error) (at : ℕ) (p : Participant Peer) (node : Node Peer)
      → get_elem? node.participants at ≡ some p
      → NodeInv range node
      → NodeInv range (close_participant api reply at p node).1
  unfolding close_participant
  close_participant-NodeInv api reply at p node there v =
      once_closed-NodeInv api reply at p (close_tracks (tracks_of p.published_tracks)) node there v
