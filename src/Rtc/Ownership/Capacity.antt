-- ===== src/Rtc/Ownership/Capacity.antt =====
-- How many ports the participants of internal/rtc/participant.go can hold together.
use livelook_sfu.Common.{
  ℕ, zero, suc, ◌+◌, ◌≤◌, ◌<◌, ◌≡◌, ◌==◌, nat_eq, nat_beq_iff, if◌then◌else◌, List, [], ◌∷◌, length,
  Bool-cases, inl, inr, arith,
}
use livelook_sfu.Rtc.Node.{Participant}
use livelook_sfu.Rtc.Participant.Methods.{ports_of}
use livelook_sfu.Rtc.Ownership.{count_port, holders}

-- f s + … + f (s + n - 1)
sum_range : (ℕ → ℕ) → ℕ → ℕ → ℕ
sum_range f s zero = 0
sum_range f s (suc n) = f s + sum_range f (s + 1) n

sum_range-add :
    (f g : ℕ → ℕ) (s n : ℕ) → sum_range (λ q. f q + g q) s n ≡ sum_range f s n + sum_range g s n
unfolding sum_range
sum_range-add f g s zero = omega arith
sum_range-add f g s (suc n) = omega (arith, sum_range-add f g (s + 1) n)

sum_range-le : (f : ℕ → ℕ) (s n : ℕ) → ((q : ℕ) → f q ≤ 1) → sum_range f s n ≤ n
unfolding sum_range
sum_range-le f s zero h = omega arith
sum_range-le f s (suc n) h = omega (arith, h s, sum_range-le f (s + 1) n h)

-- A port of the range counts.
sum_range-port :
    (port s n : ℕ) → s ≤ port → port < s + n → 1 ≤ sum_range (λ q. if port == q then 1 else 0) s n
unfolding sum_range
sum_range-port port s zero low high = absurd (omega arith)
sum_range-port port s (suc n) low high = elim (Bool-cases (port == s)) [
  | inl e ↦ rw e (omega arith)
  | inr e ↦ rw e (
      omega
        (arith, sum_range-port port (s + 1) n (ground (arith, nat_beq_iff port s)) (omega arith)))
]

abbrev Within : ℕ → ℕ → (ℕ → ℕ) → Type 0
Within s n f = (q : ℕ) → 0 < f q → (s ≤ q) × (q < s + n)

length-le-sum :
    (m : List (ℕ × ℕ)) (s n : ℕ)
    → Within s n (λ q. count_port q m)
    → length m ≤ sum_range (λ q. count_port q m) s n
unfolding count_port
length-le-sum [] s n h = omega arith
length-le-sum ((t, port) ∷ m) s n h =
    let own = h port (ground (arith, nat_beq_iff port port)) in
    omega (
      arith,
      sum_range-add (λ q. if port == q then 1 else 0) (λ q. count_port q m) s n,
      sum_range-port port s n own.0 own.1,
      length-le-sum m s n (λ q pos. h q (omega arith)),
    )

module _ {Peer : Type 0} where
  pub total_held : List (Participant Peer) → ℕ
  total_held [] = 0
  total_held (p ∷ ps) = length (ports_of p.allocated_ports) + total_held ps

  total-le-sum :
      (ps : List (Participant Peer)) (s n : ℕ)
      → Within s n (λ q. holders q ps)
      → total_held ps ≤ sum_range (λ q. holders q ps) s n
  unfolding total_held holders
  total-le-sum [] s n h = omega arith
  total-le-sum (p ∷ ps) s n h = omega (
    arith,
    sum_range-add (λ q. count_port q (ports_of p.allocated_ports)) (λ q. holders q ps) s n,
    length-le-sum (ports_of p.allocated_ports) s n (λ q pos. h q (omega arith)),
    total-le-sum ps s n (λ q pos. h q (omega arith)),
  )

  -- Where all held ports lie in a range of n, and each is held once, they are n at most.
  pub total_held-le :
      (ps : List (Participant Peer)) (s n : ℕ)
      → Within s n (λ q. holders q ps)
      → ((q : ℕ) → holders q ps ≤ 1)
      → total_held ps ≤ n
  total_held-le ps s n within once =
      omega (arith, total-le-sum ps s n within, sum_range-le (λ q. holders q ps) s n once)
