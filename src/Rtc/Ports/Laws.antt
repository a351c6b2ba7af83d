-- ===== src/Rtc/Ports/Laws.antt =====
-- What a caller of the allocator can rely on.
use livelook_sfu.Common.{
  ℕ, zero, suc, ◌+◌, ◌-◌, ◌≤◌, ◌<◌, ◌≡◌, ◌≢◌, refl, ap, ◌∙◌, ◌⊎◌, inl, inr, Bool, true, false, ◌&&◌,
  Option, none, some, List, [], ◌∷◌, lookup, insert, has_key, has_key_of-lookup, ok, err,
  no_free_ports, lookup-insert, has_key-insert, arith, ◌==◌, nat_eq, nat_beq_iff, if◌then◌else◌,
  Bool-cases, leb, ltb,
}
use livelook_sfu.Rtc.Ports.{PortsAllocator, seed_ports, new_ports_allocator, allocate, deallocate}

-- 1 for a port that is taken, 0 for one that is free or unknown.
unfoldable pub taken : ℕ → PortsAllocator → ℕ
taken port p = elim (lookup port p.udp_ports) [ some true ↦ 1 | _ ↦ 0 ]

-- Whether a port is in the range.
unfoldable pub known : ℕ → PortsAllocator → Bool
known port p = has_key port p.udp_ports

-- How many entries are free.
unfoldable pub free_count : List (ℕ × Bool) → ℕ
free_count [] = 0
free_count ((port, true) ∷ m) = free_count m
free_count ((port, false) ∷ m) = suc (free_count m)

unfoldable pub contains : ℕ → List ℕ → Bool
contains port [] = false
contains port (x ∷ xs) = if x == port then true else contains port xs

-- What an allocation that succeeds has done.
pub allocate-ok :
    (order : List ℕ) (p : PortsAllocator) (port : ℕ)
    → (allocate order p).0 ≡ ok port
    → (lookup port p.udp_ports ≡ some false)
      × ((allocate order p).1 ≡ record p { udp_ports = insert port true p.udp_ports })
unfolding allocate
allocate-ok [] p port h = cc
allocate-ok (x ∷ order) p port h = ground (arith, allocate-ok order p port)

-- No port that the order visits is free.
abbrev pub NoneFree : List ℕ → PortsAllocator → Type 0
NoneFree order p = (port : ℕ) → contains port order ≡ true → lookup port p.udp_ports ≢ some false

NoneFree-cons :
    (x : ℕ) (order : List ℕ) (p : PortsAllocator)
    → lookup x p.udp_ports ≢ some false
    → NoneFree order p
    → NoneFree (x ∷ order) p
unfolding contains
NoneFree-cons x order p h all port c f = elim (Bool-cases (x == port)) [
  | inl s ↦ h (ap (λ t. lookup t p.udp_ports) ((nat_beq_iff x port).0 s) ∙ f)
  | inr s ↦ all port (rw s at c) f
]

allocate_miss :
    (x : ℕ) (order : List ℕ) (p : PortsAllocator)
    → lookup x p.udp_ports ≢ some false
    → allocate (x ∷ order) p ≡ allocate order p
unfolding allocate
allocate_miss x order p h = ground arith

allocate_hit :
    (x : ℕ) (order : List ℕ) (p : PortsAllocator)
    → lookup x p.udp_ports ≡ some false
    → (allocate (x ∷ order) p).0 ≡ ok x
unfolding allocate
allocate_hit x order p h = ground arith

dec_free : (o : Option Bool) → (o ≡ some false) ⊎ (o ≢ some false)
dec_free none = inr (λ e. cc)
dec_free (some false) = inl refl
dec_free (some true) = inr (λ e. cc)

-- An allocation succeeds, or no port that it visits is free, and then it fails and changes
-- nothing.
pub allocate_cases :
    (order : List ℕ) (p : PortsAllocator)
    → ((port : ℕ) × ((allocate order p).0 ≡ ok port))
      ⊎ ((allocate order p ≡ (err no_free_ports, p)) × NoneFree order p)
unfolding allocate contains
allocate_cases [] p = inr (refl, λ port c f. cc)
allocate_cases (x ∷ order) p = elim (dec_free (lookup x p.udp_ports)) [
  | inl free ↦ inl (x, allocate_hit x order p free)
  | inr not_free ↦ elim (allocate_cases order p) [
    | inl (port, h) ↦ inl (port, ap (λ r. r.0) (allocate_miss x order p not_free) ∙ h)
    | inr (h, all) ↦
        inr (allocate_miss x order p not_free ∙ h, NoneFree-cons x order p not_free all)
  ]
]

-- Allocating changes the port that it returns, which was free, and no other.
pub taken-allocate :
    (order : List ℕ) (p : PortsAllocator) (port q : ℕ)
    → (allocate order p).0 ≡ ok port
    → (taken port p ≡ 0) × (taken q (allocate order p).1 ≡ (if port == q then 1 else taken q p))
unfolding taken
taken-allocate order p port q h =
    let (free, after) = allocate-ok order p port h in
    (ground arith, ground (arith, lookup-insert port q true p.udp_ports))

pub taken-deallocate :
    (p : PortsAllocator) (port q : ℕ)
    → taken q (deallocate port p) ≡ (if port == q then 0 else taken q p)
unfolding taken deallocate
taken-deallocate p port q = ground (arith, lookup-insert port q false p.udp_ports)

-- Allocating adds no port to the range and takes none away.
pub known-allocate :
    (order : List ℕ) (p : PortsAllocator) (q : ℕ) → known q (allocate order p).1 ≡ known q p
unfolding known
known-allocate order p q = elim (allocate_cases order p) [
  | inl (port, h) ↦
      let (free, after) = allocate-ok order p port h in
      rw after (
        ground (
          arith,
          nat_beq_iff port q,
          has_key-insert port q true p.udp_ports,
          has_key_of-lookup port p.udp_ports free,
        ))
  | inr (h, _) ↦ ap (λ r. has_key q r.1.udp_ports) h
]

pub taken-le_one : (q : ℕ) (p : PortsAllocator) → taken q p ≤ 1
unfolding taken
taken-le_one q p = ground arith

pub known_of-taken : (q : ℕ) (p : PortsAllocator) → 0 < taken q p → known q p ≡ true
unfolding taken known has_key
known_of-taken q p h = ground arith

pub known-deallocate :
    (p : PortsAllocator) (port q : ℕ)
    → known q (deallocate port p) ≡ (if port == q then true else known q p)
unfolding known deallocate
known-deallocate p port q = has_key-insert port q false p.udp_ports

-- A fresh allocator holds exactly the ports from `range_start` up to and without `range_end`, and
-- all are free.
seed_ports-lookup :
    (rounds i q : ℕ) (m : List (ℕ × Bool))
    → lookup q (seed_ports rounds i m)
      ≡ (if leb i q && ltb q (i + rounds) then some false else lookup q m)
unfolding seed_ports
seed_ports-lookup zero i q m = ground arith
seed_ports-lookup (suc n) i q m =
    ground (arith, seed_ports-lookup n (i + 1) q (insert i false m), lookup-insert i q false m)

pub new_ports_allocator_lem :
    (first last q : ℕ)
    → lookup q (new_ports_allocator first last).udp_ports
      ≡ (if leb first q && ltb q last then some false else none)
unfolding new_ports_allocator lookup
new_ports_allocator_lem first last q = ground (arith, seed_ports-lookup (last - first) first q [])

pub known-new :
    (first last q : ℕ) → known q (new_ports_allocator first last) ≡ (leb first q && ltb q last)
unfolding known has_key
known-new first last q = ground (arith, new_ports_allocator_lem first last q)

pub taken-le-known : (q : ℕ) (p : PortsAllocator) → taken q p ≤ (if known q p then 1 else 0)
unfolding taken known has_key
taken-le-known q p = ground arith

NoneFree-tail :
    (x : ℕ) (order : List ℕ) (p : PortsAllocator) → NoneFree (x ∷ order) p → NoneFree order p
unfolding contains
NoneFree-tail x order p all port c f = all port (ground arith) f

-- Without a free port among those that it visits, an allocation fails.
pub allocate_fails :
    (order : List ℕ) (p : PortsAllocator)
    → NoneFree order p
    → allocate order p ≡ (err no_free_ports, p)
unfolding allocate contains
allocate_fails [] p all = refl
allocate_fails (x ∷ order) p all =
    allocate_miss x order p (λ f. all x (ground (arith, nat_beq_iff x x)) f)
    ∙ allocate_fails order p (NoneFree-tail x order p all)
