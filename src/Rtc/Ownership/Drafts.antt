-- ===== src/Rtc/Ownership/Drafts.antt =====
-- The ports of internal/rtc/participant.go while `NewParticipant` allocates them.
use livelook_sfu.Common.{
  ℕ, ◌+◌, ◌≤◌, ◌≡◌, refl, ap, sym, subst, ◌∙◌, Bool, List, [], ◌∷◌, arith, ◌==◌, nat_eq,
  if◌then◌else◌, inl, inr, Outcome, ok, err, panic, nat_beq_iff,
}
use livelook_sfu.Config.{CodecType}
use livelook_sfu.Rtc.Ports.{PortsAllocator, allocate}
use livelook_sfu.Rtc.Ports.Laws.{taken, known, allocate_cases, taken-allocate, known-allocate}
use livelook_sfu.Rtc.MediaEngine.{CodecParameters}
use livelook_sfu.Rtc.Participant.{Draft, allocate_codec, allocate_codecs, record_port, then_draft}
use livelook_sfu.Rtc.Ownership.{count_port, count_port-insert}

-- What an allocation does to the ports.
abbrev pub Allocates : PortsAllocator → Outcome ℕ × PortsAllocator → Type 0
Allocates p (ok port, p') =
    (taken port p ≡ 0)
    × ((q : ℕ) → taken q p' ≡ (if port == q then 1 else taken q p))
    × ((q : ℕ) → known q p' ≡ known q p)
Allocates p (err e, p') = p' ≡ p
Allocates p (panic, p') = ⊥

Allocates-of-ok :
    (p : PortsAllocator) (r : Outcome ℕ × PortsAllocator) (port : ℕ)
    → r.0 ≡ ok port
    → taken port p ≡ 0
    → ((q : ℕ) → taken q r.1 ≡ (if port == q then 1 else taken q p))
    → ((q : ℕ) → known q r.1 ≡ known q p)
    → Allocates p r
Allocates-of-ok p (ok x, p') port h free marks keeps =
    let e : x ≡ port = ground arith in
    (
      ap (λ t. taken t p) e ∙ free,
      λ q. marks q ∙ ap (λ (t : ℕ). if t == q then 1 else taken q p) (sym e),
      keeps,
    )
Allocates-of-ok p (err e, p') port h free marks keeps = cc
Allocates-of-ok p (panic, p') port h free marks keeps = cc

pub allocate-Allocates : (order : List ℕ) (p : PortsAllocator) → Allocates p (allocate order p)
allocate-Allocates order p = elim (allocate_cases order p) [
  | inl (port, h) ↦
      Allocates-of-ok p (allocate order p) port h (taken-allocate order p port port h).0
        (λ q. (taken-allocate order p port q h).1) (known-allocate order p)
  | inr (h, _) ↦ subst (Allocates p) (sym h) refl
]

-- `others` is what the rest of the server holds.
pub record IsSound (others : ℕ → ℕ) (range : ℕ → Bool) (d : Draft) : Type 0 where
  pub exclusive : (q : ℕ) → others q + count_port q d.draft_allocated ≤ taken q d.draft_ports
  pub in_range : (q : ℕ) → known q d.draft_ports ≡ range q

module _ (others : ℕ → ℕ) (range : ℕ → Bool) where
  record_port-IsSound :
      (t : CodecType) (params : CodecParameters) (d : Draft) (r : Outcome ℕ × PortsAllocator)
      → Allocates d.draft_ports r
      → IsSound others range d
      → IsSound others range (record_port t params d r).1
  record_port-IsSound t params d (ok port, p') (free, marks, keeps) s = record {
    exclusive = λ q. ground (
      arith,
      s.exclusive q,
      marks q,
      nat_beq_iff port q,
      count_port-insert q params.payload_type port d.draft_allocated,
    );
    in_range = λ q. keeps q ∙ s.in_range q;
  }
  record_port-IsSound t params d (err e, p') same s = record {
    exclusive = λ q.
        subst (λ x. others q + count_port q d.draft_allocated ≤ taken q x) (sym same)
          (s.exclusive q);
    in_range = λ q. ap (known q) same ∙ s.in_range q;
  }
  record_port-IsSound t params d (panic, p') impossible s = absurd impossible

  then_draft-IsSound :
      (r : Outcome (Unit {0}) × Draft) (rest : Draft → Outcome (Unit {0}) × Draft)
      → IsSound others range r.1
      → ((d : Draft) → IsSound others range d → IsSound others range (rest d).1)
      → IsSound others range (then_draft r rest).1
  then_draft-IsSound (ok _, d) rest s next = next d s
  then_draft-IsSound (err e, d) rest s next = s
  then_draft-IsSound (panic, d) rest s next = s

  allocate_codec-IsSound :
      (visits : ℕ → List ℕ) (t : CodecType) (params : CodecParameters) (d : Draft)
      → IsSound others range d
      → IsSound others range (allocate_codec visits t params d).1
  unfolding allocate_codec
  allocate_codec-IsSound visits t params d s =
      record_port-IsSound t params d _
        (allocate-Allocates (visits params.payload_type) d.draft_ports) s

  pub allocate_codecs-IsSound :
      (visits : ℕ → List ℕ) (codecs : List (CodecType × CodecParameters)) (d : Draft)
      → IsSound others range d
      → IsSound others range (allocate_codecs visits codecs d).1
  unfolding allocate_codecs
  allocate_codecs-IsSound visits [] d s = s
  allocate_codecs-IsSound visits ((t, params) ∷ rest) d s =
      then_draft-IsSound (allocate_codec visits t params d) (allocate_codecs visits rest)
        (allocate_codec-IsSound visits t params d s)
        (λ d' s'. allocate_codecs-IsSound visits rest d' s')
