-- ===== src/Rtc/Participant/Tracks.antt =====
-- The loop over the published tracks in `Close` of internal/rtc/participant.go.
use livelook_sfu.Common.{
  ◌≡◌, refl, false, true, ◌⊎◌, inl, inr, Bool-cases, List, [], ◌∷◌, All, String, insert, ◌==◌,
  string_eq, ok, panic, arith,
}
use livelook_sfu.Rtc.Node.{MediaTrack}
use livelook_sfu.Rtc.Participant.Methods.{close_tracks}

-- Every track has been dialled.
abbrev pub AllDialled : List (String × MediaTrack) → Type 0
AllDialled = All (λ (x : String × MediaTrack). x.1.conn_open ≡ true)

pub close_tracks-ok :
    (tracks : List (String × MediaTrack)) → AllDialled tracks → close_tracks tracks ≡ ok tt
unfolding close_tracks
close_tracks-ok [] h = refl
close_tracks-ok ((id, t) ∷ tracks) (h, hs) = ground (arith, close_tracks-ok tracks hs)

-- The loop ends, or it panics.
pub close_tracks-cases :
    (tracks : List (String × MediaTrack))
    → (close_tracks tracks ≡ ok tt) ⊎ (close_tracks tracks ≡ panic)
unfolding close_tracks
close_tracks-cases [] = inl refl
close_tracks-cases ((id, t) ∷ tracks) = elim (Bool-cases t.conn_open) [
  | inl on ↦ rw on (close_tracks-cases tracks)
  | inr off ↦ inr (rw off refl)
]

-- A track that has not been dialled makes it panic, wherever it stands.
pub close_tracks-insert :
    (id : String) (t : MediaTrack) (tracks : List (String × MediaTrack))
    → t.conn_open ≡ false
    → close_tracks (insert id t tracks) ≡ panic
unfolding close_tracks insert
close_tracks-insert id t [] h = rw h refl
close_tracks-insert id t ((k, old) ∷ tracks) h = elim (Bool-cases (k == id)) [
  | inl same ↦ rw same (rw h refl)
  | inr other ↦ rw other (elim (Bool-cases old.conn_open) [
    | inl on ↦ rw on (close_tracks-insert id t tracks h)
    | inr off ↦ rw off refl
  ])
]
