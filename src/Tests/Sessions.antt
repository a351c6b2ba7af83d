-- ===== src/Tests/Sessions.antt =====
-- The sessions table at concrete inputs.
use livelook_sfu.Common.{
  ℕ, ◌≤◌, ◌*◌, ◌≡◌, refl, true, false, none, some, List, [], ◌∷◌, lookup, string_eq, arith,
}
use livelook_sfu.Core.Sessions.{
  Session, SessionsTable, session_of, save, zero_time, upserted_row, single_broadcast, session_idle,
  video_session, total_pages,
}
use livelook_sfu.Core.Sessions.Laws.{
  rejoin_ages_row, session_life, published_table, closed_table, pages_to, pages_cover,
}

abbrev alice_row : Session
alice_row = record (session_of "alice") { id = 3; updated_at = 40 }

abbrev alice_table : SessionsTable
alice_table = record { rows = ("alice", alice_row) ∷ []; next_id = 4 }

alice_stored : lookup "alice" alice_table.rows ≡ some alice_row
unfolding lookup
alice_stored = refl

rejoin_ages_row_example :
    lookup "alice" (save none (session_of "alice") alice_table).1.rows
    ≡ some (record alice_row { updated_at = zero_time; online = true })
rejoin_ages_row_example = rejoin_ages_row "alice" alice_table alice_row alice_stored

session_life_example :
    let row = upserted_row (session_of "alice") alice_table in
    (lookup "alice" (published_table "alice" 5 alice_table).rows
      ≡ some (record row {
        updated_at = 5;
        state = single_broadcast;
        media_type = some video_session;
        online = true;
      }))
    × (lookup "alice" (closed_table "alice" 5 9 alice_table).rows
        ≡ some (record row {
          updated_at = 9;
          online = false;
          state = session_idle;
          media_type = none;
        }))
    × (lookup "bob" (closed_table "alice" 5 9 alice_table).rows ≡ lookup "bob" alice_table.rows)
session_life_example = session_life "alice" "bob" 5 9 alice_table refl

abbrev three_rows : List Session
three_rows = session_of "a" ∷ session_of "b" ∷ session_of "c" ∷ []

pages_cover_example :
    (pages_to (total_pages 3 2) 2 three_rows ≡ three_rows)
    × ((k : ℕ) → 3 ≤ k * 2 → total_pages 3 2 ≤ k)
pages_cover_example = pages_cover 2 three_rows (omega arith)
