-- ===== src/Core/Sessions/Laws.antt =====
-- What the repository does to the row of a user and to the rows of the others, and how the
-- listing is cut into pages.
use native.Mathlib.Nat.{lt-div-mul-add, div-lt_iff_lt-mul}
use livelook_sfu.Common.{
  ℕ, zero, suc, ◌+◌, ◌-◌, ◌*◌, ◌/◌, ◌≤◌, ◌<◌, ◌≡◌, refl, ap, sym, ◌∙◌, true, false, none, some,
  List, [], ◌∷◌, ◌++◌, length, take, drop, lookup, lookup-insert, ◌==◌, string_eq, string_beq_iff,
  if◌then◌else◌, arith,
}
use livelook_sfu.Eventbus.Rpc.{UserSessionId}
use livelook_sfu.Core.Sessions.{
  Time, zero_time, Session, SessionsTable, session_of, session_idle, single_broadcast,
  video_session, upserted_row, save, update_where, set_offline, start_publish, total_pages,
  page_offset, page_of,
}

update_where-lookup :
    (user u : UserSessionId) (change : Session → Session) (table : SessionsTable) (row : Session)
    → lookup user table.rows ≡ some row
    → lookup u (update_where user change table).rows
      ≡ (if user == u then some (change row) else lookup u table.rows)
unfolding update_where
update_where-lookup user u change table row h =
    ground (arith, lookup-insert user u (change row) table.rows)

save-lookup :
    (s : Session) (u : UserSessionId) (table : SessionsTable)
    → lookup u (save none s table).1.rows
      ≡ (if s.user_id == u then some (upserted_row s table) else lookup u table.rows)
unfolding save
save-lookup s u table = lookup-insert s.user_id u (upserted_row s table) table.rows

-- A second join of a user keeps the row and its ID, marks it as online, and sets the time of its
-- last change to the zero time.
pub rejoin_ages_row :
    (user : UserSessionId) (table : SessionsTable) (row : Session)
    → lookup user table.rows ≡ some row
    → lookup user (save none (session_of user) table).1.rows
      ≡ some (record row { updated_at = zero_time; online = true })
unfolding upserted_row session_of
rejoin_ages_row user table row h =
    ground (arith, save-lookup (session_of user) user table, string_beq_iff user user)

abbrev pub published_table : UserSessionId → Time → SessionsTable → SessionsTable
published_table user now table =
    (start_publish none now user (save none (session_of user) table).1).1

abbrev pub closed_table : UserSessionId → Time → Time → SessionsTable → SessionsTable
closed_table user now later table = (set_offline none later user (published_table user now table)).1

-- The life of a session, from its join to its end: while it is published its row is online and a
-- video broadcast; when it is closed it is offline, idle and without a medium; the rest
-- of the row is what the join made; and the rows of other users are not touched.
pub session_life :
    (user other : UserSessionId) (now later : Time) (table : SessionsTable)
    → (user == other) ≡ false
    → let row = upserted_row (session_of user) table in
      (lookup user (published_table user now table).rows
        ≡ some (record row {
          updated_at = now;
          state = single_broadcast;
          media_type = some video_session;
          online = true;
        }))
      × (lookup user (closed_table user now later table).rows
          ≡ some (record row {
            updated_at = later;
            online = false;
            state = session_idle;
            media_type = none;
          }))
      × (lookup other (closed_table user now later table).rows ≡ lookup other table.rows)
unfolding session_of start_publish set_offline
session_life user other now later table differ =
    let row = upserted_row (session_of user) table in
    let t = (save none (session_of user) table).1 in
    let joined : lookup user t.rows ≡ some row =
      ground (arith, save-lookup (session_of user) user table, string_beq_iff user user) in
    let published : lookup user (published_table user now table).rows ≡ some _ =
      update_where-lookup user user _ t row joined ∙ rw (self_key user) refl in
    (
      published,
      update_where-lookup user user _ (published_table user now table) _ published
          ∙ rw (self_key user) refl,
      update_where-lookup user other _ (published_table user now table) _ published
          ∙ rw differ (
              update_where-lookup user other _ t row joined
              ∙ rw differ (save-lookup (session_of user) other table ∙ rw differ refl)),
    )
  where
    self_key : (u : UserSessionId) → (u == u) ≡ true
    self_key u = (string_beq_iff u u).1 refl

-- The rows of the pages from the first up to and with page `k`.
unfoldable pub pages_to : ℕ → ℕ → List Session → List Session
pages_to zero per_page rows = []
pages_to (suc k) per_page rows = pages_to k per_page rows ++ page_of (suc k) per_page rows

take_nothing : (n : ℕ) → take {A = Session} n [] ≡ []
take_nothing zero = refl
take_nothing (suc n) = refl

take_sum :
    (m n total : ℕ) (xs : List Session)
    → m + n ≡ total
    → take m xs ++ take n (drop m xs) ≡ take total xs
take_sum zero n total xs h = ap (λ k. take k xs) (omega arith)
take_sum (suc m) n total [] h = take_nothing n ∙ sym (take_nothing total)
take_sum (suc m) n zero (x ∷ xs) h = absurd (omega arith)
take_sum (suc m) n (suc total) (x ∷ xs) h = ap (λ t. x ∷ t) (take_sum m n total xs (omega arith))

take-all : (n : ℕ) (xs : List Session) → length xs ≤ n → take n xs ≡ xs
take-all zero [] h = refl
take-all zero (x ∷ xs) h = absurd (omega arith)
take-all (suc n) [] h = refl
take-all (suc n) (x ∷ xs) h = ap (λ t. x ∷ t) (take-all n xs (omega arith))

pages_to-take :
    (k per_page : ℕ) (rows : List Session) → pages_to k per_page rows ≡ take (k * per_page) rows
unfolding pages_to page_of page_offset
pages_to-take zero per_page rows = ap (λ n. take n rows) no_rows
  where
    no_rows : 0 ≡ 0 * per_page
    no_rows = omega arith
pages_to-take (suc k) per_page rows =
    ap (λ n. pages_to k per_page rows ++ take per_page (drop n rows)) offset
    ∙ ap (λ t. t ++ take per_page (drop (k * per_page) rows)) (pages_to-take k per_page rows)
    ∙ take_sum (k * per_page) per_page (suc k * per_page) rows one_more
  where
    offset : (suc k - 1) * per_page ≡ k * per_page
    offset = ap (λ i. i * per_page) before
      where
        before : suc k - 1 ≡ k
        before = omega arith

    one_more : k * per_page + per_page ≡ suc k * per_page
    one_more = omega arith

-- The pages of the listing, as many as it counts, are all rows, each once and in order; one page
-- fewer would not do.
pub pages_cover :
    (per_page : ℕ) (rows : List Session)
    → 0 < per_page
    → (pages_to (total_pages (length rows) per_page) per_page rows ≡ rows)
      × ((k : ℕ) → length rows ≤ k * per_page → total_pages (length rows) per_page ≤ k)
unfolding total_pages
pages_cover per_page rows positive = (
  pages_to-take ((length rows + per_page - 1) / per_page) per_page rows
      ∙ take-all _ rows (enough (length rows)),
  λ k h. fewest (length rows) k h,
)
  where
    enough : (n : ℕ) → n ≤ (n + per_page - 1) / per_page * per_page
    enough n = omega (arith, lt-div-mul-add {a = n + per_page - 1} {b = per_page} positive)

    fewest : (n k : ℕ) → n ≤ k * per_page → (n + per_page - 1) / per_page ≤ k
    fewest n k h =
        let bound : n + per_page - 1 < (k + 1) * per_page = omega arith in
        let below =
          (div-lt_iff_lt-mul {k = per_page} {x = n + per_page - 1} {y = k + 1} positive).1 bound in
        omega arith
