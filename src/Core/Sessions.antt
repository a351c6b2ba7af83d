-- ===== src/Core/Sessions.antt =====
-- internal/core/session.go and internal/core/sessions_repository.go: the sessions table. A row is
-- found by its `user_id`, which the constraint `uniq_sessions_user_id` makes a key. Every method
-- is given how the database answers (`reply`) and, where the statement reads it, `NOW()`.
pub mod Laws
use livelook_sfu.Common.{
  ℕ, zero, suc, ◌+◌, ◌-◌, ◌*◌, ◌/◌, Bool, true, false, Option, none, some, String, List, [], ◌∷◌,
  lookup, insert, take, drop, length, ◌==◌, nat_eq, string_eq, if◌then◌else◌, Outcome, ok, err,
  panic, Error, return_error,
}
use livelook_sfu.Eventbus.Rpc.{UserSessionId}

pub data SessionState : Type 0 where
  session_idle single_broadcast multi_broadcast session_viewer : SessionState

pub data SessionMediaType : Type 0 where
  video_session audio_session : SessionMediaType

-- A time is a number of ticks after the zero time of Go.
abbrev pub Time : Type 0
Time = ℕ

abbrev pub zero_time : Time
zero_time = 0

-- `Session`, with the columns of a row; `image_node`, `finished_at` and the fields that are not
-- stored (`db:"-"`) are left out.
pub record Session : Type 0 where
  pub id : ℕ
  pub user_id : UserSessionId
  pub title : String
  pub created_at : Time
  pub updated_at : Time
  pub image_filename : Option String
  pub online : Bool
  pub state : SessionState
  pub media_type : Option SessionMediaType
  pub viewers_count : ℕ

-- `&Session{UserID: userID}`: every other field is the zero value of Go.
unfoldable pub session_of : UserSessionId → Session
session_of user = record {
  id = 0;
  user_id = user;
  title = "";
  created_at = zero_time;
  updated_at = zero_time;
  image_filename = none;
  online = false;
  state = session_idle;
  media_type = none;
  viewers_count = 0;
}

-- `next_id` is the identity sequence, which an upsert advances in any case.
pub record SessionsTable : Type 0 where
  pub rows : List (UserSessionId × Session)
  pub next_id : ℕ

-- The row that the INSERT makes, with the defaults of the table.
abbrev inserted_row : ℕ → Session → Session
inserted_row id s = record s {
  id = id;
  online = true;
  state = session_idle;
  media_type = none;
  viewers_count = 0;
}

-- DO UPDATE SET updated_at = EXCLUDED.updated_at, is_online = true
abbrev updated_row : Session → Session → Session
updated_row s row = record row { updated_at = s.updated_at; online = true }

unfoldable pub upserted_row : Session → SessionsTable → Session
upserted_row s table = elim (lookup s.user_id table.rows) [
  | none ↦ inserted_row table.next_id s
  | some row ↦ updated_row s row
]

unfoldable pub save : Option Error → Session → SessionsTable → Outcome Session × SessionsTable
unfolding upserted_row
save (some e) s table = (err e, table)
save none s table = (
  ok (record s { id = (upserted_row s table).id }),
  record { rows = insert s.user_id (upserted_row s table) table.rows; next_id = table.next_id + 1 },
)

-- UPDATE sessions SET … WHERE user_id = …: no row, no change, and no error.
unfoldable pub update_where : UserSessionId → (Session → Session) → SessionsTable → SessionsTable
update_where user change table = elim (lookup user table.rows) [
  | none ↦ table
  | some row ↦ record table { rows = insert user (change row) table.rows }
]

abbrev executed : Option Error → SessionsTable → SessionsTable → Outcome (Unit {0}) × SessionsTable
executed (some e) table table' = (err e, table)
executed none table table' = (ok tt, table')

unfoldable pub set_online :
    Option Error → Time → UserSessionId → SessionsTable → Outcome (Unit {0}) × SessionsTable
unfolding update_where
set_online reply now user table =
    executed reply table
      (update_where user (λ row. record row { online = true; updated_at = now }) table)

unfoldable pub set_offline :
    Option Error → Time → UserSessionId → SessionsTable → Outcome (Unit {0}) × SessionsTable
unfolding update_where
set_offline reply now user table = executed reply table (
    update_where user
      (λ row. record row {
        updated_at = now;
        online = false;
        state = session_idle;
        media_type = none;
      })
      table)

unfoldable pub start_publish :
    Option Error → Time → UserSessionId → SessionsTable → Outcome (Unit {0}) × SessionsTable
unfolding update_where
start_publish reply now user table = executed reply table (
    update_where user
      (λ row. record row {
        updated_at = now;
        state = single_broadcast;
        media_type = some video_session;
        online = true;
      })
      table)

unfoldable pub stop_publish :
    Option Error → Time → UserSessionId → SessionsTable → Outcome (Unit {0}) × SessionsTable
unfolding update_where
stop_publish reply now user table = executed reply table (
    update_where user
      (λ row. record row { updated_at = now; state = session_idle; media_type = none }) table)

-- `sql.ErrNoRows` is passed over: a missing row gives an empty session, never nil.
unfoldable pub find_by_user_id : Option Error → UserSessionId → SessionsTable → Outcome Session
find_by_user_id (some e) user table = err e
find_by_user_id none user table = elim (lookup user table.rows) [
  | none ↦ ok (session_of "")
  | some row ↦ ok row
]

abbrev pub sessions_page_default : ℕ
sessions_page_default = 1

abbrev pub sessions_per_page_default : ℕ
sessions_per_page_default = 50

-- `if page == 0 { page = default }`
unfoldable pub or_default : ℕ → ℕ → ℕ
or_default n default = if n == 0 then default else n

-- `int(math.Ceil(float64(total) / float64(perPage)))`
unfoldable pub total_pages : ℕ → ℕ → ℕ
total_pages total per_page = (total + per_page - 1) / per_page

-- OFFSET (page-1)*perPage
unfoldable pub page_offset : ℕ → ℕ → ℕ
page_offset page per_page = (page - 1) * per_page

-- LIMIT and OFFSET, on the rows in the order of the query.
unfoldable pub page_of : ℕ → ℕ → List Session → List Session
unfolding page_offset
page_of page per_page rows = take per_page (drop (page_offset page per_page) rows)

-- `OnlineStreams`
pub record OnlineStreams : Type 0 where
  pub streams : List Session
  pub page_count : ℕ

abbrev pub listed : ℕ → ℕ → Option Error → ℕ → List Session → Outcome OnlineStreams
listed page per_page (some e) total ordered = err e
listed page per_page none total ordered =
    ok (record { streams = page_of page per_page ordered; page_count = total_pages total per_page })

abbrev pub counted : ℕ → ℕ → Option Error → Option Error → List Session → Outcome OnlineStreams
counted page per_page (some e) selected ordered = err e
counted page per_page none selected ordered = listed page per_page selected (length ordered) ordered

-- `GetAll`, up to the URLs of the images: the replies are of the count and of the select, and
-- `ordered` are the rows by `updated_at`, the latest first.
unfoldable pub get_all : ℕ → ℕ → Option Error → Option Error → List Session → Outcome OnlineStreams
unfolding or_default page_of total_pages
get_all page per_page count_reply select_reply ordered =
    counted (or_default page sessions_page_default) (or_default per_page sessions_per_page_default)
      count_reply select_reply ordered
