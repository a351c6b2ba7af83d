-- ===== src/Api/App/Logins.antt =====
-- The login of an admin, and the requests that follow it with the cookie of its session.
use livelook_sfu.Common.{
  ◌≡◌, ◌≢◌, refl, sym, ap, subst, inl, inr, true, false, Option, none, some, List, [], ◌∷◌, All,
  String, ◌==◌, string_eq, string_beq_iff, Outcome, ok, err, panic, Error, arith,
}
use livelook_sfu.Eventbus.Rpc.{UserSessionId}
use livelook_sfu.Core.Users.{User, find_user, first_row}
use livelook_sfu.Core.Users.Laws.{Row, LogsIn, auth_admin_user-LogsIn}
use livelook_sfu.Api.Auth.{AuthReplies, next_served, default_middleware}
use livelook_sfu.Api.Response.{Response}
use livelook_sfu.Api.Handlers.{admin_login, logged_in, session_saved}
use livelook_sfu.Api.App.{post_admin_login, ApiState, Call, serve_request}

-- `id` is the primary key.
abbrev pub UniqueIds : List User → Type 0
UniqueIds [] = Unit {0}
UniqueIds (u ∷ rows) = All (λ (v : User). u.user_id ≢ v.user_id) rows × UniqueIds rows

Row-differs :
    (v u : User) (rows : List User)
    → All (λ (w : User). v.user_id ≢ w.user_id) rows
    → Row u rows
    → v.user_id ≢ u.user_id
Row-differs v u [] h row = absurd row
Row-differs v u (w ∷ rows) (ne, h) (inl same) =
    subst (λ (x : User). v.user_id ≢ x.user_id) (sym same) ne
Row-differs v u (w ∷ rows) (ne, h) (inr row) = Row-differs v u rows h row

find-Row :
    (u : User) (rows : List User)
    → UniqueIds rows
    → Row u rows
    → find_user none u.user_id rows ≡ ok u
unfolding find_user first_row
find-Row u [] unique row = absurd row
find-Row u (v ∷ rows) (ne, unique) (inl same) =
    let found : (v.user_id == u.user_id) ≡ true =
      (string_beq_iff v.user_id u.user_id).1 (ap (λ (x : User). x.user_id) (sym same)) in
    rw found (ap ok (sym same))
find-Row u (v ∷ rows) (ne, unique) (inr row) =
    let differ = Row-differs v u rows ne row in
    let other : (v.user_id == u.user_id) ≡ false =
      ground (arith, string_beq_iff v.user_id u.user_id) in
    rw other (find-Row u rows unique row)

abbrev SessionOf : UserSessionId → Outcome Response → Type 0
SessionOf id (ok w) = w.admin_session ≡ some id
SessionOf id (err e) = ⊥
SessionOf id panic = ⊥

session_saved-SessionOf :
    (root_url : String) (own id : UserSessionId) (e : Option Error)
    → SessionOf id (session_saved root_url own e)
    → own ≡ id
session_saved-SessionOf root_url own id (some e) h = absurd (cc h)
session_saved-SessionOf root_url own id none h = cc h

logged_in-SessionOf :
    (root_url : String) (template cookie : Option Error) (x : Outcome (Option User))
    (id : UserSessionId)
    → SessionOf id (logged_in root_url template cookie x)
    → (u : User) × (x ≡ ok (some u)) × (u.user_id ≡ id)
logged_in-SessionOf root_url template cookie (err e) id h = absurd (cc h)
logged_in-SessionOf root_url template cookie panic id h = absurd h
logged_in-SessionOf root_url none cookie (ok none) id h = absurd (cc h)
logged_in-SessionOf root_url (some e) cookie (ok none) id h = absurd (cc h)
logged_in-SessionOf root_url template cookie (ok (some u)) id h =
    (u, refl, session_saved-SessionOf root_url u.user_id id cookie h)

-- Where a login as an admin gives a session, it is that of an admin of the users table whose
-- password and email were typed; and a request with that session is served as this admin, whatever
-- its other headers are, if the database answers.
pub login_passes :
    (c : Call) (a b : AuthReplies) (s : ApiState) (w : Response) (id : UserSessionId)
    → UniqueIds s.users
    → (serve_request c a post_admin_login s).0 ≡ ok w
    → w.admin_session ≡ some id
    → (u : User) × Row u s.users
      × LogsIn c.sql c.form_email c.form_password u
      × (u.user_id ≡ id)
      × (default_middleware (record b { admin_id = some id; find = λ i. find_user none i s.users })
          ≡ next_served u)
unfolding serve_request admin_login default_middleware
login_passes c a b s w id unique answer session =
    let cookie : SessionOf id (serve_request c a post_admin_login s).0 =
      subst (SessionOf id) (sym answer) session in
    let (u, auth, own) =
      logged_in-SessionOf c.root_url c.template_reply c.cookie_reply _ id cookie in
    let (row, login) =
      auth_admin_user-LogsIn c.sql c.form_email c.form_password c.database_reply u s.users auth in
    let found : find_user none id s.users ≡ ok u =
      subst (λ i. find_user none i s.users ≡ ok u) own (find-Row u s.users unique row) in
    (u, row, login, own, rw found (rw (login.0) refl))
