-- ===== src/Api/Response.antt =====
-- What the handlers of internal/api/app.go write to a response.
use livelook_sfu.Common.{ℕ, Bool, true, false, Option, none, some, String, Error}
use livelook_sfu.Eventbus.Rpc.{UserSessionId}

-- A response as far as it is written: the status, which only the first call of `WriteHeader` sets,
-- the headers that the handlers set, and the `id` of the admin session that a cookie carries.
pub record Response : Type 0 where
  pub status : Option ℕ
  pub location : Option String
  pub page_total : Option ℕ
  pub admin_session : Option UserSessionId
  pub body_written : Bool

abbrev pub no_response : Response
no_response = record {
  status = none;
  location = none;
  page_total = none;
  admin_session = none;
  body_written = false;
}

abbrev pub first_status : ℕ → Option ℕ → Option ℕ
first_status code none = some code
first_status code (some old) = some old

abbrev pub write_header : ℕ → Response → Response
write_header code w = record w { status = first_status code w.status }

-- Writing a body sends the status 200 if there is none.
abbrev pub write_body : Response → Response
write_body w = record w { status = first_status 200 w.status; body_written = true }

-- `tmpl.ExecuteTemplate`, after `ParseFiles`.
abbrev pub page : Option Error → Response → Response
page (some e) w = write_header 500 w
page none w = write_body w

-- `json.NewEncoder(w).Encode`, with the status of its error.
abbrev pub encoded : ℕ → Option Error → Response → Response
encoded code (some e) w = write_header code w
encoded code none w = write_body w
