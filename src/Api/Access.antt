-- ===== src/Api/Access.antt =====
-- internal/api/logger_middleware.go: the access log around the handlers. The handlers of the API that
-- panic have written nothing by then.
use livelook_sfu.Common.{
  ℕ, ◌≡◌, ◌≢◌, false, Option, none, some, String, List, [], ◌∷◌, ◌==◌, string_eq, if◌then◌else◌,
  Outcome, ok, err, panic,
}
use livelook_sfu.Api.Response.{Response, no_response, write_header, write_body}

abbrev pub websocket_path : String
websocket_path = "/api/v1/ws"

-- The fields of an entry that depend on the request and its response; the addresses, the sizes and
-- the times are left out. `access_status` is 0 where no status has been written.
pub record AccessEntry : Type 0 where
  pub access_url : String
  pub access_method : String
  pub access_status : ℕ

pub data LogLine : Type 0 where
  system_error : LogLine
  incoming_request : AccessEntry → LogLine

-- `ww.Status()`
abbrev pub status_of : Option ℕ → ℕ
status_of none = 0
status_of (some code) = code

abbrev pub entry_of : String → String → Response → LogLine
entry_of method url w =
    incoming_request
      (record { access_url = url; access_method = method; access_status = status_of w.status })

-- `http.Error` with the status 500.
abbrev pub internal_error : Response
internal_error = write_body (write_header 500 no_response)

-- The deferred function: it recovers from a panic, and logs the end of the request.
abbrev pub end_request :
    {State : Type 0}
    → String
    → String
    → Outcome Response × State
    → (Outcome Response × State) × List LogLine
end_request method url (ok w, s) = ((ok w, s), entry_of method url w ∷ [])
end_request method url (err e, s) = ((err e, s), entry_of method url no_response ∷ [])
end_request method url (panic, s) =
    ((ok internal_error, s), system_error ∷ entry_of method url internal_error ∷ [])

-- `LoggerMiddleware`, with the handler that it wraps.
unfoldable pub logger_middleware :
    {State : Type 0}
    → String
    → String
    → (State → Outcome Response × State)
    → State
    → (Outcome Response × State) × List LogLine
logger_middleware method url next s =
    if url == websocket_path then (next s, []) else end_request method url (next s)

end_request-recovers :
    {State : Type 0} (method url : String) (r : Outcome Response × State)
    → (end_request method url r).0.0 ≢ panic
end_request-recovers method url (ok w, s) e = cc
end_request-recovers method url (err x, s) e = cc
end_request-recovers method url (panic, s) e = cc

-- Away from the path of the WebSocket no panic of a handler gets past the access log.
pub logger_middleware-recovers :
    {State : Type 0} (method url : String) (next : State → Outcome Response × State) (s : State)
    → (url == websocket_path) ≡ false
    → (logger_middleware method url next s).0.0 ≢ panic
unfolding logger_middleware
logger_middleware-recovers method url next s elsewhere =
    rw elsewhere (end_request-recovers method url (next s))
