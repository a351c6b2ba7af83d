-- ===== src/Tests/Routing.antt =====
-- The router over messages that are their own method.
use livelook_sfu.Common.{◌≡◌, map, Option, none, some, String, List, [], ◌∷◌, ok, err, external}
use livelook_sfu.Eventbus.Rpc.{json_rpc_version}
use livelook_sfu.Eventbus.Decoding.{Codec, corrupt_input, parse_rpc}
use livelook_sfu.Eventbus.Router.{handle_payload, serve}
use livelook_sfu.Service.{Manager, Replies, new_sessions_manager}
use livelook_sfu.Service.Events.{run}
use livelook_sfu.Service.Routing.{
  callbacks_of, asked, received, events_of, handle_payload_lem, serve-run,
}
use livelook_sfu.Tests.Fixtures.{FakePeer, offer, setup, good, empty_table}

abbrev method_codec : Codec String String
method_codec = record {
  unmarshal_server_message = λ s. ok (record { sender = "alice"; message = s });
  decode_json_rpc =
      λ s. ok (record { head = record { version = json_rpc_version; method = s }; rpc_params = s });
  marshal_params = λ s. ok s;
  unmarshal_ice = λ s. err (external 0);
  unmarshal_sdp = λ s. ok (record { session_description = offer; target = "publisher" });
  unmarshal_subscribe = λ s. ok (record { user_id = "bob" });
  decode_base64 = λ s. corrupt_input;
  gzip_reader = λ s. err (external 1);
  read_all = λ s. err (external 2);
}

abbrev start : Manager FakePeer
start = new_sessions_manager setup empty_table

handle_payload_lem_example :
    handle_payload (callbacks_of setup good) method_codec "join" start
    ≡ asked setup good (parse_rpc method_codec "join") start
handle_payload_lem_example = handle_payload_lem setup method_codec good "join" start

abbrev inputs : List (Option (Replies (Unit {0}) FakePeer × String))
inputs =
    some (good, "join")
    ∷ some (good, "answer")
    ∷ some (good, "hello")
    ∷ some (good, "publish")
    ∷ none
    ∷ some (good, "close_session")
    ∷ []

serve-run_example :
    serve method_codec (map (received setup method_codec) inputs) start
    ≡ run setup (events_of setup method_codec inputs) start
serve-run_example = serve-run setup method_codec inputs start
