-- ===== src/Tests/Service.antt =====
-- Runs of the session manager.
use livelook_sfu.Common.{
  true, length, ℕ, ◌≤◌, ◌≡◌, refl, true, false, none, some, List, [], ◌∷◌, lookup, insert,
  equal_fold, Outcome, ok, err, panic, Error, no_free_ports, string_eq, trim_prefix, ap, inl, inr,
  get_elem?, arith,
}
use livelook_sfu.Config.{video, publisher_direction}
use livelook_sfu.Eventbus.Rpc.{IceCandidateParams}
use livelook_sfu.Core.Sessions.{save}
use livelook_sfu.Rtc.Ports.{PortsAllocator, allocate, deallocate, new_ports_allocator}
use livelook_sfu.Rtc.Participant.Media.{MakesForwarding}
use livelook_sfu.Service.Codecs.{run-MakesForwarding}
use livelook_sfu.Rtc.Participant.Media.Codecs.{IsSound}
use livelook_sfu.Rtc.MediaEngine.{CodecTable, CodecParameters, video_codec, create_media_engine}
use livelook_sfu.Rtc.Transport.{PcTransport, new_pc_transport}
use livelook_sfu.Rtc.Node.{Participant}
use livelook_sfu.Rtc.Room.{Room, new_room, join, member}
use livelook_sfu.Rtc.Participant.{
  new_participant, allocate_codecs, new_draft, allocate_codec, codecs_in_order,
}
use livelook_sfu.Rtc.Ports.Laws.{taken, NoneFree, allocate_cases}
use livelook_sfu.Rtc.Participant.Methods.{on_media_track, dial_track, port_of}
use livelook_sfu.Rtc.Participant.Methods.{
  closed_participant, failed, handle_primary_state_change, publish_client,
}
use livelook_sfu.Rtc.Ownership.{holders, count_port}
use livelook_sfu.Service.{
  Setup, Manager, participant_options, new_sessions_manager, start_session, close_session,
  add_ice_candidate,
}
use livelook_sfu.Service.Events.{
  Event, joins, closes, called_back, state_changed, track_started, track_dialled, step, run,
}
use livelook_sfu.Service.Invariant.{ports_exclusive}
use livelook_sfu.Service.Rooms.{Named, rooms-Named}
use livelook_sfu.Service.Joining.{IsJoined, start_session-ok}
use livelook_sfu.Service.Closing.{IsClosed, close_session-ok, rejoin_leaks}
use livelook_sfu.Service.Crashes.{
  no_free_ports_panics, opened, candidate_target_panics, undialled_track_panics,
}
use livelook_sfu.Service.Invariant.{new_sessions_manager-Inv, start_session-Inv}
use livelook_sfu.Tests.Fixtures.{
  webrtc_names, FakePeer, fresh_peer, ice, small_config, setup, good, empty_table,
}

abbrev pub two_sessions : List (Event (Unit {0}) FakePeer)
two_sessions =
    joins good "alice" ∷ joins good "bob" ∷ called_back 0 (state_changed none failed) ∷ []

two_sessions_ports :
    (run setup two_sessions (new_sessions_manager setup empty_table)).node.ports.udp_ports
    ≡ (4000, true) ∷ (4001, false) ∷ (4002, false) ∷ []
unfolding run new_sessions_manager start_session save new_participant new_pc_transport
    create_media_engine lookup equal_fold publisher_direction codecs_in_order allocate_codec
    allocate new_ports_allocator insert handle_primary_state_change deallocate
two_sessions_ports = refl

ports_exclusive_example :
    let node = (run setup two_sessions (new_sessions_manager setup empty_table)).node in
    (holders 4001 node.participants ≤ taken 4001 node.ports) × (taken 4001 node.ports ≤ 1)
ports_exclusive_example = ports_exclusive setup two_sessions empty_table 4001

abbrev pub at_start : Manager FakePeer
at_start = new_sessions_manager setup empty_table

pub alice_starts : (start_session setup good "alice" at_start).0 ≡ ok tt
unfolding run new_sessions_manager start_session save new_participant new_pc_transport
    create_media_engine lookup equal_fold publisher_direction codecs_in_order allocate_codec
    allocate new_ports_allocator insert handle_primary_state_change deallocate
alice_starts = refl

rooms-Named_example : Named (run setup two_sessions at_start).sessions
rooms-Named_example = rooms-Named setup two_sessions empty_table

pub no_rooms : Named at_start.sessions
unfolding run
no_rooms = rooms-Named setup [] empty_table

start_session-ok_example :
    IsJoined "alice" at_start.node at_start.session_total
      (start_session setup good "alice" at_start).1
start_session-ok_example = start_session-ok setup good "alice" at_start no_rooms alice_starts

abbrev alice_in : Manager FakePeer
alice_in = (start_session setup good "alice" at_start).1

-- The participant that alice's join makes.
abbrev alice : Participant FakePeer
alice = record {
  id = "alice";
  publisher = record { pc = fresh_peer; stream_allocator = false; pending_candidates = [] };
  subscriber = none;
  reliable_dc = none;
  published_tracks = some [];
  allocated_ports = some ((96, 4001) ∷ []);
  transcoder_sdp =
      record {
        media_type = video;
        codec_payload_type = 96;
        codec_name = "VP8";
        codec_clock_rate = 90000;
        codec_channels = 0;
        codec_fmtp_line = "";
        media_port = 4001;
      }
      ∷ [];
}

abbrev alices_room : Room
alices_room = record { room_id = "alice"; members = ("alice", 0) ∷ [] }

alice_found : lookup "alice" alice_in.sessions ≡ some alices_room
unfolding run new_sessions_manager start_session save new_participant new_pc_transport
    create_media_engine lookup equal_fold publisher_direction codecs_in_order allocate_codec
    allocate new_ports_allocator insert trim_prefix join publish_client new_room
alice_found = refl

alice_is_member : member "alice" alices_room alice_in.node ≡ some (0, alice)
unfolding run new_sessions_manager start_session save new_participant new_pc_transport
    create_media_engine lookup equal_fold publisher_direction codecs_in_order allocate_codec
    allocate new_ports_allocator insert trim_prefix member
alice_is_member = refl

-- Alice's camera has started and been dialled.
abbrev alice_on : Manager FakePeer
alice_on =
    (step setup (called_back 0 (track_dialled none "camera"))
      (step setup (called_back 0 (track_started none "camera" 96)) alice_in).1).1

abbrev alice_with_camera : Participant FakePeer
alice_with_camera = record alice {
  published_tracks = some (
      (
        "camera",
        record {
          track_id = "camera";
          transcoder_port = 4001;
          track_payload_type = 96;
          conn_open = true;
        },
      )
      ∷ []);
}

alice_on_found : lookup "alice" alice_on.sessions ≡ some alices_room
unfolding run new_sessions_manager start_session save new_participant new_pc_transport
    create_media_engine lookup equal_fold publisher_direction codecs_in_order allocate_codec
    allocate new_ports_allocator insert trim_prefix join publish_client new_room step on_media_track
    dial_track port_of
alice_on_found = refl

alice_on_is_member : member "alice" alices_room alice_on.node ≡ some (0, alice_with_camera)
unfolding run new_sessions_manager start_session save new_participant new_pc_transport
    create_media_engine lookup equal_fold publisher_direction codecs_in_order allocate_codec
    allocate new_ports_allocator insert trim_prefix member step on_media_track dial_track port_of
alice_on_is_member = refl

close_session-ok_example :
    ((close_session setup good "alice" alice_on).0 ≡ ok tt)
    × IsClosed good "alice" 0 alice_with_camera alice_on
        (close_session setup good "alice" alice_on).1
close_session-ok_example =
    close_session-ok setup good "alice" alice_on alices_room 0 alice_with_camera alice_on_found
      alice_on_is_member (refl, tt)

alice_in-Named : Named alice_in.sessions
unfolding run new_sessions_manager start_session save new_participant new_pc_transport
    create_media_engine lookup equal_fold publisher_direction codecs_in_order allocate_codec
    allocate new_ports_allocator insert trim_prefix
alice_in-Named = rooms-Named setup (joins good "alice" ∷ []) empty_table

alice_starts_again : (start_session setup good "alice" alice_in).0 ≡ ok tt
unfolding run new_sessions_manager start_session save new_participant new_pc_transport
    create_media_engine lookup equal_fold publisher_direction codecs_in_order allocate_codec
    allocate new_ports_allocator insert trim_prefix
alice_starts_again = refl

rejoin_leaks_example :
    let n = (start_session setup good "alice" alice_in).1 in
    let m' = (close_session setup good "alice" n).1 in
    (lookup "alice" m'.sessions ≡ none)
    × ((newer : Participant FakePeer) × (newer.id ≡ "alice")
        × (get_elem? n.node.participants (length alice_in.node.participants) ≡ some newer)
        × (get_elem? m'.node.participants (length alice_in.node.participants)
            ≡ some (closed_participant setup.peers newer)))
    × (get_elem? m'.node.participants 0 ≡ some alice)
    × (taken 4001 m'.node.ports ≡ 1)
unfolding count_port
rejoin_leaks_example =
    rejoin_leaks setup good good "alice" alice_in alices_room 0 alice 4001
      (start_session-Inv setup good "alice" at_start (new_sessions_manager-Inv setup empty_table))
      alice_in-Named alice_found alice_is_member (omega arith) alice_starts_again

abbrev subscriber_candidate : IceCandidateParams
subscriber_candidate = record { candidate_init = ice "a"; target = "subscriber" }

candidate_target_panics_example :
    (add_ice_candidate setup "alice" subscriber_candidate
      (run setup (joins good "alice" ∷ []) at_start)).0
    ≡ panic
unfolding run new_sessions_manager start_session save new_participant new_pc_transport
    create_media_engine lookup equal_fold publisher_direction codecs_in_order allocate_codec
    allocate new_ports_allocator insert
candidate_target_panics_example =
    candidate_target_panics setup (joins good "alice" ∷ []) empty_table "alice" subscriber_candidate
      alices_room 0 alice alice_found alice_is_member refl

undialled_track_panics_example :
    let m' = (step setup (called_back 0 (track_started none "camera" 96)) alice_in).1 in
    (step setup (closes good "alice") m').0 ≡ panic
undialled_track_panics_example =
    undialled_track_panics setup good "alice" alice_in alices_room 0 alice [] "camera" 96
      alice_found alice_is_member refl

NoneFree-of-allocate :
    (order : List ℕ) (p : PortsAllocator) (e : Error)
    → (allocate order p).0 ≡ err e
    → NoneFree order p
NoneFree-of-allocate order p e h = elim (allocate_cases order p) [
  | inl (port, k) ↦ cc
  | inr (_, all) ↦ all
]

-- A server with one port, which alice holds.
abbrev one_port : Setup (Unit {0}) FakePeer
one_port = record setup {
  config = record small_config {
    rtc = record small_config.rtc { transcoder = record { port_start = 4001; port_end = 4002 } };
  };
}

abbrev full_house : Manager FakePeer
full_house = run one_port (joins good "alice" ∷ []) (new_sessions_manager one_port empty_table)

all_taken :
    allocate (4001 ∷ 4000 ∷ 4002 ∷ []) full_house.node.ports
    ≡ (err no_free_ports, full_house.node.ports)
unfolding run new_sessions_manager start_session save new_participant new_pc_transport
    create_media_engine lookup equal_fold publisher_direction codecs_in_order allocate_codec
    allocate new_ports_allocator insert trim_prefix
all_taken = refl

abbrev dave_opens : Outcome (PcTransport FakePeer) × CodecTable
dave_opens = opened one_port good.participant (participant_options one_port "dave") full_house.node

dave_opens-ok :
    dave_opens.0
    ≡ ok (record { pc = fresh_peer; stream_allocator = false; pending_candidates = [] })
unfolding run new_sessions_manager start_session save new_participant new_pc_transport
    create_media_engine lookup equal_fold publisher_direction codecs_in_order allocate_codec
    allocate new_ports_allocator insert trim_prefix
dave_opens-ok = refl

abbrev vp8_codec : CodecParameters
vp8_codec = video_codec (publisher_direction webrtc_names).rtcp_feedback "video/VP8" "" 96

vp8_first : codecs_in_order true dave_opens.1 ≡ (video, vp8_codec) ∷ []
unfolding run new_sessions_manager start_session save new_participant new_pc_transport
    create_media_engine lookup equal_fold publisher_direction codecs_in_order allocate_codec
    allocate new_ports_allocator insert trim_prefix video_codec
vp8_first = refl

nothing_served :
    (ports : PortsAllocator)
    → allocate_codecs good.participant.visits [] (new_draft ports) ≡ (ok tt, new_draft ports)
unfolding allocate_codecs
nothing_served ports = refl

no_free_ports_panics_example : (start_session one_port good "dave" full_house).0 ≡ panic
no_free_ports_panics_example =
    no_free_ports_panics one_port good "dave" full_house
      (record { pc = fresh_peer; stream_allocator = false; pending_candidates = [] }) [] [] video
      vp8_codec (new_draft full_house.node.ports) refl refl dave_opens-ok vp8_first
      (nothing_served full_house.node.ports)
      (NoneFree-of-allocate (4001 ∷ 4000 ∷ 4002 ∷ []) full_house.node.ports no_free_ports
        (ap (λ r. r.0) all_taken))

run-MakesForwarding_example :
    let node = (run setup two_sessions (new_sessions_manager setup empty_table)).node in
    IsSound node.codecs
    × MakesForwarding node.participants (
        new_participant good.participant
          (participant_options setup "alice")
          setup.engines
          setup.names
          node)
run-MakesForwarding_example =
    run-MakesForwarding setup two_sessions empty_table good.participant "alice"
