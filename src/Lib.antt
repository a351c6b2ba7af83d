-- ===== src/Lib.antt =====
-- livelook-sfu: a selective forwarding unit that takes the broadcast of a user over WebRTC and hands
-- its media to a transcoder, a separate daemon.
--
-- Parts. Clients send JSON-RPC messages through Redis; the router of internal/eventbus/router.go
-- reads them and calls the session manager of internal/service/sessions_manager.go, which keeps a
-- room per user and the row of the user in the database. A room holds participants
-- (internal/rtc/participant.go): each owns a peer connection (internal/rtc/transport.go) with codecs
-- of internal/rtc/mediaengine.go, and a port of the transcoder for each codec, from
-- internal/rtc/ports_allocator.go; its tracks (internal/rtc/mediatrack.go) forward their packets to
-- that port. The HTTP API (internal/api) creates users, takes logins, shows and updates streams. The
-- bot (internal/bot) is a client that broadcasts a file. cmd/server, cmd/ws, cmd/transcode and cmd/bot
-- are the processes.
--
-- Files.
--   Common: lists, association lists, results, texts.
--   Config: internal/config/config.go.
--   Core/IdPartition, Core/Images, Core/Uploads: the directories, paths and uploads of images,
--     internal/core/image.go, stream_image.go, user_profile_image.go and their stores.
--   Core/Sessions: internal/core/sessions_repository.go. Core/Users: user.go and user_repository.go.
--   Eventbus/Rpc, Json, Encoding, Decoding: internal/eventbus/rpc, the messages and their JSON.
--   Eventbus/Bus: internal/eventbus/eventbus.go. Eventbus/Router: router.go, which Service/Routing
--     joins to the session manager.
--   Rtc/Ports, MediaEngine, Transport, Participant, Room: the files of internal/rtc of these names.
--     Rtc/Forward: the loop of mediatrack.go, whose other code is in Rtc/Participant. Rtc/Node: what
--     the participants of one process share. Rtc/Ownership: how many participants hold a port, and how
--     many ports one holds. Rtc/Tables: what keeps the codec table.
--   Service: the session manager. Service/Events: the messages and the callbacks of the peer
--     connections, as steps. Service/Capacity: the ports that are held at once. Service/Codecs: the
--     codec table over time.
--   Transcode: internal/transcode/daemon.go; Transcode/Running its New, Run and Stop, and
--     Transcode/Cluster several daemons. Service/Transcoding joins them to the session manager.
--   Api/Auth: internal/api/auth_middleware.go. Api/App: app.go and the order of its middleware.
--     Api/Handlers: the handlers of app.go and streams_handler.go. Api/Response: what they
--     write. Api/Access: logger_middleware.go.
--   Bot: internal/bot/bot.go, with its signalling and its frame loop, and cmd/bot/main.go.
--   Commands: the environment and the shutdown of the processes.
--   Tests: the theorems at concrete inputs.
--
-- Correspondence. A function of the source is a function of the same name in lower case with
-- underscores. A method that changes its receiver returns it; a Go error is `err`; a nil dereference
-- or a write to a nil map is `panic`, after which the process is gone (or, in an HTTP handler, the
-- request). A map is an association list; where Go visits a map in an unspecified order, the order is
-- an argument. A lock makes a handler one step: the handlers run one after the other in the order of
-- the events, the callbacks of a peer connection between them. A participant is its position in the
-- list of all that have been made, since a callback can still run on one that its room has lost. A
-- track is made by one callback and dialled by another, since its participant may be closed between.
--
-- Parameters. The peer connection, the media engine, RTP, Redis, NATS, PostgreSQL, the router of HTTP
-- paths, the operating system and the spelling of JSON, base64 and gzip are not under the repository.
-- What they answer is an argument (`PeerApi`, `EngineApi`, `RtpApi`, `Redis`, `JsonText`, `Codec`,
-- `Sql`, `Replies`, `DiskReplies`). What is assumed of them is a record of laws: `PeerLaws` says that
-- a remote description that was accepted is there from then on and that a candidate does not change
-- it, `JsonTextLaws` that what was encoded can be decoded, `RedisLaws` that a message is delivered at
-- most once, and `RtpLaws` that the text of a packet bears its payload type.
--
-- Bounds. The decimal digits of an ID are written with fuel 20, where an int64 has 19 digits at
-- most. The transcoder ports are those of the configuration. The packets, the frames, the messages
-- and the signals that a loop reads are lists, so each loop is structural recursion.
--
-- Not modelled: the pages and the wiring of the processes; metrics but the session gauge; the handlers
-- of the WebSocket server and the stream allocator, which only log; the pace, the RTCP reader and the
-- exit of the bot; the web client.
pub mod Api
pub mod Bot
pub mod Commands
pub mod Common
pub mod Config
pub mod Core
pub mod Eventbus
pub mod Rtc
pub mod Service
pub mod Tests
pub mod Transcode
