-- ===== src/Service/Transcoding.antt =====
-- The session manager and the transcoder daemons of internal/transcode, joined by NATS: what the
-- daemons have begun once they have handled, in the order in which they were published, the messages
-- that the participants of internal/rtc/participant.go have published.
use livelook_sfu.Common.{
  ℕ, suc, ◌<◌, ◌≡◌, refl, ap, sym, subst, ◌∙◌, true, false, none, some, List, [], ◌∷◌, snoc, length,
  ok,
}
use livelook_sfu.Eventbus.Rpc.{UserSessionId}
use livelook_sfu.Rtc.Node.{MediaDescription, TranscoderMessage, start_transcoder, stop_transcoder}
use livelook_sfu.Rtc.Room.{member}
use livelook_sfu.Transcode.{Daemon}
use livelook_sfu.Transcode.Laws.{starts_as, stops}
use livelook_sfu.Transcode.Cluster.{
  Delivery, start_delivered, stop_delivered, start_at, stop_all, deliver, deliver_all, process_runs,
  Forgotten, length-deliver_all, deliver_all-snoc, start_at-runs, stop_all-ends, stop_all-Forgotten,
}
use livelook_sfu.Service.{Manager, Setup, Replies, start_session, close_session}
use livelook_sfu.Service.Rooms.{Named}
use livelook_sfu.Service.Joining.{start_session-ok}
use livelook_sfu.Service.Closing.{close_session-ok, trackless-AllDialled}

-- What is left open: how `sdp.Marshal` spells a description, and for each start message the daemon
-- that NATS chooses and the PID that the operating system gives.
pub record Chance : Type 0 where
  pub marshal : List MediaDescription → List ℕ
  pub chosen : ℕ → ℕ
  pub pid : ℕ → ℕ

-- The delivery of the message that is published as number `i`, where the operating systems do what
-- they are asked to.
abbrev pub delivery_of : Chance → ℕ → TranscoderMessage → Delivery
delivery_of c i (start_transcoder user media) =
    start_delivered (c.chosen i) (starts_as (c.pid i))
      (ok (record { receiver = user; description = c.marshal media }))
delivery_of c i (stop_transcoder user) =
    stop_delivered (λ j. stops) (ok (record { receiver = user; description = [] }))

-- The messages of a node are newest first, the deliveries oldest first.
unfoldable pub deliveries_of : Chance → List TranscoderMessage → List Delivery
deliveries_of c [] = []
deliveries_of c (message ∷ earlier) =
    snoc (deliveries_of c earlier) (delivery_of c (length earlier) message)

-- The daemons once they have handled what a node has published.
abbrev pub after_messages : Chance → List TranscoderMessage → List Daemon → List Daemon
after_messages c messages daemons = deliver_all (deliveries_of c messages) daemons

after_messages-newest :
    (c : Chance) (message : TranscoderMessage) (earlier : List TranscoderMessage)
    (daemons : List Daemon)
    → after_messages c (message ∷ earlier) daemons
      ≡ deliver (delivery_of c (length earlier) message) (after_messages c earlier daemons)
unfolding deliveries_of
after_messages-newest c message earlier daemons =
    deliver_all-snoc (deliveries_of c earlier) (delivery_of c (length earlier) message) daemons

module _ (c : Chance) (daemons : List Daemon) (fits : (j : ℕ) → c.chosen j < length daemons)
    (user : UserSessionId) (media : List MediaDescription) (earlier : List TranscoderMessage) where
  -- The start message has the number of the messages before it.
  begun :
      process_runs
        (c.chosen (length earlier))
        (c.pid (length earlier))
        (after_messages c (start_transcoder user media ∷ earlier) daemons)
      ≡ true
  begun =
      let i = length earlier in
      ap (process_runs (c.chosen i) (c.pid i))
        (after_messages-newest c (start_transcoder user media) earlier daemons)
      ∙ start_at-runs (c.chosen i) (c.pid i) _ (after_messages c earlier daemons) (
          subst (λ n. c.chosen i < n) (sym (length-deliver_all (deliveries_of c earlier) daemons))
            (fits i))

  stopped_after :
      after_messages c (stop_transcoder user ∷ start_transcoder user media ∷ earlier) daemons
      ≡ stop_all
          (λ j. stops)
          (ok (record { receiver = user; description = [] }))
          (start_at
            (c.chosen (length earlier))
            (starts_as (c.pid (length earlier)))
            (ok (record { receiver = user; description = c.marshal media }))
            (after_messages c earlier daemons))
  stopped_after =
      after_messages-newest c (stop_transcoder user) (start_transcoder user media ∷ earlier) daemons
      ∙ ap (deliver (delivery_of c (suc (length earlier)) (stop_transcoder user)))
          (after_messages-newest c (start_transcoder user media) earlier daemons)

  ended :
      process_runs
        (c.chosen (length earlier))
        (c.pid (length earlier))
        (after_messages c (stop_transcoder user ∷ start_transcoder user media ∷ earlier) daemons)
      ≡ false
  ended =
      let i = length earlier in
      ap (process_runs (c.chosen i) (c.pid i)) stopped_after
      ∙ stop_all-ends (c.chosen i) (c.pid i) _ _ (after_messages c earlier daemons) refl

  forgotten :
      Forgotten user
        (after_messages c (stop_transcoder user ∷ start_transcoder user media ∷ earlier) daemons)
  forgotten = subst (Forgotten user) (sym stopped_after) (stop_all-Forgotten _ _)

module _ {Engine Peer : Type 0} (setup : Setup Engine Peer) (c : Chance) (daemons : List Daemon)
    (fits : (j : ℕ) → c.chosen j < length daemons) where
  -- After a join that succeeds the process of its start message runs at the daemon that NATS has
  -- chosen for it; after the session has then been closed that process does not run, and no daemon has
  -- recorded a process of the user. The daemons handle all messages in the order of their publication,
  -- the operating systems do what they are asked to, and NATS takes the stop message. Of the processes
  -- of earlier joins nothing is said.
  pub session_transcoded :
      (first second : Replies Engine Peer) (user : UserSessionId) (m : Manager Peer)
      → Named m.sessions
      → (start_session setup first user m).0 ≡ ok tt
      → second.nats_stop ≡ none
      → let joined = (start_session setup first user m).1 in
        let left = (close_session setup second user joined).1 in
        let number = length m.node.transcoder_messages in
        (process_runs
            (c.chosen number)
            (c.pid number)
            (after_messages c joined.node.transcoder_messages daemons)
          ≡ true)
        × (process_runs
              (c.chosen number)
              (c.pid number)
              (after_messages c left.node.transcoder_messages daemons)
            ≡ false)
        × Forgotten user (after_messages c left.node.transcoder_messages daemons)
  session_transcoded first second user m named joins taken =
      let n = (start_session setup first user m).1 in
      let j = start_session-ok setup first user m named joins in
      let x = j.participant in
      let earlier = m.node.transcoder_messages in
      let is_member : member j.room.room_id j.room n.node ≡ some (length m.node.participants, x) =
        ap (λ u. member u j.room n.node) j.own_room ∙ j.is_member in
      let left =
        (close_session-ok setup second user n j.room _ x j.found is_member
          (trackless-AllDialled x j.trackless)).1 in
      let messages : (close_session setup second user n).1.node.transcoder_messages
          ≡ stop_transcoder user ∷ start_transcoder user x.transcoder_sdp ∷ earlier =
        left.stopped taken
        ∙ ap (λ u. stop_transcoder u ∷ n.node.transcoder_messages) j.owner
        ∙ ap (λ ms. stop_transcoder user ∷ ms) j.announced_start in
      let i = length earlier in
      (
        ap (λ ms. process_runs (c.chosen i) (c.pid i) (after_messages c ms daemons))
              j.announced_start
            ∙ begun c daemons fits user x.transcoder_sdp earlier,
        ap (λ ms. process_runs (c.chosen i) (c.pid i) (after_messages c ms daemons)) messages
            ∙ ended c daemons fits user x.transcoder_sdp earlier,
        subst (λ ms. Forgotten user (after_messages c ms daemons)) (sym messages)
            (forgotten c daemons fits user x.transcoder_sdp earlier),
      )
