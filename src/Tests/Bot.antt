-- ===== src/Tests/Bot.antt =====
-- The bot while it connects.
use livelook_sfu.Common.{◌≡◌, refl, ◌↔◌, map, some, [], ◌∷◌, ◌++◌, ok, panic}
use livelook_sfu.Eventbus.Rpc.{Rpc, new_ice_candidate_rpc, publisher_target}
use livelook_sfu.Eventbus.Encoding.{to_json}
use livelook_sfu.Eventbus.Encoding.Reading.{json_codec}
use livelook_sfu.Eventbus.Encoding.RoundTrip.{rpc_from_reader-to_json}
use livelook_sfu.Rtc.Transport.{flush_candidates}
use livelook_sfu.Rtc.Transport.Laws.{candidate, description, feed}
use livelook_sfu.Bot.{Bot, unconnected}
use livelook_sfu.Bot.Signaling.{read_rpc, read_rpcs}
use livelook_sfu.Bot.Signaling.Laws.{ForConnection, HasConnection, read_rpc-panics}
use livelook_sfu.Bot.Signaling.Delivery.{rpc_of_signal, bot_signals_delivered}
use livelook_sfu.Tests.Fixtures.{FakePeer, fresh_peer, fake_peers, fake-PeerLaws, answer, ice}
use livelook_sfu.Tests.Bus.{spelling, spelling_laws}

abbrev first_candidate : Rpc
first_candidate = new_ice_candidate_rpc (ice "1") publisher_target

abbrev joining : Bot FakePeer
joining = unconnected "localhost:3001"

read_rpc-panics_example :
    ((read_rpc fake_peers (json_codec spelling) (ok (to_json spelling first_candidate)) joining).0
      ≡ panic)
    ↔ (ForConnection first_candidate × (HasConnection joining.peer_connection → ⊥))
unfolding new_ice_candidate_rpc
read_rpc-panics_example =
    read_rpc-panics fake_peers (json_codec spelling) (to_json spelling first_candidate)
      first_candidate joining
      (rpc_from_reader-to_json spelling spelling_laws first_candidate (refl, tt))

abbrev waiting : Bot FakePeer
waiting = record joining { peer_connection = some fresh_peer; joins = 1 }

bot_signals_delivered_example :
    read_rpcs fake_peers
      (json_codec spelling)
      (map
        (λ s. ok (to_json spelling (rpc_of_signal s)))
        (map candidate (ice "1" ∷ ice "2" ∷ [])
          ++ description answer ∷ map candidate (ice "3" ∷ [])))
      waiting
    ≡ (
      ok tt,
      record waiting {
        peer_connection = some (
            feed fake_peers
              (record fresh_peer { remote = some answer })
              ((ice "1" ∷ ice "2" ∷ []) ++ (ice "3" ∷ [])));
        pending_candidates = [];
      },
    )
unfolding flush_candidates
bot_signals_delivered_example =
    bot_signals_delivered fake_peers spelling spelling_laws fake-PeerLaws waiting fresh_peer answer
      (ice "1" ∷ ice "2" ∷ []) (ice "3" ∷ []) refl refl refl refl refl (tt, (tt, (refl, (tt, tt))))
