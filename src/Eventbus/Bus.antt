-- ===== src/Eventbus/Bus.antt =====
-- internal/eventbus/eventbus.go: the channels of Redis that carry RPCs to the users, and messages of
-- the users to the server. Redis is a parameter.
pub mod Delivery
use Prim.Native.String.{◌++◌}
use livelook_sfu.Common.{
  ℕ, ◌≡◌, Bool, Option, none, some, List, [], ◌∷◌, snoc, String, ◌⊎◌, Outcome, ok, err, panic,
  Error,
}
use livelook_sfu.Eventbus.Json.{Json}
use livelook_sfu.Eventbus.Rpc.{UserSessionId, Rpc}
use livelook_sfu.Eventbus.Decoding.{ServerMessage}
use livelook_sfu.Eventbus.Encoding.{JsonText, to_json, message_json}

-- `type Channel string` and its constants.
abbrev pub Channel : Type 0
Channel = String

abbrev pub client_messages : Channel
client_messages = "client_messages"

abbrev pub server_messages : Channel
server_messages = "server_messages"

unfoldable pub build_channel : Channel → UserSessionId → String
build_channel c user_id = (c ++ ":") ++ user_id

-- The calls of go-redis on the link to Redis. A subscription is known by a number; `inbox` is what
-- its `Channel()` has been handed so far, `topic` the channel that it is subscribed to.
pub record Redis (Link Bytes : Type 0) : Type 0 where
  pub publish : String → Bytes → Link → Option Error × Link
  pub subscribe : String → Link → ℕ × Link
  pub receive : ℕ → Link → Option Error × Link
  pub close_subscription : ℕ → Link → Option Error × Link
  pub topic : ℕ → Link → Option String
  pub inbox : ℕ → Link → List Bytes

-- What Redis documents of PUBLISH and SUBSCRIBE: delivery is at most once, so a subscription of the
-- channel is handed a message once or, when it is lost, not at all; one of another channel is not handed
-- it. A subscription that is confirmed is one, and new.
pub record RedisLaws {Link Bytes : Type 0} (redis : Redis Link Bytes) : Type 0 where
  pub topic-publish :
      (channel : String) (text : Bytes) (link : Link) (i : ℕ)
      → redis.topic i (redis.publish channel text link).1 ≡ redis.topic i link
  pub inbox-publish :
      (channel : String) (text : Bytes) (link : Link) (i : ℕ) (topic : String)
      → redis.topic i link ≡ some topic
      → (redis.inbox i (redis.publish channel text link).1 ≡ redis.inbox i link)
        ⊎ ((channel ≡ topic)
            × (redis.inbox i (redis.publish channel text link).1 ≡ snoc (redis.inbox i link) text))
  pub topic-subscribe :
      (channel : String) (link : Link)
      → let waiting = redis.subscribe channel link in
        (redis.receive waiting.0 waiting.1).0 ≡ none
        → redis.topic waiting.0 (redis.receive waiting.0 waiting.1).1 ≡ some channel
  pub inbox-subscribe :
      (channel : String) (link : Link)
      → let waiting = redis.subscribe channel link in
        (redis.receive waiting.0 waiting.1).0 ≡ none
        → redis.inbox waiting.0 (redis.receive waiting.0 waiting.1).1 ≡ []

abbrev pub subscription_of : {Link : Type 0} → ℕ → Option Error × Link → Outcome ℕ × Link
subscription_of i (none, link) = (ok i, link)
subscription_of i (some e, link) = (err e, link)

module _ {Link Bytes : Type 0} (redis : Redis Link Bytes) where
  -- `Subscribe`, and the wait for its confirmation.
  unfoldable pub subscribed : ℕ × Link → Outcome ℕ × Link
  subscribed (i, link) = subscription_of i (redis.receive i link)

  unfoldable pub subscribe_client : UserSessionId → Link → Outcome ℕ × Link
  unfolding build_channel subscribed
  subscribe_client user_id link =
      subscribed (redis.subscribe (build_channel client_messages user_id) link)

  unfoldable pub subscribe_server : Link → Outcome ℕ × Link
  unfolding subscribed
  subscribe_server link = subscribed (redis.subscribe server_messages link)

  -- `Subscription.Close`
  unfoldable pub subscription_close : ℕ → Link → Option Error × Link
  subscription_close i link = redis.close_subscription i link

module _ {Link Bytes : Type 0} (redis : Redis Link Bytes) (t : JsonText Bytes) where
  -- `json.Marshal` fails on none of these structs.
  unfoldable pub bus_publish_client : UserSessionId → Rpc → Link → Option Error × Link
  unfolding build_channel to_json
  bus_publish_client user_id r link =
      redis.publish (build_channel client_messages user_id) (to_json t r) link

  unfoldable pub bus_publish_server : ServerMessage Bytes → Link → Option Error × Link
  unfolding message_json
  bus_publish_server message link =
      redis.publish server_messages (t.write (message_json t message)) link
