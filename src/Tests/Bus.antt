-- ===== src/Tests/Bus.antt =====
-- The event bus over a broker that keeps its subscriptions in a list.
use livelook_sfu.Common.{
  ℕ, zero, suc, ◌≡◌, refl, ap, ◌∙◌, ◌⊎◌, inl, inr, Bool-cases, string_beq_iff, Option, none, some,
  List, [], ◌∷◌, snoc, map, length, get_elem?, get_elem?-length, String, nat_beq, ◌==◌, string_eq,
  if◌then◌else◌, Outcome, ok, arith,
}
use livelook_sfu.Eventbus.Json.{Json}
use livelook_sfu.Eventbus.Rpc.{new_join_rpc, new_ice_candidate_rpc, new_sdp_offer_rpc, Rpc}
use livelook_sfu.Eventbus.Decoding.{Base64Reply, decoded, corrupt_input, parse_rpc, rpc_from_reader}
use livelook_sfu.Eventbus.Encoding.{JsonText, JsonTextLaws, to_json, message_json}
use livelook_sfu.Eventbus.Encoding.Reading.{json_codec}
use livelook_sfu.Eventbus.Encoding.RoundTrip.{parse_rpc-message_json}
use livelook_sfu.Eventbus.Bus.{
  Redis, RedisLaws, subscribe_client, bus_publish_client, bus_publish_server,
}
use livelook_sfu.Eventbus.Bus.Delivery.{
  to_user, to_server, publications, Subsequence, received_rpcs,
}
use livelook_sfu.Tests.Encoding.{write_value, read_value, size, parsed_value}
use livelook_sfu.Tests.Encoding.Spelling.{read_value-write_value}
use Prim.Native.Char.{code}

abbrev bytes_text : String → Base64Reply String
bytes_text String.[] = corrupt_input
bytes_text (String.◌∷◌ c s) = if nat_beq (code c) b'+' then decoded s else corrupt_input

abbrev read_spelling : String → Outcome Json
read_spelling s = parsed_value (read_value (suc (size s)) s)

abbrev pub spelling : JsonText String
spelling = record {
  write = λ v. write_value v String.[];
  read = read_spelling;
  read_first = read_spelling;
  encode_base64 = λ s. String.◌∷◌ "+" s;
  decode_base64 = bytes_text;
  of_bytes = λ b. String.[];
  gzip_reader = λ s. ok s;
  read_all = λ s. ok s;
  read_sdp_type = λ s. ok s;
}

pub spelling_laws : JsonTextLaws spelling
spelling_laws = record {
  read-write = λ v. ap parsed_value (read_value-write_value v);
  read_first-write = λ v. ap parsed_value (read_value-write_value v);
  decode-encode = λ s. refl;
}

-- The channel of a subscription, and what it has been handed.
abbrev Subscriptions : Type 0
Subscriptions = List (String × List String)

abbrev hand : String → String → String × List String → String × List String
hand channel text (topic, texts) = (topic, if channel == topic then snoc texts text else texts)

abbrev topic_in : Option (String × List String) → Option String
topic_in none = none
topic_in (some (topic, texts)) = some topic

abbrev inbox_in : Option (String × List String) → List String
inbox_in none = []
inbox_in (some (topic, texts)) = texts

abbrev broker : Redis Subscriptions String
broker = record {
  publish = λ channel text link. (none, map (hand channel text) link);
  subscribe = λ channel link. (length link, snoc link (channel, []));
  receive = λ i link. (none, link);
  close_subscription = λ i link. (none, link);
  topic = λ i link. topic_in (get_elem? link i);
  inbox = λ i link. inbox_in (get_elem? link i);
}

hand-topic :
    (channel text : String) (link : Subscriptions) (i : ℕ)
    → topic_in (get_elem? (map (hand channel text) link) i) ≡ topic_in (get_elem? link i)
hand-topic channel text [] i = refl
hand-topic channel text ((topic, texts) ∷ link) zero = refl
hand-topic channel text (x ∷ link) (suc i) = hand-topic channel text link i

hand-inbox :
    (channel text : String) (link : Subscriptions) (i : ℕ) (topic : String)
    → topic_in (get_elem? link i) ≡ some topic
    → (inbox_in (get_elem? (map (hand channel text) link) i) ≡ inbox_in (get_elem? link i))
      ⊎ ((channel ≡ topic)
          × (inbox_in (get_elem? (map (hand channel text) link) i)
              ≡ snoc (inbox_in (get_elem? link i)) text))
hand-inbox channel text [] i topic h = absurd (cc h)
hand-inbox channel text ((t, texts) ∷ link) zero topic h =
    let same : t ≡ topic = cc in
    elim (Bool-cases (channel == t)) [
      | inl on ↦ inr ((string_beq_iff channel t).0 on ∙ same, rw on refl)
      | inr off ↦ inl (rw off refl)
    ]
hand-inbox channel text (x ∷ link) (suc i) topic h = hand-inbox channel text link i topic h

broker_laws : RedisLaws broker
broker_laws = record {
  topic-publish = λ channel text link i. hand-topic channel text link i;
  inbox-publish = λ channel text link i topic on. hand-inbox channel text link i topic on;
  topic-subscribe = λ channel link h. ap topic_in (get_elem?-length link (channel, []));
  inbox-subscribe = λ channel link h. ap inbox_in (get_elem?-length link (channel, []));
}

abbrev candidate : Rpc
candidate =
    new_ice_candidate_rpc
      (record {
        candidate = "candidate:1";
        sdp_mid = some "0";
        sdp_m_line_index = some 0;
        username_fragment = none;
      })
      "publisher"

abbrev plain_offer : Rpc
plain_offer = new_sdp_offer_rpc (record { sdp_type = "offer"; sdp = "v=0" }) "publisher"

parse_rpc-message_json_example :
    parse_rpc (json_codec spelling) (
      spelling.write (
        message_json spelling
          (record { sender = "alice"; message = to_json spelling plain_offer })))
    ≡ ok ("alice", plain_offer)
unfolding new_sdp_offer_rpc
parse_rpc-message_json_example =
    parse_rpc-message_json spelling spelling_laws "alice" plain_offer (refl, inr (refl, refl))

received_rpcs_example :
    (rs : List Rpc) × Subsequence rs (candidate ∷ plain_offer ∷ [])
    × (map (rpc_from_reader (json_codec spelling)) (
          broker.inbox 0 (
            publications broker spelling
              (to_user "bob" new_join_rpc
                ∷ to_user "alice" candidate
                ∷ to_server (record { sender = "alice"; message = "+" })
                ∷ to_user "alice" plain_offer
                ∷ [])
              (("client_messages:alice", []) ∷ [])))
        ≡ map ok rs)
unfolding new_sdp_offer_rpc new_ice_candidate_rpc subscribe_client bus_publish_client
    bus_publish_server
received_rpcs_example =
    received_rpcs broker spelling broker_laws spelling_laws "alice"
      (to_user "bob" new_join_rpc
        ∷ to_user "alice" candidate
        ∷ to_server (record { sender = "alice"; message = "+" })
        ∷ to_user "alice" plain_offer
        ∷ [])
      [] (("client_messages:alice", []) ∷ []) 0 refl
      ((refl, omega arith), ((refl, inr (refl, refl)), tt))
