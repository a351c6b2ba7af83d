-- ===== src/Eventbus/Bus/Delivery.antt =====
-- Who receives what is published on the channels of internal/eventbus/eventbus.go.
use Prim.Native.String as Text
use mathlib.Core.List.{append_assoc, append-nil}
use text.Mathlib.TextLemmas.{append_cancel_left, cons-append}
use livelook_sfu.Common.{
  ℕ, ◌≡◌, ◌≢◌, refl, sym, ap, subst, ◌∙◌, Bool, true, false, ◌⊎◌, inl, inr, codes, Option, none,
  some, List, [], ◌∷◌, ◌++◌, snoc, map, All, ◌==◌, string_eq, string_beq_iff, if◌then◌else◌, ok,
  Error, arith,
}
use livelook_sfu.Eventbus.Rpc.{UserSessionId, Rpc}
use livelook_sfu.Eventbus.Decoding.{ServerMessage, rpc_from_reader}
use livelook_sfu.Eventbus.Encoding.{JsonText, JsonTextLaws, to_json}
use livelook_sfu.Eventbus.Encoding.Reading.{json_codec}
use livelook_sfu.Eventbus.Encoding.RoundTrip.{Readable, rpc_from_reader-to_json}
use livelook_sfu.Eventbus.Bus.{
  client_messages, server_messages, build_channel, Redis, RedisLaws, subscribe_client,
  bus_publish_client, bus_publish_server, subscription_of,
}

-- The channels of two users are the same only where the users are.
build_channel-injective :
    (u v : UserSessionId)
    → build_channel client_messages u ≡ build_channel client_messages v
    → u ≡ v
unfolding build_channel
build_channel-injective u v h = append_cancel_left "client_messages:" u v h

first_code : List ℕ → ℕ
first_code [] = 0
first_code (c ∷ cs) = c

server-ne-client : (u : UserSessionId) → server_messages ≢ build_channel client_messages u
unfolding build_channel first_code
server-ne-client u h =
    let cons : server_messages ≡ Text.◌∷◌ "c" (Text.◌++◌ "lient_messages:" u) =
      h ∙ cons-append "c" "lient_messages:" u in
    let differ : ◌≡◌ {A = ℕ} b's' b'c' = ap (λ s. first_code (codes s)) cons in absurd (omega arith)

subscription_of-ok :
    {Link : Type 0} (k i : ℕ) (x : Option Error × Link) (link : Link)
    → subscription_of k x ≡ (ok i, link)
    → (x.0 ≡ none) × (k ≡ i) × (x.1 ≡ link)
subscription_of-ok k i (none, l) link h = (refl, cc, cc)
subscription_of-ok k i (some e, l) link h = absurd (cc h)

-- What is published by the server process: an RPC to a user, or a message of a user to the server.
pub data Publication (Bytes : Type 0) : Type 0 where
  to_user : UserSessionId → Rpc → Publication Bytes
  to_server : ServerMessage Bytes → Publication Bytes

-- The RPCs of one user among them.
abbrev pub rpcs_of : {Bytes : Type 0} → UserSessionId → List (Publication Bytes) → List Rpc
rpcs_of user [] = []
rpcs_of user (to_user u r ∷ rest) = if u == user then r ∷ rpcs_of user rest else rpcs_of user rest
rpcs_of user (to_server m ∷ rest) = rpcs_of user rest

module _ {Link Bytes : Type 0} (redis : Redis Link Bytes) (t : JsonText Bytes) where
  abbrev pub publication : Publication Bytes → Link → Option Error × Link
  publication (to_user u r) link = bus_publish_client redis t u r link
  publication (to_server m) link = bus_publish_server redis t m link

  -- One after the other.
  abbrev pub publications : List (Publication Bytes) → Link → Link
  publications [] link = link
  publications (p ∷ rest) link = publications rest (publication p link).1

-- Some of a list, in their order and each as often at most.
pub data Subsequence {A : Type 0} : List A → List A → Type 0 where
  nothing : Subsequence [] []
  lost : {xs ys : List A} (y : A) → Subsequence xs ys → Subsequence xs (y ∷ ys)
  taken : {xs ys : List A} (y : A) → Subsequence xs ys → Subsequence (y ∷ xs) (y ∷ ys)

Subsequence-All :
    {A : Type 0} (P : A → Type 0) {xs ys : List A} → Subsequence xs ys → All P ys → All P xs
Subsequence-All P nothing h = tt
Subsequence-All P (lost y s) h = Subsequence-All P s h.1
Subsequence-All P (taken y s) h = (h.0, Subsequence-All P s h.1)

Subsequence-if :
    {A : Type 0} (b : Bool) (y : A) {xs ys : List A}
    → Subsequence xs ys
    → Subsequence xs (if b then y ∷ ys else ys)
Subsequence-if true y s = lost y s
Subsequence-if false y s = s

module _ {Link Bytes : Type 0} (redis : Redis Link Bytes) (t : JsonText Bytes)
    (laws : RedisLaws redis) (user : UserSessionId) where
  publication-topic :
      (p : Publication Bytes) (link : Link) (i : ℕ)
      → redis.topic i (publication redis t p link).1 ≡ redis.topic i link
  unfolding bus_publish_client bus_publish_server
  publication-topic (to_user u r) link i = laws.topic-publish _ _ link i
  publication-topic (to_server m) link i = laws.topic-publish _ _ link i

  -- What one publication does to the subscription of a user.
  publication-inbox :
      (p : Publication Bytes) (link : Link) (i : ℕ)
      → redis.topic i link ≡ some (build_channel client_messages user)
      → (redis.inbox i (publication redis t p link).1 ≡ redis.inbox i link)
        ⊎ ((r : Rpc) × (p ≡ to_user user r)
            × (redis.inbox i (publication redis t p link).1
                ≡ snoc (redis.inbox i link) (to_json t r)))
  unfolding bus_publish_client bus_publish_server
  publication-inbox (to_user u r) link i on = elim (laws.inbox-publish _ _ link i _ on) [
    | inl same ↦ inl same
    | inr (channel, handed) ↦
        inr (r, ap (λ v. to_user v r) (build_channel-injective u user channel), handed)
  ]
  publication-inbox (to_server m) link i on = elim (laws.inbox-publish _ _ link i _ on) [
    | inl same ↦ inl same
    | inr (channel, handed) ↦ absurd (server-ne-client user channel)
  ]

  abbrev Received : Link → ℕ → List Bytes → List Rpc → Type 0
  Received link i before sent =
      (rs : List Rpc) × Subsequence rs sent × (redis.inbox i link ≡ before ++ map (to_json t) rs)

  lost_one :
      (p : Publication Bytes) (rest : List (Publication Bytes)) (rs : List Rpc)
      → Subsequence rs (rpcs_of user rest)
      → Subsequence rs (rpcs_of user (p ∷ rest))
  lost_one (to_user u r) rest rs s = Subsequence-if (u == user) r s
  lost_one (to_server m) rest rs s = s

  taken_one :
      (p : Publication Bytes) (r : Rpc) (rest : List (Publication Bytes)) (rs : List Rpc)
      → p ≡ to_user user r
      → Subsequence rs (rpcs_of user rest)
      → Subsequence (r ∷ rs) (rpcs_of user (p ∷ rest))
  taken_one p r rest rs e s =
      subst (λ x. Subsequence (r ∷ rs) (rpcs_of user (x ∷ rest))) (sym e)
        (subst (λ b. Subsequence (r ∷ rs) (if b then r ∷ rpcs_of user rest else rpcs_of user rest))
          (sym ((string_beq_iff user user).1 refl)) (taken r s))

  publications-Received :
      (ps : List (Publication Bytes)) (link : Link) (i : ℕ)
      → redis.topic i link ≡ some (build_channel client_messages user)
      → Received (publications redis t ps link) i (redis.inbox i link) (rpcs_of user ps)
  publications-Received [] link i on = ([], nothing, sym (append-nil _))
  publications-Received (p ∷ rest) link i on =
      let link' = (publication redis t p link).1 in
      let (rs, s, e) = publications-Received rest link' i (publication-topic p link i ∙ on) in
      elim (publication-inbox p link i on) [
        | inl same ↦ (rs, lost_one p rest rs s, e ∙ ap (λ texts. texts ++ map (to_json t) rs) same)
        | inr (r, is, handed) ↦ (
          r ∷ rs,
          taken_one p r rest rs is s,
          e
              ∙ ap (λ texts. texts ++ map (to_json t) rs) handed
              ∙ append_assoc (redis.inbox i link) (to_json t r ∷ []) (map (to_json t) rs),
        )
      ]

  -- A subscription that `SubscribeClient` has returned is confirmed, and empty.
  subscribed-client :
      (link link' : Link) (i : ℕ)
      → subscribe_client redis user link ≡ (ok i, link')
      → (redis.topic i link' ≡ some (build_channel client_messages user))
        × (redis.inbox i link' ≡ [])
  unfolding subscribe_client
  subscribed-client link link' i h =
      let channel = build_channel client_messages user in
      let waiting = redis.subscribe channel link in
      let (quiet, same, after) =
        subscription_of-ok waiting.0 i (redis.receive waiting.0 waiting.1) link' h in
      (
        subst (λ l. redis.topic i l ≡ some channel) after
            (subst (λ k. redis.topic k (redis.receive waiting.0 waiting.1).1 ≡ some channel) same
              (laws.topic-subscribe channel link quiet)),
        subst (λ l. redis.inbox i l ≡ []) after
            (subst (λ k. redis.inbox k (redis.receive waiting.0 waiting.1).1 ≡ []) same
              (laws.inbox-subscribe channel link quiet)),
      )

texts_read :
    {Bytes : Type 0} (t : JsonText Bytes) (laws : JsonTextLaws t) (rs : List Rpc)
    → All (Readable t) rs
    → map (rpc_from_reader (json_codec t)) (map (to_json t) rs) ≡ map ok rs
texts_read t laws [] h = refl
texts_read t laws (r ∷ rs) (h, hs) =
    rw (rpc_from_reader-to_json t laws r h) (ap (λ xs. ok r ∷ xs) (texts_read t laws rs hs))

-- Once `SubscribeClient` has returned, what the subscription is handed are RPCs that have been published
-- to its user since then: in the order of their publication, each once at most, since Redis may lose
-- some, and each is read as the RPC that was published. It is handed none of another user, and no
-- message to the server. The RPCs to the user are readable.
pub received_rpcs :
    {Link Bytes : Type 0} (redis : Redis Link Bytes) (t : JsonText Bytes)
    (redis_laws : RedisLaws redis) (text_laws : JsonTextLaws t) (user : UserSessionId)
    (ps : List (Publication Bytes)) (link link' : Link) (i : ℕ)
    → subscribe_client redis user link ≡ (ok i, link')
    → All (Readable t) (rpcs_of user ps)
    → (rs : List Rpc) × Subsequence rs (rpcs_of user ps)
      × (map (rpc_from_reader (json_codec t)) (redis.inbox i (publications redis t ps link'))
          ≡ map ok rs)
received_rpcs redis t redis_laws text_laws user ps link link' i h readable =
    let (on, empty) = subscribed-client redis t redis_laws user link link' i h in
    let (rs, s, e) = publications-Received redis t redis_laws user ps link' i on in
    (
      rs,
      s,
      ap (map (rpc_from_reader (json_codec t)))
            (e ∙ ap (λ texts. texts ++ map (to_json t) rs) empty)
          ∙ texts_read t text_laws rs (Subsequence-All (Readable t) s readable),
    )
