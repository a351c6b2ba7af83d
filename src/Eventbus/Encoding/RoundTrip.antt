-- ===== src/Eventbus/Encoding/RoundTrip.antt =====
-- What `ToJSON` writes is read back.
use livelook_sfu.Common.{
  ℕ, ◌<◌, ◌≡◌, refl, ◌∙◌, Bool-cases, ◌⊎◌, inl, inr, Option, none, some, String, ◌==◌, string_eq,
  Outcome, ok, err, panic, equal_fold, arith,
}
use livelook_sfu.Eventbus.Json.{
  Json, null, obj, then_fill, Members, set_map, set_pointer, set_uint16, read_struct, value_of,
  map_of,
}
use livelook_sfu.Eventbus.Rpc.{
  UserSessionId, JsonRpcHead, IceCandidateParams, SdpParams, SubscribeParams, Rpc, join_rpc,
  ice_candidate_rpc, sdp_rpc, close_session_rpc, start_stream_rpc, stop_stream_rpc,
  subscribe_stream_rpc, subscribe_stream_cancel_rpc, Method, json_rpc_version, join_method,
  ice_candidate_method, sdp_offer_method, sdp_answer_method, close_session_method,
  publish_stream_method, publish_stream_stop_method, subscribe_stream_method,
  subscribe_stream_cancel_method, new_join_rpc, new_ice_candidate_rpc, new_sdp_answer_rpc,
  new_sdp_offer_rpc, new_close_session_rpc, new_start_stream_rpc, new_stop_stream_rpc,
  new_subscribe_stream_rpc, new_subscribe_stream_cancel_rpc,
}
use livelook_sfu.Eventbus.Decoding.{
  ServerMessage, corrupt_input, and_then, rpc_of, rpc_from_reader, parse_rpc, unpack_offer,
}
use livelook_sfu.Eventbus.Encoding.{
  JsonText, JsonTextLaws, with_params, pointer_json, index_json, ice_json, sdp_json, subscribe_json,
  to_json, message_json,
}
use livelook_sfu.Eventbus.Encoding.Reading.{json_codec}

abbrev HeadOf : Method → JsonRpcHead → Type 0
HeadOf m h = h ≡ record { version = json_rpc_version; method = m }

-- A line index is a uint16.
abbrev pub Fits : Option ℕ → Type 0
Fits none = Unit {0}
Fits (some n) = n < 65536

-- The RPCs as their constructors make them, with a line index that is a uint16, an SDP type that
-- pion knows, and an offer that is not base64 itself.
abbrev pub Readable : {Bytes : Type 0} → JsonText Bytes → Rpc → Type 0
Readable t (join_rpc h) = HeadOf join_method h
Readable t (ice_candidate_rpc h p) =
    HeadOf ice_candidate_method h × Fits p.candidate_init.sdp_m_line_index
Readable t (sdp_rpc h p) =
    (t.read_sdp_type p.session_description.sdp_type ≡ ok p.session_description.sdp_type)
    × (HeadOf sdp_answer_method h
        ⊎ (HeadOf sdp_offer_method h × (t.decode_base64 p.session_description.sdp ≡ corrupt_input)))
Readable t (close_session_rpc h) = HeadOf close_session_method h
Readable t (start_stream_rpc h) = HeadOf publish_stream_method h
Readable t (stop_stream_rpc h) = HeadOf publish_stream_stop_method h
Readable t (subscribe_stream_rpc h p) = HeadOf subscribe_stream_method h
Readable t (subscribe_stream_cancel_rpc h p) = HeadOf subscribe_stream_cancel_method h

then_fill_ok {ℓ} : {A : Type ℓ} (x : Outcome A) → then_fill x ok ≡ x
then_fill_ok (ok a) = refl
then_fill_ok (err e) = refl
then_fill_ok panic = refl

read-pointer : (x : Option String) → set_pointer (value_of (pointer_json x)) ≡ ok x
unfolding value_of
read-pointer none = refl
read-pointer (some s) = refl

read-index : (x : Option ℕ) → Fits x → set_uint16 (value_of (index_json x)) ≡ ok x
unfolding value_of
read-index none h = refl
read-index (some n) h = ground arith

module _ {Bytes : Type 0} (t : JsonText Bytes) (laws : JsonTextLaws t) where
  decode-with_params :
      (h : JsonRpcHead) (params : Json)
      → (json_codec t).decode_json_rpc (t.write (with_params h params))
        ≡ and_then (set_map params none) (λ m. ok (record { head = h; rpc_params = m }))
  unfolding json_codec read_struct equal_fold
  decode-with_params h params = rw (laws.read_first-write) (then_fill_ok _)

  read-ice :
      (p : IceCandidateParams)
      → Fits p.candidate_init.sdp_m_line_index
      → (json_codec t).unmarshal_ice (t.write (value_of (ice_json p))) ≡ ok p
  unfolding json_codec read_struct equal_fold ice_json map_of
  read-ice p fits = rw (laws.read-write) (
      rw (read-index p.candidate_init.sdp_m_line_index fits) (
        rw (read-pointer p.candidate_init.sdp_mid)
          (rw (read-pointer p.candidate_init.username_fragment) refl)))

  read-sdp :
      (p : SdpParams)
      → t.read_sdp_type p.session_description.sdp_type ≡ ok p.session_description.sdp_type
      → (json_codec t).unmarshal_sdp (t.write (value_of (sdp_json p))) ≡ ok p
  unfolding json_codec read_struct equal_fold sdp_json map_of
  read-sdp p known = rw (laws.read-write) (rw known refl)

  read-subscribe :
      (p : SubscribeParams)
      → (json_codec t).unmarshal_subscribe (t.write (value_of (subscribe_json p))) ≡ ok p
  unfolding json_codec read_struct equal_fold subscribe_json map_of
  read-subscribe p = rw (laws.read-write) refl

  -- The switch on the method, for params that are null or an object.
  from_reader-null :
      (h : JsonRpcHead)
      → rpc_from_reader (json_codec t) (t.write (with_params h null))
        ≡ rpc_of (json_codec t) h.method (t.write null)
  unfolding rpc_from_reader json_codec map_of
  from_reader-null h = rw (decode-with_params h null) refl

  from_reader-obj :
      (h : JsonRpcHead) (m : Members)
      → rpc_from_reader (json_codec t) (t.write (with_params h (obj m)))
        ≡ rpc_of (json_codec t) h.method (t.write (value_of (obj m)))
  unfolding rpc_from_reader json_codec map_of
  from_reader-obj h m = rw (decode-with_params h (obj m)) refl

  from_reader-ice :
      (h : JsonRpcHead) (p : IceCandidateParams)
      → HeadOf ice_candidate_method h
      → Fits p.candidate_init.sdp_m_line_index
      → rpc_from_reader (json_codec t) (t.write (with_params h (ice_json p)))
        ≡ ok (ice_candidate_rpc h p)
  unfolding rpc_of new_ice_candidate_rpc ice_json
  from_reader-ice h p e fits = from_reader-obj h _ ∙ rw e (rw (read-ice p fits) refl)

  from_reader-answer :
      (h : JsonRpcHead) (p : SdpParams)
      → HeadOf sdp_answer_method h
      → t.read_sdp_type p.session_description.sdp_type ≡ ok p.session_description.sdp_type
      → rpc_from_reader (json_codec t) (t.write (with_params h (sdp_json p))) ≡ ok (sdp_rpc h p)
  unfolding rpc_of new_sdp_answer_rpc sdp_json
  from_reader-answer h p e known = from_reader-obj h _ ∙ rw e (rw (read-sdp p known) refl)

  plain_offer :
      (p : SdpParams)
      → t.decode_base64 p.session_description.sdp ≡ corrupt_input
      → unpack_offer (json_codec t) p ≡ ok (new_sdp_offer_rpc p.session_description p.target)
  unfolding json_codec
  plain_offer p plain = elim (Bool-cases (p.session_description.sdp == "")) [
    | inl e ↦ rw e refl
    | inr e ↦ rw e (rw plain refl)
  ]

  from_reader-offer :
      (h : JsonRpcHead) (p : SdpParams)
      → HeadOf sdp_offer_method h
      → t.read_sdp_type p.session_description.sdp_type ≡ ok p.session_description.sdp_type
      → t.decode_base64 p.session_description.sdp ≡ corrupt_input
      → rpc_from_reader (json_codec t) (t.write (with_params h (sdp_json p))) ≡ ok (sdp_rpc h p)
  unfolding rpc_of new_sdp_offer_rpc sdp_json
  from_reader-offer h p e known plain =
      from_reader-obj h _ ∙ rw e (rw (read-sdp p known) (plain_offer p plain))

  from_reader-subscribe :
      (h : JsonRpcHead) (p : SubscribeParams)
      → HeadOf subscribe_stream_method h
      → rpc_from_reader (json_codec t) (t.write (with_params h (subscribe_json p)))
        ≡ ok (subscribe_stream_rpc h p)
  unfolding rpc_of new_subscribe_stream_rpc subscribe_json
  from_reader-subscribe h p e = from_reader-obj h _ ∙ rw e (rw (read-subscribe p) refl)

  from_reader-subscribe_cancel :
      (h : JsonRpcHead) (p : SubscribeParams)
      → HeadOf subscribe_stream_cancel_method h
      → rpc_from_reader (json_codec t) (t.write (with_params h (subscribe_json p)))
        ≡ ok (subscribe_stream_cancel_rpc h p)
  unfolding rpc_of new_subscribe_stream_cancel_rpc subscribe_json
  from_reader-subscribe_cancel h p e = from_reader-obj h _ ∙ rw e (rw (read-subscribe p) refl)

  -- An RPC that is readable is read from what `ToJSON` writes of it.
  pub rpc_from_reader-to_json :
      (r : Rpc) → Readable t r → rpc_from_reader (json_codec t) (to_json t r) ≡ ok r
  unfolding to_json rpc_of new_join_rpc new_close_session_rpc new_start_stream_rpc
      new_stop_stream_rpc
  rpc_from_reader-to_json (join_rpc h) e = from_reader-null h ∙ rw e refl
  rpc_from_reader-to_json (ice_candidate_rpc h p) (e, fits) = from_reader-ice h p e fits
  rpc_from_reader-to_json (sdp_rpc h p) (known, inl e) = from_reader-answer h p e known
  rpc_from_reader-to_json (sdp_rpc h p) (known, inr (e, plain)) =
      from_reader-offer h p e known plain
  rpc_from_reader-to_json (close_session_rpc h) e = from_reader-null h ∙ rw e refl
  rpc_from_reader-to_json (start_stream_rpc h) e = from_reader-null h ∙ rw e refl
  rpc_from_reader-to_json (stop_stream_rpc h) e = from_reader-null h ∙ rw e refl
  rpc_from_reader-to_json (subscribe_stream_rpc h p) e = from_reader-subscribe h p e
  rpc_from_reader-to_json (subscribe_stream_cancel_rpc h p) e = from_reader-subscribe_cancel h p e

  read-message :
      (m : ServerMessage Bytes)
      → (json_codec t).unmarshal_server_message (t.write (message_json t m)) ≡ ok m
  unfolding json_codec read_struct equal_fold message_json
  read-message m = rw (laws.read-write) (rw (laws.decode-encode) refl)

  -- A message of the server channel, written by `PublishServer` with an RPC that is readable, is
  -- parsed by the router as that RPC of that user.
  pub parse_rpc-message_json :
      (user : UserSessionId) (r : Rpc)
      → Readable t r
      → parse_rpc
          (json_codec t)
          (t.write (message_json t (record { sender = user; message = to_json t r })))
        ≡ ok (user, r)
  unfolding parse_rpc
  parse_rpc-message_json user r h =
      rw (read-message (record { sender = user; message = to_json t r }))
        (rw (rpc_from_reader-to_json r h) refl)
