-- ===== src/Eventbus/Decoding/Laws.antt =====
-- The methods of the RPCs that internal/eventbus/rpc/rpc_methods.go decodes.
use livelook_sfu.Common.{
  ◌≡◌, refl, ◌⊎◌, inl, inr, Bool, true, false, ◌==◌, string_eq, if◌then◌else◌, Outcome, ok, err,
  panic,
}
use livelook_sfu.Eventbus.Rpc.{
  UserSessionId, Rpc, join_rpc, ice_candidate_rpc, sdp_rpc, close_session_rpc, start_stream_rpc,
  stop_stream_rpc, subscribe_stream_rpc, subscribe_stream_cancel_rpc, Method, join_method,
  ice_candidate_method, sdp_offer_method, sdp_answer_method, close_session_method,
  publish_stream_method, publish_stream_stop_method, subscribe_stream_method,
  subscribe_stream_cancel_method, new_join_rpc, new_ice_candidate_rpc, new_sdp_answer_rpc,
  new_sdp_offer_rpc, new_close_session_rpc, new_start_stream_rpc, new_stop_stream_rpc,
  new_subscribe_stream_rpc, new_subscribe_stream_cancel_rpc,
}
use livelook_sfu.Eventbus.Decoding.{
  Codec, Base64Reply, decoded, corrupt_input, base64_error, and_then, unpacked, unpack_offer,
  rpc_of, rpc_from_reader, parse_rpc,
}

-- The head of an RPC names the method of its kind.
abbrev pub Canonical : Rpc → Type 0
Canonical (join_rpc h) = h.method ≡ join_method
Canonical (ice_candidate_rpc h p) = h.method ≡ ice_candidate_method
Canonical (sdp_rpc h p) = (h.method ≡ sdp_offer_method) ⊎ (h.method ≡ sdp_answer_method)
Canonical (close_session_rpc h) = h.method ≡ close_session_method
Canonical (start_stream_rpc h) = h.method ≡ publish_stream_method
Canonical (stop_stream_rpc h) = h.method ≡ publish_stream_stop_method
Canonical (subscribe_stream_rpc h p) = h.method ≡ subscribe_stream_method
Canonical (subscribe_stream_cancel_rpc h p) = h.method ≡ subscribe_stream_cancel_method

abbrev pub Decodes : Outcome Rpc → Type 0
Decodes (ok r) = Canonical r
Decodes (err e) = Unit {0}
Decodes panic = Unit {0}

abbrev pub Parses : Outcome (UserSessionId × Rpc) → Type 0
Parses (ok (user, r)) = Canonical r
Parses (err e) = Unit {0}
Parses panic = Unit {0}

and_then-Decodes :
    {A : Type 0} (x : Outcome A) (f : A → Outcome Rpc)
    → ((a : A) → Decodes (f a))
    → Decodes (and_then x f)
and_then-Decodes (ok a) f h = h a
and_then-Decodes (err e) f h = tt
and_then-Decodes panic f h = tt

and_then-Parses :
    {A : Type 0} (x : Outcome A) (f : A → Outcome (UserSessionId × Rpc))
    → ((a : A) → Parses (f a))
    → Parses (and_then x f)
and_then-Parses (ok a) f h = h a
and_then-Parses (err e) f h = tt
and_then-Parses panic f h = tt

sent-Parses :
    (user : UserSessionId) (x : Outcome Rpc) → Decodes x → Parses (and_then x (λ r. ok (user, r)))
sent-Parses user (ok r) h = h
sent-Parses user (err e) h = tt
sent-Parses user panic h = tt

if-Decodes : (b : Bool) (x y : Outcome Rpc) → Decodes x → Decodes y → Decodes (if b then x else y)
if-Decodes true x y h k = h
if-Decodes false x y h k = k

module _ {Bytes Params : Type 0} (codec : Codec Bytes Params) where
  unpacked-Decodes :
      (params : _) (reply : Base64Reply Bytes) → Decodes (unpacked codec params reply)
  unfolding new_sdp_offer_rpc
  unpacked-Decodes params corrupt_input = inl refl
  unpacked-Decodes params (base64_error e) = tt
  unpacked-Decodes params (decoded gzdata) =
      and_then-Decodes (codec.gzip_reader gzdata) _
        (λ zr. and_then-Decodes (codec.read_all zr) _ (λ sdp. inl refl))

  unpack_offer-Decodes : (params : _) → Decodes (unpack_offer codec params)
  unfolding new_sdp_offer_rpc
  unpack_offer-Decodes params =
      if-Decodes (params.session_description.sdp == "") _ _ (inl refl)
        (unpacked-Decodes params (codec.decode_base64 params.session_description.sdp))

  rpc_of-Decodes : (method : Method) (params : Bytes) → Decodes (rpc_of codec method params)
  unfolding rpc_of new_join_rpc new_ice_candidate_rpc new_sdp_answer_rpc new_sdp_offer_rpc
      new_close_session_rpc new_start_stream_rpc new_stop_stream_rpc new_subscribe_stream_rpc
      new_subscribe_stream_cancel_rpc
  rpc_of-Decodes method params =
      if-Decodes (method == ice_candidate_method) _ _
        (and_then-Decodes (codec.unmarshal_ice params) _ (λ p. refl))
        (if-Decodes (method == sdp_answer_method) _ _
          (and_then-Decodes (codec.unmarshal_sdp params) _ (λ p. inr refl))
          (if-Decodes (method == sdp_offer_method) _ _
            (and_then-Decodes (codec.unmarshal_sdp params) _ unpack_offer-Decodes)
            (if-Decodes (method == close_session_method) _ _ refl (
              if-Decodes (method == publish_stream_method) _ _ refl (
                if-Decodes (method == publish_stream_stop_method) _ _ refl (
                  if-Decodes (method == join_method) _ _ refl (
                    if-Decodes (method == subscribe_stream_method) _ _
                      (and_then-Decodes (codec.unmarshal_subscribe params) _ (λ p. refl))
                      (if-Decodes (method == subscribe_stream_cancel_method) _ _
                        (and_then-Decodes (codec.unmarshal_subscribe params) _ (λ p. refl))
                        tt))))))))

  pub rpc_from_reader-Decodes : (text : Bytes) → Decodes (rpc_from_reader codec text)
  unfolding rpc_from_reader
  rpc_from_reader-Decodes text = and_then-Decodes (codec.decode_json_rpc text) _ (λ rpc.
      and_then-Decodes (codec.marshal_params rpc.rpc_params) _ (rpc_of-Decodes rpc.head.method))

  pub parse_rpc-Parses : (payload : Bytes) → Parses (parse_rpc codec payload)
  unfolding parse_rpc
  parse_rpc-Parses payload = and_then-Parses (codec.unmarshal_server_message payload) _ (λ m.
      sent-Parses m.sender (rpc_from_reader codec m.message) (rpc_from_reader-Decodes m.message))
