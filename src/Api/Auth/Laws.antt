-- ===== src/Api/Auth/Laws.antt =====
-- Who gets past the middleware of internal/api/auth_middleware.go.
use livelook_sfu.Common.{
  ◌≡◌, ◌≢◌, refl, sym, ap, ◌∙◌, ◌⊎◌, inl, inr, Bool, true, false, Option, none, some, String, ◌==◌,
  string_eq, string_beq_iff, Outcome, ok, err, panic, Error, arith,
}
use livelook_sfu.Core.Users.{User}
use livelook_sfu.Api.Auth.{
  AuthReplies, next_served, served_user, verified, dialled, with_token, if_admin, as_admin,
  by_session, default_middleware,
}

-- The admin whose session it is.
abbrev pub IsAdmin : AuthReplies → User → Type 0
IsAdmin replies u =
    (id : String) × (replies.admin_id ≡ some id) × (replies.find id ≡ ok u) × (u.is_admin ≡ true)

-- The user whose token has been verified.
abbrev pub HasToken : AuthReplies → User → Type 0
HasToken replies u =
    (replies.auth_header ≢ "")
    × ((uid : String) × (replies.verify replies.auth_header ≡ ok uid)
        × (replies.find_by_uid uid ≡ ok u))

served_user-known : (x : Outcome User) (u : User) → served_user x ≡ next_served u → x ≡ ok u
served_user-known (ok v) u h = cc
served_user-known (err e) u h = cc
served_user-known panic u h = cc

verified-known :
    (replies : AuthReplies) (x : Outcome String) (u : User)
    → verified replies x ≡ next_served u
    → (uid : String) × (x ≡ ok uid) × (replies.find_by_uid uid ≡ ok u)
verified-known replies (ok uid) u h = (uid, refl, served_user-known (replies.find_by_uid uid) u h)
verified-known replies (err e) u h = absurd (cc h)
verified-known replies panic u h = absurd (cc h)

dialled-known :
    (replies : AuthReplies) (x : Option Error) (u : User)
    → dialled replies x ≡ next_served u
    → (uid : String) × (replies.verify replies.auth_header ≡ ok uid)
      × (replies.find_by_uid uid ≡ ok u)
dialled-known replies none u h = verified-known replies _ u h
dialled-known replies (some e) u h = absurd (cc h)

with_token-known :
    (replies : AuthReplies) (b : Bool) (u : User)
    → (replies.auth_header == "") ≡ b
    → with_token replies b ≡ next_served u
    → HasToken replies u
with_token-known replies true u e h = absurd (cc h)
with_token-known replies false u e h = (
  ground (arith, string_beq_iff replies.auth_header ""),
  dialled-known replies replies.dial_reply u h,
)

if_admin-known :
    (replies : AuthReplies) (id : String) (v u : User) (b : Bool)
    → replies.admin_id ≡ some id
    → replies.find id ≡ ok v
    → v.is_admin ≡ b
    → if_admin replies v b ≡ next_served u
    → IsAdmin replies u ⊎ HasToken replies u
if_admin-known replies id v u true session found admin h =
    let same : v ≡ u = cc in
    inl (id, session, found ∙ ap ok same, ap (λ w. w.is_admin) (sym same) ∙ admin)
if_admin-known replies id v u false session found admin h =
    inr (with_token-known replies _ u refl h)

as_admin-known :
    (replies : AuthReplies) (id : String) (x : Outcome User) (u : User)
    → replies.admin_id ≡ some id
    → replies.find id ≡ x
    → as_admin replies x ≡ next_served u
    → IsAdmin replies u ⊎ HasToken replies u
as_admin-known replies id (ok v) u session found h =
    if_admin-known replies id v u v.is_admin session found refl h
as_admin-known replies id (err e) u session found h = inr (with_token-known replies _ u refl h)
as_admin-known replies id panic u session found h = absurd (cc h)

by_session-known :
    (replies : AuthReplies) (x : Option String) (u : User)
    → replies.admin_id ≡ x
    → by_session replies x ≡ next_served u
    → IsAdmin replies u ⊎ HasToken replies u
by_session-known replies none u session h = inr (with_token-known replies _ u refl h)
by_session-known replies (some id) u session h =
    as_admin-known replies id (replies.find id) u session refl h

-- A request that reaches the next handler does so as the admin of its session, or as the user
-- whose token, which is not empty, the authentication service has verified.
pub default_middleware_lem :
    (replies : AuthReplies) (u : User)
    → default_middleware replies ≡ next_served u
    → IsAdmin replies u ⊎ HasToken replies u
unfolding default_middleware
default_middleware_lem replies u h = by_session-known replies replies.admin_id u refl h
