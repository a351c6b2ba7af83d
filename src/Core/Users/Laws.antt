-- ===== src/Core/Users/Laws.antt =====
-- What can become of the users table of internal/core.
use livelook_sfu.Common.{
  ◌≡◌, refl, ◌⊎◌, inl, inr, sym, ap, subst, ◌∙◌, ℕ, Bool, true, false, Bool-cases, Option, none,
  some, List, [], ◌∷◌, snoc, String, ◌==◌, string_eq, string_beq_iff, if◌then◌else◌, Outcome, ok,
  err, panic, Error, arith,
}
use livelook_sfu.Core.Users.{
  User, new_user, first_row, Sql, may_log_in, matching, auth_admin_user, nil_if_none, renamed,
  upserted, user_row, save_user,
}

-- A user but for the name.
abbrev pub nameless : User → User
nameless u = record u { name = "" }

abbrev pub nameless_row : Option User → Option User
nameless_row none = none
nameless_row (some u) = some (nameless u)

abbrev pub nameless_outcome : Outcome (Option User) → Outcome (Option User)
nameless_outcome (ok row) = ok (nameless_row row)
nameless_outcome (err e) = err e
nameless_outcome panic = panic

abbrev pub Row : User → List User → Type 0
Row u [] = ⊥
Row u (v ∷ rows) = (u ≡ v) ⊎ Row u rows

some-injective : {v u : User} → ◌≡◌ {A = Option User} (some v) (some u) → v ≡ u
some-injective h = cc h

first_row-Row :
    (test : User → Bool) (rows : List User) (u : User)
    → first_row test rows ≡ some u
    → Row u rows × (test u ≡ true)
unfolding first_row
first_row-Row test [] u h = absurd (cc h)
first_row-Row test (v ∷ rows) u h = elim (Bool-cases (test v)) [
  | inl e ↦
      let same = some-injective (rw e at h) in (inl (sym same), subst (λ x. test x ≡ true) same e)
  | inr e ↦ let later = first_row-Row test rows u (rw e at h) in (inr later.0, later.1)
]

module _ (sql : Sql) (email password : String) where
  choose :
      (c : Bool) (v w : User) (x y : Option User)
      → nameless v ≡ nameless w
      → nameless_row x ≡ nameless_row y
      → nameless_row (if c then some v else x) ≡ nameless_row (if c then some w else y)
  choose true v w x y h k = ap some h
  choose false v w x y h k = k

  choose_renamed :
      (b : Bool) (u : User) (name : String) (x y : Option User)
      → nameless_row x ≡ nameless_row y
      → let u' = if b then record u { name = name } else u in
        nameless_row (if may_log_in sql email password u' then some u' else x)
        ≡ nameless_row (if may_log_in sql email password u then some u else y)
  choose_renamed true u name x y h = choose (may_log_in sql email password u) _ u x y refl h
  choose_renamed false u name x y h = choose (may_log_in sql email password u) u u x y refl h

  first_row-renamed :
      (uid name : String) (rows : List User)
      → nameless_row (first_row (may_log_in sql email password) (renamed uid name rows))
        ≡ nameless_row (first_row (may_log_in sql email password) rows)
  unfolding first_row renamed
  first_row-renamed uid name [] = refl
  first_row-renamed uid name (u ∷ rows) =
      choose_renamed (u.uid == uid) u name _ _ (first_row-renamed uid name rows)

  first_row-snoc :
      (u : User) (rows : List User)
      → may_log_in sql email password u ≡ false
      → first_row (may_log_in sql email password) (snoc rows u)
        ≡ first_row (may_log_in sql email password) rows
  unfolding first_row
  first_row-snoc u [] h = rw h refl
  first_row-snoc u (v ∷ rows) h =
      ap (λ x. if may_log_in sql email password v then some v else x) (first_row-snoc u rows h)

  nil-nameless : (x : Option User) → nameless_outcome (nil_if_none x) ≡ ok (nameless_row x)
  nil-nameless none = refl
  nil-nameless (some u) = refl

  upserted-login :
      (now : ℕ) (u : User) (same_uid same_id : Option User) (table : List User)
      → nameless_row
          (first_row (may_log_in sql email password) (upserted now u same_uid same_id table).1)
        ≡ nameless_row (first_row (may_log_in sql email password) table)
  unfolding new_user
  upserted-login now u (some row) same_id table = first_row-renamed u.uid u.name table
  upserted-login now u none (some row) table = refl
  upserted-login now u none none table =
      ap nameless_row (first_row-snoc (user_row now u) table refl)

  -- Saving a user, whoever calls and whatever the fields are, neither gives anyone the login of an
  -- admin nor takes it away: with the same email and password the same user is found, but for a name.
  pub save_user-login :
      (save_reply reply : Option Error) (now : ℕ) (u : User) (table : List User)
      → nameless_outcome
          (auth_admin_user sql reply email password (save_user save_reply now u table).1)
        ≡ nameless_outcome (auth_admin_user sql reply email password table)
  unfolding save_user auth_admin_user
  save_user-login save_reply (some e) now u table = refl
  save_user-login (some e) none now u table = refl
  save_user-login none none now u table =
      nil-nameless _
      ∙ ap ok (
          upserted-login now u (first_row (λ row. row.uid == u.uid) table)
            (first_row (λ row. row.user_id == u.user_id) table) table)
      ∙ sym (nil-nameless _)

  -- What the query asks of a row: the password, which is not NULL, is its own hash of what was
  -- typed, the email is the one that was typed but for the case, and the user is an admin.
  abbrev pub LogsIn : User → Type 0
  LogsIn u =
      (u.is_admin ≡ true)
      × ((p : String) × (u.password ≡ some p) × (p ≡ sql.crypt password p))
      × ((e : String) × (u.email ≡ some e) × (sql.lower e ≡ sql.lower email))

  matching-LogsIn :
      (u : User) (pass mail : Option String) (admin : Bool)
      → u.password ≡ pass
      → u.email ≡ mail
      → u.is_admin ≡ admin
      → matching sql email password pass mail admin ≡ true
      → LogsIn u
  matching-LogsIn u none mail admin p e a h = absurd (cc h)
  matching-LogsIn u (some pass) none admin p e a h = absurd (cc h)
  matching-LogsIn u (some pass) (some mail) admin p e a h =
      let pass_iff = string_beq_iff pass (sql.crypt password pass) in
      let mail_iff = string_beq_iff (sql.lower mail) (sql.lower email) in
      (ground arith, (pass, p, ground arith), (mail, e, ground arith))

  found-LogsIn :
      (x : Option User) (u : User) (table : List User)
      → first_row (may_log_in sql email password) table ≡ x
      → nil_if_none x ≡ ok (some u)
      → Row u table × LogsIn u
  found-LogsIn none u table f h = absurd (cc h)
  found-LogsIn (some v) u table f h =
      let (row, test) = first_row-Row (may_log_in sql email password) table u (f ∙ cc h) in
      (row, matching-LogsIn u u.password u.email u.is_admin refl refl refl test)

  -- A user that logs in as an admin is one of the table, and an admin there, whose password and email
  -- were typed.
  pub auth_admin_user-LogsIn :
      (reply : Option Error) (u : User) (table : List User)
      → auth_admin_user sql reply email password table ≡ ok (some u)
      → Row u table × LogsIn u
  unfolding auth_admin_user
  auth_admin_user-LogsIn (some e) u table h = absurd (cc h)
  auth_admin_user-LogsIn none u table h =
      found-LogsIn (first_row (may_log_in sql email password) table) u table refl h
