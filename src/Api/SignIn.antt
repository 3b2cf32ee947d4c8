-- ===== src/Api/SignIn.antt =====
-- Registration, login and the user of a token, together.
use crypto_ledger_sandbox.Prelude.{
  ℕ, ◌+◌, ◌*◌, ◌≤◌, ◌<◌, true, false, ◌&&◌, ◌∷◌, String, ◌≡◌, refl, sym, ap, ◌∙◌, inl, inr,
  Bool-cases, Option-cases, ==_refl, ◌==◌, str_eq, eq_iff, leb, ltb, some, none, find?, lower,
  arith,
}
use crypto_ledger_sandbox.Models.{User}
use crypto_ledger_sandbox.Db.{Db, Platform, insert_user, user_allowed}
use crypto_ledger_sandbox.Api.Answers.{Answer, respond, http_exception}
use crypto_ledger_sandbox.Api.Schemas.{RegisterRequest, LoginRequest, TokenResponse}
use crypto_ledger_sandbox.Api.Security.{
  Library, IsLawful, create_access_token, get_current_active_user,
}
use crypto_ledger_sandbox.Api.AuthRoutes.{
  RegisterDraws, has_email, token_response, new_user, register, login,
}
use crypto_ledger_sandbox.Api.Repeats.{answered}

-- The tables with the new user.
abbrev pub with_user : User → Db → Db
with_user u db = record db { users = u ∷ db.users }

text_eq_refl : (s : String) → str_eq s s ≡ true
text_eq_refl s = (eq_iff s s).1 refl

no_response :
    {A : Type 0} {b : A} {c status : ℕ} {detail : String}
    → ◌≡◌ {A = Answer A} (http_exception c detail) (respond status b)
    → ⊥
no_response h = cc

same_response :
    {A : Type 0} {a b : A} {c d : ℕ}
    → ◌≡◌ {A = Answer A} (respond c a) (respond d b)
    → (d ≡ c) × (b ≡ a)
same_response h = (cc, cc)

module _ (platform : Platform) (library : Library) (minutes now : ℕ) (draws : RegisterDraws)
    (payload : RegisterRequest) (db db' : Db) where
  -- A registration that answers a token adds the user under a new identifier and a new email.
  pub register-responds :
      (status : ℕ) (token : TokenResponse)
      → register platform library minutes now draws payload db ≡ (respond status token, db')
      → (db' ≡ with_user (new_user platform library minutes draws payload) db)
        × (user_allowed (new_user platform library minutes draws payload) db ≡ true)
        × (status ≡ 201)
        × (token ≡ token_response platform library minutes now draws.user_id)
  unfolding register insert_user
  register-responds status token h =
      elim (Option-cases (find? (has_email (lower payload.email)) db.users)) [
        | inr (u, found) ↦ absurd (no_response (answered (rw found at h)).0)
        | inl free ↦
            elim (Bool-cases (user_allowed (new_user platform library minutes draws payload) db)) [
              | inr refused ↦ absurd (no_response (answered (rw (free, refused) at h)).0)
              | inl allowed ↦
                  let (same_answer, same_db) = answered (rw (free, allowed) at h) in
                  let (status_201, same_token) = same_response same_answer in
                  (sym same_db, allowed, status_201, same_token)
            ]
      ]

-- A token opens the account of an active user from its issue until it expires.
token-opens :
    (platform : Platform) (library : Library) (lawful : IsLawful platform library)
    (minutes issued now : ℕ) (db : Db) (u : User)
    → issued ≤ now
    → now < issued + 60 * minutes
    → find? (λ v. v.id == u.id) db.users ≡ some u
    → u.is_active ≡ true
    → get_current_active_user library now
        (some (create_access_token library minutes issued (platform.uuid_str u.id)))
        db
      ≡ some u
unfolding get_current_active_user create_access_token
token-opens platform library lawful minutes issued now db u started valid found active =
    let within : (leb issued now && ltb now (issued + 60 * minutes)) ≡ true = ground arith in
    rw
      (
        lawful.decoded now
            (record { sub = platform.uuid_str u.id; iat = issued; exp = issued + 60 * minutes }),
        within,
        lawful.parsed u.id,
        found,
        active,
      )
      refl

-- If the libraries behave as documented, a token that `create_access_token` has made is taken
-- for no user once its minutes are over.
pub get_current_active_user-expired :
    (platform : Platform) (library : Library) (minutes issued now : ℕ) (db : Db) (subject : String)
    → IsLawful platform library
    → issued + 60 * minutes ≤ now
    → get_current_active_user library now
        (some (create_access_token library minutes issued subject))
        db
      ≡ none
unfolding get_current_active_user create_access_token
get_current_active_user-expired platform library minutes issued now db subject lawful over =
    let late : (leb issued now && ltb now (issued + 60 * minutes)) ≡ false = ground arith in
    rw
      (
        lawful.decoded now (record { sub = subject; iat = issued; exp = issued + 60 * minutes }),
        late,
      )
      refl

module _ (platform : Platform) (library : Library) (minutes issued now : ℕ) (draws : RegisterDraws)
    (payload : RegisterRequest) (db db' : Db) (lawful : IsLawful platform library) (status : ℕ)
    (token : TokenResponse)
    (success : register platform library minutes issued draws payload db
      ≡ (respond status token, db')) where
  -- If the libraries behave as documented and `register` has answered a token, then from the
  -- second of its issue until it expires the token is taken for the user that was registered.
  pub register-opens :
      issued ≤ now
      → now < issued + 60 * minutes
      → get_current_active_user library now (some token.access_token) db'
        ≡ some (new_user platform library minutes draws payload)
  unfolding find?
  register-opens started valid =
      let (state, allowed, _, same_token) =
        register-responds platform library minutes issued draws payload db db' status token
          success in
      ap (λ (t : TokenResponse). get_current_active_user library now (some t.access_token) db')
        same_token
      ∙ ap
          (get_current_active_user library now
            (some (create_access_token library minutes issued (platform.uuid_str draws.user_id))))
          state
      ∙ token-opens platform library lawful minutes issued now
          (with_user (new_user platform library minutes draws payload) db)
          (new_user platform library minutes draws payload) started valid
          (rw (==_refl draws.user_id) refl) refl

  -- If the libraries behave as documented and `register` has answered a token, then a `login`
  -- with the same password and the same email, whatever the case of its letters, is answered 200
  -- with a token for the registered user, and changes nothing.
  pub register-login :
      (credentials : LoginRequest)
      → lower credentials.email ≡ lower payload.email
      → credentials.password ≡ payload.password
      → login platform library minutes now credentials db'
        ≡ (respond 200 (token_response platform library minutes now draws.user_id), db')
  unfolding login find?
  register-login credentials same_email same_password =
      let (state, _, _, _) =
        register-responds platform library minutes issued draws payload db db' status token
          success in
      rw state (
        rw
          (
            same_email,
            same_password,
            text_eq_refl (lower payload.email),
            lawful.verified draws.salt payload.password,
          )
          refl)

-- If `login` answers a response, a user with the email in lower case is stored and active, the
-- password verifies against the user's hash, the token is for that user, and nothing changes.
pub login-responds :
    (platform : Platform) (library : Library) (minutes now : ℕ) (credentials : LoginRequest)
    (db db' : Db) (status : ℕ) (token : TokenResponse)
    → login platform library minutes now credentials db ≡ (respond status token, db')
    → (u : User) × (find? (has_email (lower credentials.email)) db.users ≡ some u)
      × (u.is_active ≡ true)
      × (library.verify_password credentials.password u.hashed_password ≡ true)
      × (token ≡ token_response platform library minutes now u.id)
      × (db' ≡ db)
unfolding login
login-responds platform library minutes now credentials db db' status token h =
    elim (Option-cases (find? (has_email (lower credentials.email)) db.users)) [
      | inl nobody ↦ absurd (no_response (answered (rw nobody at h)).0)
      | inr (u, found) ↦ elim (Bool-cases u.is_active) [
        | inr inactive ↦ absurd (no_response (answered (rw (found, inactive) at h)).0)
        | inl active ↦
            elim (Bool-cases (library.verify_password credentials.password u.hashed_password)) [
              | inr wrong ↦ absurd (no_response (answered (rw (found, active, wrong) at h)).0)
              | inl verified ↦
                  let (same_answer, same_db) = answered (rw (found, active, verified) at h) in
                  (u, found, active, verified, (same_response same_answer).1, sym same_db)
            ]
      ]
    ]
