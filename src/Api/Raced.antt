-- ===== src/Api/Raced.antt =====
-- A registration that has looked for its email before another session committed.
use crypto_ledger_sandbox.Prelude.{
  ℕ, false, Option-cases, none, some, ◌≡◌, refl, inl, inr, find?, find?-test, any?-found, lower,
  arith,
}
use crypto_ledger_sandbox.Models.{User}
use crypto_ledger_sandbox.Db.{Db, Platform, user_allowed, insert_user}
use crypto_ledger_sandbox.Api.Schemas.{RegisterRequest}
use crypto_ledger_sandbox.Api.Security.{Library}
use crypto_ledger_sandbox.Api.AuthRoutes.{
  RegisterDraws, has_email, new_user, register_unless, register,
}

module _ (platform : Platform) (library : Library) (minutes now : ℕ) (draws : RegisterDraws)
    (payload : RegisterRequest) (db : Db) where
  taken :
      {u : User}
      → find? (has_email (lower payload.email)) db.users ≡ some u
      → user_allowed (new_user platform library minutes draws payload) db ≡ false
  unfolding user_allowed
  taken h =
      let known = has_email (lower payload.email) in
      rw (any?-found known known db.users h (find?-test known db.users h)) (ground arith)

  -- A registration that found no user with its email at an earlier time answers and leaves, from
  -- then on, exactly what the whole `register` does on the tables of the later time: an email
  -- that was taken meanwhile is answered 409 either way.
  pub register_unless-serial :
      register_unless platform library minutes now draws payload none db
      ≡ register platform library minutes now draws payload db
  unfolding register insert_user
  register_unless-serial = elim (Option-cases (find? (has_email (lower payload.email)) db.users)) [
    | inl free ↦ rw free refl
    | inr (u, found) ↦ rw (found, taken found) refl
  ]
