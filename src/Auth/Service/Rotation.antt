-- ===== src/Auth/Service/Rotation.antt =====
-- The rotation of the refresh tokens: what a token is worth after it has been used.
use my_ngrok.Base.{
  Fate, exec, exec-true, ℕ, Bool, true, false, [], Option, none, some, Bytes, bytes_eq,
  if◌then◌else◌, Result, ok, err, ◌≡◌, refl, sym, ◌∙◌, ap, subst, arith, inl, inr, Bool-cases,
}
use my_ngrok.Auth.Jwt.{AuthError, unauthorized, sign_jwt}
use my_ngrok.Auth.Tables.{
  User, RefreshRow, Tables, has_hash, insert_refresh, revoke, revoke_live, find_live,
}
use my_ngrok.Auth.Tables.History.{
  Reach, here, exec-Reach, Spent, Reach-Spent, find_live-Spent, revoke-Spent, find_live_stored,
  by_issue, Reach-stored, revoke_live-Spent,
}
use my_ngrok.Auth.Service.{
  Service, Tokens, IssueRun, RefreshRun, hash_token, random_token, access_claims, store_tokens,
  issue_raw, issue_access, issue, with_user, refresh, refresh_found, refresh_user, refresh_revoke,
  refresh_issue, logout,
}

-- `issue` is a history of at most one statement.
store_tokens-Reach :
    (t : Tables) (o : Option Tables) (row : RefreshRow) (insert : Fate) (tokens : Tokens)
    → row.revoked_at ≡ none
    → insert_refresh t row ≡ o
    → Reach t (store_tokens t o insert tokens).0
store_tokens-Reach t none row insert tokens live e = here
store_tokens-Reach t (some t') row insert tokens live e = exec-Reach insert (by_issue row live e)

pub issue-Reach :
    (s : Service) (t : Tables) (user_id user_agent ip : Bytes) (run : IssueRun)
    → Reach t (issue s t user_id user_agent ip run).0
unfolding issue
issue-Reach s t user_id user_agent ip run =
    access_Reach (sign_jwt s.jwt (access_claims s user_id run) s.access_secret)
  where
    raw_Reach :
        (access : Bytes) (raw : Result AuthError Bytes)
        → Reach t (issue_raw s t user_id user_agent ip run access raw).0
    raw_Reach access (err e) = here
    raw_Reach access (ok raw) = store_tokens-Reach t _ _ run.insert _ refl refl

    access_Reach :
        (access : Result AuthError Bytes)
        → Reach t (issue_access s t user_id user_agent ip run access).0
    access_Reach (err e) = here
    access_Reach (ok access) = raw_Reach access (random_token s run.random)

with_user_tables : (u : User) (r : Tables × Result AuthError Tokens) → (with_user u r).0 ≡ r.0
with_user_tables u (t, ok tokens) = refl
with_user_tables u (t, err e) = refl

-- A SELECT that finds a user has not failed, and the token is not empty.
refresh_user_found :
    (s : Service) (t : Tables) (raw : Bytes) (run : RefreshRun) (u : User)
    → refresh_user s t raw run ≡ some u
    → find_live t.refresh_tokens t.users (hash_token s raw) run.select_at ≡ some u
unfolding refresh_user
refresh_user_found s t raw run u h = ground arith

spent_user :
    (s : Service) (t : Tables) (raw : Bytes) (run : RefreshRun)
    → Spent (hash_token s raw) t
    → refresh_user s t raw run ≡ none
unfolding refresh_user
spent_user s t raw run spent =
    ground (arith, find_live-Spent t (hash_token s raw) run.select_at spent)

-- A spent token is refused, and nothing is changed.
pub refresh-Spent :
    (s : Service) (t : Tables) (raw user_agent ip : Bytes) (run : RefreshRun)
    → Spent (hash_token s raw) t
    → refresh s t raw user_agent ip run ≡ (t, err unauthorized)
unfolding refresh
refresh-Spent s t raw user_agent ip run spent =
    ap (refresh_found s t raw user_agent ip run) (spent_user s t raw run spent)

-- The UPDATE of a `Refresh` that has found a user spends the token, whatever happened in between.
refresh_revoke-Spent :
    (s : Service) (t t' t'' : Tables) (raw : Bytes) (run : RefreshRun) (u : User)
    → refresh_user s t raw run ≡ some u
    → Reach t t'
    → refresh_revoke s t' raw run ≡ (t'', true)
    → Spent (hash_token s raw) t''
unfolding refresh_revoke
refresh_revoke-Spent s t t' t'' raw run u found r h =
    subst (Spent (hash_token s raw))
      (sym (exec-true run.revoke t' (revoke t' (hash_token s raw) run.revoke_at) t'' h))
      (revoke-Spent t' (hash_token s raw) run.revoke_at (
        Reach-stored (hash_token s raw) r (
          find_live_stored t.refresh_tokens t.users (hash_token s raw) run.select_at u
            (refresh_user_found s t raw run u found))))

-- The steps of a `Refresh` that has given tokens.
refresh_issue_ok :
    (s : Service) (user_agent ip : Bytes) (run : RefreshRun) (u : User) (r : Tables × Bool)
    (t' : Tables) (answer : User × Tokens)
    → refresh_issue s user_agent ip run u r ≡ (t', ok answer)
    → (r.1 ≡ true) × (t' ≡ (issue s r.0 u.id user_agent ip run.issue).0)
unfolding refresh_issue
refresh_issue_ok s user_agent ip run u (t, false) t' answer h = cc
refresh_issue_ok s user_agent ip run u (t, true) t' answer h =
    (refl, sym (ap (λ x. x.0) h) ∙ with_user_tables u (issue s t u.id user_agent ip run.issue))

refresh_found_ok :
    (s : Service) (t : Tables) (raw user_agent ip : Bytes) (run : RefreshRun) (o : Option User)
    (t' : Tables) (answer : User × Tokens)
    → refresh_user s t raw run ≡ o
    → refresh_found s t raw user_agent ip run o ≡ (t', ok answer)
    → Spent (hash_token s raw) t'
refresh_found_ok s t raw user_agent ip run none t' answer e h = cc
refresh_found_ok s t raw user_agent ip run (some u) t' answer e h =
    let (succeeded, after) =
      refresh_issue_ok s user_agent ip run u (refresh_revoke s t raw run) t' answer h in
    let (t1, b) = refresh_revoke s t raw run in
    subst (Spent (hash_token s raw)) (sym after) (
      Reach-Spent (hash_token s raw)
        (issue-Reach s (refresh_revoke s t raw run).0 u.id user_agent ip run.issue)
        (refresh_revoke-Spent s t t (refresh_revoke s t raw run).0 raw run u e here
          (ap (λ b. ((refresh_revoke s t raw run).0, b)) succeeded)))

-- A refresh token is used once: after a `Refresh` of it that has given tokens, and any statements of
-- any requests, in any order, a `Refresh` of the same token is unauthorized and changes nothing.
pub refresh_once :
    (s : Service) (t t' t'' : Tables) (raw user_agent ip : Bytes) (run later : RefreshRun)
    (answer : User × Tokens)
    → refresh s t raw user_agent ip run ≡ (t', ok answer)
    → Reach t' t''
    → refresh s t'' raw user_agent ip later ≡ (t'', err unauthorized)
unfolding refresh
refresh_once s t t' t'' raw user_agent ip run later answer h r =
    refresh-Spent s t'' raw user_agent ip later (
      Reach-Spent (hash_token s raw) r
        (refresh_found_ok s t raw user_agent ip run (refresh_user s t raw run) t' answer refl h))

-- The same from the moment of the UPDATE, with other requests' statements between the SELECT of the
-- `Refresh` and its UPDATE.
pub refresh_once_interleaved :
    (s : Service) (t t1 t2 t3 : Tables) (raw user_agent ip : Bytes) (run later : RefreshRun)
    (u : User)
    → refresh_user s t raw run ≡ some u
    → Reach t t1
    → refresh_revoke s t1 raw run ≡ (t2, true)
    → Reach t2 t3
    → refresh s t3 raw user_agent ip later ≡ (t3, err unauthorized)
refresh_once_interleaved s t t1 t2 t3 raw user_agent ip run later u found before update after =
    refresh-Spent s t3 raw user_agent ip later (
      Reach-Spent (hash_token s raw) after
        (refresh_revoke-Spent s t t1 t2 raw run u found before update))

-- No token is no user.
empty_unauthorized :
    (s : Service) (t : Tables) (raw user_agent ip : Bytes) (run : RefreshRun)
    → bytes_eq raw [] ≡ true
    → refresh s t raw user_agent ip run ≡ (t, err unauthorized)
unfolding refresh refresh_user
empty_unauthorized s t raw user_agent ip run empty = rw empty refl

-- After a `Logout` without an error for a refresh token of the table, and any statements of any
-- requests, in any order, a `Refresh` of the token is unauthorized and changes nothing.
pub logout-refresh :
    (s : Service) (t t' t'' : Tables) (raw user_agent ip : Bytes) (now : ℕ) (update : Fate)
    (later : RefreshRun)
    → has_hash t.refresh_tokens (hash_token s raw) ≡ true
    → logout s t raw now update ≡ (t', true)
    → Reach t' t''
    → refresh s t'' raw user_agent ip later ≡ (t'', err unauthorized)
unfolding logout
logout-refresh s t t' t'' raw user_agent ip now update later stored h r =
    elim (Bool-cases (bytes_eq raw [])) [
      | inl empty ↦ empty_unauthorized s t'' raw user_agent ip later empty
      | inr token ↦ refresh-Spent s t'' raw user_agent ip later (
          Reach-Spent (hash_token s raw) r (
            subst (Spent (hash_token s raw))
              (sym (
                exec-true update t (revoke_live t (hash_token s raw) now) t'
                  (updated (bytes_eq raw []) token h)))
              (revoke_live-Spent t (hash_token s raw) now stored)))
    ]
  where
    updated :
        (b : Bool)
        → b ≡ false
        → (if b then (t, true) else exec update t (revoke_live t (hash_token s raw) now))
          ≡ (t', true)
        → exec update t (revoke_live t (hash_token s raw) now) ≡ (t', true)
    updated true e h = cc
    updated false e h = h
