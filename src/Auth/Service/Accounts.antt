-- ===== src/Auth/Service/Accounts.antt =====
-- What a login gives, and whom the tokens stand for.
use my_ngrok.Base.{
  Fate, executed, not_executed, reply_lost, exec, exec-true, ◌+◌, Bool, true, false, not, ◌||◌, ◌∷◌,
  Option, none, some, Bytes, bytes_eq, bytes_eq_iff, if◌then◌else◌, Result, ok, err, ◌≡◌, refl, sym,
  ◌∙◌, ap, subst,
}
use my_ngrok.Auth.Jwt.{AuthError, invalid_credentials, sign_jwt}
use my_ngrok.Auth.Tables.{
  User, UserRow, RefreshRow, Tables, active, user_of, find_email, touch_login, has_hash,
  insert_refresh, new_refresh,
}
use my_ngrok.Auth.Service.{
  Service, Tokens, IssueRun, LoginRun, normalize_email, hash_token, random_token, access_claims,
  store_tokens, issue_raw, issue_access, issue, with_user, select, login, login_row, login_updated,
}

-- A call of `issue` that gives tokens: the access token is signed for the user, and the row of the
-- refresh token is the new one.
pub record Issued (s : Service) (t t' : Tables) (user_id user_agent ip : Bytes) (run : IssueRun)
    (tokens : Tokens) : Type 0 where
  pub signed : sign_jwt s.jwt (access_claims s user_id run) s.access_secret ≡ ok tokens.access_token
  pub stored : t' ≡ record t {
    refresh_tokens =
        new_refresh user_id
          (hash_token s tokens.refresh_token)
          tokens.refresh_expires_at
          user_agent
          ip
        ∷ t.refresh_tokens;
  }

store_tokens_ok :
    (t t' : Tables) (row : RefreshRow) (insert : Fate) (tokens given : Tokens)
    → store_tokens t (insert_refresh t row) insert given ≡ (t', ok tokens)
    → (given ≡ tokens) × (t' ≡ record t { refresh_tokens = row ∷ t.refresh_tokens })
unfolding insert_refresh
store_tokens_ok t t' row insert tokens given h =
    fate insert (accepted (has_hash t.refresh_tokens row.token_hash) h)
  where
    after : Tables
    after = record t { refresh_tokens = row ∷ t.refresh_tokens }

    accepted :
        (b : Bool)
        → store_tokens t (if b then none else some after) insert given ≡ (t', ok tokens)
        → store_tokens t (some after) insert given ≡ (t', ok tokens)
    accepted true h = cc
    accepted false h = h

    fate :
        (f : Fate)
        → store_tokens t (some after) f given ≡ (t', ok tokens)
        → (given ≡ tokens) × (t' ≡ after)
    fate executed h = (cc, cc)
    fate not_executed h = cc
    fate reply_lost h = cc

pub issue-Issued :
    (s : Service) (t t' : Tables) (user_id user_agent ip : Bytes) (run : IssueRun) (tokens : Tokens)
    → issue s t user_id user_agent ip run ≡ (t', ok tokens)
    → Issued s t t' user_id user_agent ip run tokens
unfolding issue
issue-Issued s t t' user_id user_agent ip run tokens h =
    access_ok (sign_jwt s.jwt (access_claims s user_id run) s.access_secret) refl h
  where
    signing : Result AuthError Bytes
    signing = sign_jwt s.jwt (access_claims s user_id run) s.access_secret

    raw_ok :
        (access : Bytes) (raw : Result AuthError Bytes)
        → signing ≡ ok access
        → issue_raw s t user_id user_agent ip run access raw ≡ (t', ok tokens)
        → Issued s t t' user_id user_agent ip run tokens
    raw_ok access (err e) signed h = cc
    raw_ok access (ok raw) signed h =
        let expires = run.refresh_from + s.refresh_ttl in
        let (same, after) =
          store_tokens_ok t t' (new_refresh user_id (hash_token s raw) expires user_agent ip)
            run.insert tokens
            (record { access_token = access; refresh_token = raw; refresh_expires_at = expires })
            h in
        record {
          signed = signed ∙ ap (λ g. ok g.access_token) same;
          stored =
              after
              ∙ ap
                  (λ g. record t {
                    refresh_tokens =
                        new_refresh user_id (hash_token s g.refresh_token) g.refresh_expires_at
                          user_agent ip
                        ∷ t.refresh_tokens;
                  })
                  same;
        }

    access_ok :
        (access : Result AuthError Bytes)
        → signing ≡ access
        → issue_access s t user_id user_agent ip run access ≡ (t', ok tokens)
        → Issued s t t' user_id user_agent ip run tokens
    access_ok (err e) signed h = cc
    access_ok (ok access) signed h = raw_ok access (random_token s run.random) signed h

with_user_ok :
    (u v : User) (r : Tables × Result AuthError Tokens) (t' : Tables) (tokens : Tokens)
    → with_user u r ≡ (t', ok (v, tokens))
    → (u ≡ v) × (r ≡ (t', ok tokens))
with_user_ok u v (t, ok given) t' tokens h = (cc, cc)
with_user_ok u v (t, err e) t' tokens h = cc

-- A login that gives tokens: the account of the address is active and has the password, and the
-- tokens are issued for it.
pub record LoggedIn (s : Service) (t t' : Tables) (email password user_agent ip : Bytes)
    (run : LoginRun) (v : User) (tokens : Tokens) : Type 0 where
  pub account : UserRow
  pub found : find_email t.users (normalize_email email) ≡ some account
  pub is_active : account.status ≡ active
  pub password_matches : s.compare_hash_and_password account.password_hash password ≡ true
  pub same : v ≡ user_of account
  pub issued :
      Issued s (touch_login t account.id run.now) t' account.id user_agent ip run.issue tokens

-- A guard that has not returned an error has failed.
pub passed :
    {A : Type 0} (b : Bool) (t t' : Tables) (e : AuthError) (r : Tables × Result AuthError A)
    (a : A)
    → (if b then (t, err e) else r) ≡ (t', ok a)
    → (b ≡ false) × (r ≡ (t', ok a))
passed true t t' e r a h = cc
passed false t t' e r a h = (refl, h)

neither : (a b : Bool) → (not a || not b) ≡ false → (a ≡ true) × (b ≡ true)
neither true true h = (refl, refl)
neither true false h = cc
neither false b h = cc

login_updated_ok :
    (s : Service) (user_agent ip : Bytes) (u : UserRow) (run : LoginRun) (r : Tables × Bool)
    (t' : Tables) (v : User) (tokens : Tokens)
    → login_updated s user_agent ip u run r ≡ (t', ok (v, tokens))
    → (r ≡ (r.0, true))
      × (user_of u ≡ v)
      × (issue s r.0 u.id user_agent ip run.issue ≡ (t', ok tokens))
login_updated_ok s user_agent ip u run (t, false) t' v tokens h = cc
login_updated_ok s user_agent ip u run (t, true) t' v tokens h =
    let (same, issued) =
      with_user_ok (user_of u) v (issue s t u.id user_agent ip run.issue) t' tokens h in
    (refl, same, issued)

select-some :
    {A : Type 0} (fails : Bool) (o : Option A) (a : A) → select fails o ≡ some a → o ≡ some a
select-some true o a h = cc
select-some false o a h = h

login_row_ok :
    (s : Service) (t t' : Tables) (email password user_agent ip : Bytes) (o : Option UserRow)
    (run : LoginRun) (v : User) (tokens : Tokens)
    → select run.select_fails (find_email t.users (normalize_email email)) ≡ o
    → login_row s t password user_agent ip o run ≡ (t', ok (v, tokens))
    → LoggedIn s t t' email password user_agent ip run v tokens
login_row_ok s t t' email password user_agent ip none run v tokens e h = cc
login_row_ok s t t' email password user_agent ip (some u) run v tokens e h =
    let (guard, answer) =
      passed
        (not (bytes_eq u.status active)
          || not (s.compare_hash_and_password u.password_hash password))
        t t' invalid_credentials
        (login_updated s user_agent ip u run (exec run.update t (touch_login t u.id run.now)))
        (v, tokens) h in
    let (is_active, password_matches) =
      neither (bytes_eq u.status active) (s.compare_hash_and_password u.password_hash password)
        guard in
    let updated =
      login_updated_ok s user_agent ip u run (exec run.update t (touch_login t u.id run.now)) t' v
        tokens answer in
    let after = (exec run.update t (touch_login t u.id run.now)).0 in
    record {
      account = u;
      found = select-some run.select_fails (find_email t.users (normalize_email email)) u e;
      is_active = (bytes_eq_iff u.status active).0 is_active;
      password_matches = password_matches;
      same = sym updated.1;
      issued =
          subst (λ x. Issued s x t' u.id user_agent ip run.issue tokens)
            (exec-true run.update t (touch_login t u.id run.now) after updated.0)
            (issue-Issued s after t' u.id user_agent ip run.issue tokens updated.2);
    }

-- A `Login` gives tokens only to the password of an active account with the normalized address, for
-- that account: a signed access token, and a refresh token whose hash is the new row.
pub login-LoggedIn :
    (s : Service) (t t' : Tables) (email password user_agent ip : Bytes) (run : LoginRun) (v : User)
    (tokens : Tokens)
    → login s t email password user_agent ip run ≡ (t', ok (v, tokens))
    → LoggedIn s t t' email password user_agent ip run v tokens
unfolding login
login-LoggedIn s t t' email password user_agent ip run v tokens h =
    login_row_ok s t t' email password user_agent ip
      (select run.select_fails (find_email t.users (normalize_email email))) run v tokens refl h
