-- ===== src/Auth/Service/Access.antt =====
-- What the tokens of a login are good for.
use my_ngrok.Base.{
  executed, ℕ, ◌+◌, ◌<◌, Bool, true, false, List, [], ◌∷◌, some, Bytes, bytes, bytes_eq,
  bytes_eq_refl, ltb_ℤ, lt→ltb, if◌then◌else◌, ok, err, ◌>>=◌, ◌≡◌, ◌≢◌, refl, sym, ◌∙◌, ap, arith,
}
use my_ngrok.Auth.Jwt.{unauthorized, Claims, sign_jwt, verify_jwt}
use my_ngrok.Auth.Jwt.Signing.{IsBase64, Marshals, IsSigned, verify_jwt-sign_jwt}
use my_ngrok.Auth.Tables.{
  User, UserRow, RefreshRow, Tables, find_active, touch_user, touch_login, find_live, unrevoked,
  revoke,
}
use my_ngrok.Auth.Service.{
  Service, Tokens, IssueRun, LoginRun, RefreshRun, unix, hash_token, access_claims, login, refresh,
  refresh_user, user_from_access_token, user_of_claims, current_user,
}
use my_ngrok.Auth.Service.Race.{CanIssue, issued_tokens, refreshed}
use my_ngrok.Auth.Service.Accounts.{login-LoggedIn}

-- What `UserFromAccessToken` makes of claims that were signed for a login.
claims_user :
    (s : Service) (later : Tables) (user_id : Bytes) (run : IssueRun) (now : ℕ)
    (select_fails : Bool)
    → user_id ≢ []
    → user_of_claims later (ok (access_claims s user_id run)) now select_fails ≡ (
        if ltb_ℤ (unix (run.access_from + s.access_ttl)) (unix now)
        then err unauthorized
        else current_user select_fails (find_active later.users user_id))
unfolding bytes_eq
claims_user s later [] run now select_fails named = elim (named refl) [ ]
claims_user s later (b ∷ bs) run now select_fails named = refl

-- A signed text verifies.
signed_verifies :
    (s : Service) (c : Claims) (token : Bytes)
    → IsBase64 s.jwt
    → Marshals s.jwt c
    → sign_jwt s.jwt c s.access_secret ≡ ok token
    → verify_jwt s.jwt token s.access_secret ≡ ok c
signed_verifies s c token codec m signed =
    sym (ap (λ r. r >>= λ x. verify_jwt s.jwt x s.access_secret) signed)
    ∙ verify_jwt-sign_jwt s.jwt c s.access_secret codec m

-- The times of a login are not what the SELECT by ID looks at.
find_active-touch_user :
    (us : List UserRow) (id : Bytes) (now : ℕ) (key : Bytes)
    → find_active (touch_user id now us) key ≡ find_active us key
unfolding find_active touch_user
find_active-touch_user [] id now key = refl
find_active-touch_user (u ∷ us) id now key = ground (arith, find_active-touch_user us id now key)

-- A row that is not revoked and not expired is found first.
found_first :
    (t : Tables) (row : RefreshRow) (now : ℕ) (v : User)
    → unrevoked row ≡ true
    → now < row.expires_at
    → find_active t.users row.user_id ≡ some v
    → find_live (row ∷ t.refresh_tokens) t.users row.token_hash now ≡ some v
unfolding find_live
found_first t row now v live early account =
    rw (bytes_eq_refl row.token_hash, live, lt→ltb now row.expires_at early, account) refl

module _ (s : Service) (t t' : Tables) (email password user_agent ip : Bytes) (run : LoginRun)
    (v : User) (tokens : Tokens) where
  -- The access token of a `Login` is accepted until its second of expiry has passed, for as long as
  -- the SELECT finds the account active, and stands for the user of the login.
  pub login-user_from_access_token :
      IsBase64 s.jwt
      → Marshals s.jwt (access_claims s v.id run.issue)
      → v.id ≢ []
      → login s t email password user_agent ip run ≡ (t', ok (v, tokens))
      → (later : Tables) (now : ℕ) (select_fails : Bool)
      → user_from_access_token s later tokens.access_token now select_fails ≡ (
          if ltb_ℤ (unix (run.issue.access_from + s.access_ttl)) (unix now)
          then err unauthorized
          else current_user select_fails (find_active later.users v.id))
  unfolding user_from_access_token
  login-user_from_access_token codec m named h later now select_fails =
      let l = login-LoggedIn s t t' email password user_agent ip run v tokens h in
      ap (λ r. user_of_claims later r now select_fails)
        (signed_verifies s (access_claims s v.id run.issue) tokens.access_token codec m (
          ap (λ x. sign_jwt s.jwt (access_claims s x.id run.issue) s.access_secret) l.same
          ∙ l.issued.signed))
      ∙ claims_user s later v.id run.issue now select_fails named

  -- The SELECT of a `Refresh` finds the user whom the token was given to.
  login-refresh_user :
      login s t email password user_agent ip run ≡ (t', ok (v, tokens))
      → (next : RefreshRun) → next.select_fails ≡ false
      → next.select_at < tokens.refresh_expires_at
      → bytes_eq tokens.refresh_token [] ≡ false
      → find_active t.users v.id ≡ some v
      → refresh_user s t' tokens.refresh_token next ≡ some v
  unfolding refresh_user
  login-refresh_user h next selected early token account =
      let l = login-LoggedIn s t t' email password user_agent ip run v tokens h in
      let id_eq = ap (λ x. x.id) l.same in
      rw (token, selected, l.issued.stored)
        (found_first (touch_login t l.account.id run.now) _ next.select_at v refl early (
          find_active-touch_user t.users l.account.id run.now l.account.id
          ∙ ap (find_active t.users) (sym id_eq)
          ∙ account))

  -- A `Refresh` on the tables that a `Login` left, with no statement in between, before the refresh token
  -- expires: the token gives the same user new tokens, when it is not empty, its statements are executed,
  -- new tokens can be issued, and the SELECT by the user's ID finds this user.
  pub login-refresh :
      login s t email password user_agent ip run ≡ (t', ok (v, tokens))
      → (next : RefreshRun) → next.select_fails ≡ false
      → next.select_at < tokens.refresh_expires_at
      → bytes_eq tokens.refresh_token [] ≡ false
      → find_active t.users v.id ≡ some v
      → next.revoke ≡ executed
      → (c : CanIssue s
          (revoke t' (hash_token s tokens.refresh_token) next.revoke_at)
          v.id
          next.issue)
      → (refresh s t' tokens.refresh_token user_agent ip next).1
        ≡ ok (
          v,
          issued_tokens s
              (revoke t' (hash_token s tokens.refresh_token) next.revoke_at)
              v.id
              user_agent
              ip
              next.issue
              c,
        )
  unfolding refresh
  login-refresh h next selected early token account fate c =
      refreshed s t' tokens.refresh_token user_agent ip next v
        (refresh_user s t' tokens.refresh_token next)
        (login-refresh_user h next selected early token account) fate c

-- What has been established when an access token is accepted.
pub record Accepted (s : Service) (t : Tables) (token : Bytes) (now : ℕ) (u : User) : Type 0 where
  pub claims : Claims
  pub signed : IsSigned s.jwt token s.access_secret claims
  pub kind : claims.kind ≡ bytes "access"
  pub unexpired : ltb_ℤ claims.expires_at (unix now) ≡ false
  pub account : find_active t.users claims.subject ≡ some u
