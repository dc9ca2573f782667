-- ===== src/Auth/Service/Registration.antt =====
-- What a registration gives.
use my_ngrok.Base.{
  Fate, executed, not_executed, reply_lost, true, false, not, ◌||◌, ◌∷◌, Option, none, some, Bytes,
  bytes_eq_iff, bytes_eq_refl, ltb, ok, ◌≡◌, refl, sym, ◌∙◌, ap,
}
use my_ngrok.Auth.Jwt.{other}
use my_ngrok.Auth.Tables.{User, UserRow, Tables, active, user_of, find_email, touch_login}
use my_ngrok.Auth.Service.{Service, LoginRun, normalize_email, select, login, login_row}
use my_ngrok.Auth.Service.{RegisterRun, register, register_hashed, store_user, valid_email}
use my_ngrok.Auth.Tables.{insert_user, new_user}
use my_ngrok.Auth.Tables.History.{insert_user-some}
use my_ngrok.Auth.Service.Race.{CanIssue, issued_tokens, issue_lem}
use my_ngrok.Auth.Service.Accounts.{passed}
use my_ngrok.Base.{length}

-- A registration that has succeeded: one new active account with the normalized address, which no
-- account had, and the hash of the password.
pub record Registered (s : Service) (t t' : Tables) (email password : Bytes) (run : RegisterRun)
    (u : User) : Type 0 where
  pub hash : Bytes
  pub hashed : s.generate_from_password password ≡ some hash
  pub free : find_email t.users (normalize_email email) ≡ none
  pub stored :
      t' ≡ record t { users = new_user run.id (normalize_email email) hash run.now ∷ t.users }
  pub user : u ≡ record { id = run.id; email = normalize_email email }

store_ok :
    (t t' : Tables) (email hash : Bytes) (run : RegisterRun) (o : Option Tables) (u : User)
    → insert_user t run.id email hash run.now ≡ o
    → store_user t o email run ≡ (t', ok u)
    → (insert_user t run.id email hash run.now ≡ some t')
      × (u ≡ record { id = run.id; email = email })
store_ok t t' email hash run none u e h = cc
store_ok t t' email hash run (some after) u e h =
    let (same, user) = fate run.insert h in (e ∙ ap some same, user)
  where
    fate :
        (f : Fate)
        → store_user t (some after) email (record run { insert = f }) ≡ (t', ok u)
        → (after ≡ t') × (u ≡ record { id = run.id; email = email })
    fate executed h = (cc, cc)
    fate not_executed h = cc
    fate reply_lost h = cc

register_hashed_ok :
    (s : Service) (t t' : Tables) (email password : Bytes) (run : RegisterRun) (o : Option Bytes)
    (u : User)
    → s.generate_from_password password ≡ o
    → register_hashed t (normalize_email email) o run ≡ (t', ok u)
    → Registered s t t' email password run u
register_hashed_ok s t t' email password run none u e h = cc
register_hashed_ok s t t' email password run (some hash) u e h =
    let (inserted, user) =
      store_ok t t' (normalize_email email) hash run
        (insert_user t run.id (normalize_email email) hash run.now) u refl h in
    let (free, stored) =
      insert_user-some t t' run.id (normalize_email email) hash run.now inserted in
    record { hash = hash; hashed = e; free = free; stored = stored; user = user }

pub register-Registered :
    (s : Service) (t t' : Tables) (email password : Bytes) (run : RegisterRun) (u : User)
    → register s t email password run ≡ (t', ok u)
    → Registered s t t' email password run u
unfolding register
register-Registered s t t' email password run u h =
    register_hashed_ok s t t' email password run (s.generate_from_password password) u refl
      (passed (not (valid_email (normalize_email email)) || ltb (length password) 10) t t' other
        (register_hashed t (normalize_email email) (s.generate_from_password password) run) u h).1

-- The new account is found by its address.
find_email_new :
    (s : Service) (t t' : Tables) (email password : Bytes) (run : RegisterRun) (u : User)
    → (r : Registered s t t' email password run u)
    → find_email t'.users (normalize_email email)
      ≡ some (new_user run.id (normalize_email email) r.hash run.now)
unfolding find_email
find_email_new s t t' email password run u r =
    rw (r.stored, bytes_eq_refl (normalize_email email)) refl

-- The rest of a `Login` that has found an active account with this password, when nothing fails.
logged_in :
    (s : Service) (t : Tables) (password user_agent ip : Bytes) (account : UserRow) (run : LoginRun)
    → s.compare_hash_and_password account.password_hash password ≡ true
    → run.update ≡ executed
    → account.status ≡ active
    → (c : CanIssue s (touch_login t account.id run.now) account.id run.issue)
    → (login_row s t password user_agent ip (some account) run).1
      ≡ ok (
        user_of account,
        issued_tokens s (touch_login t account.id run.now) account.id user_agent ip run.issue c,
      )
logged_in s t password user_agent ip account run matches fate is_active c =
    rw
      (
        (bytes_eq_iff account.status active).1 is_active,
        matches,
        fate,
        issue_lem s (touch_login t account.id run.now) account.id user_agent ip run.issue c,
      )
      refl

-- Whoever has registered can log in at once, with the address written in any way that normalizes to
-- the same and the same password, when bcrypt accepts the hash it has made and nothing fails.
pub register-login :
    (s : Service) (t t' : Tables) (email again password user_agent ip : Bytes) (run : RegisterRun)
    (u : User) (next : LoginRun)
    → register s t email password run ≡ (t', ok u)
    → ((hash : Bytes)
        → s.generate_from_password password ≡ some hash
        → s.compare_hash_and_password hash password ≡ true)
    → normalize_email again ≡ normalize_email email
    → next.select_fails ≡ false
    → next.update ≡ executed
    → (c : CanIssue s (touch_login t' run.id next.now) run.id next.issue)
    → (login s t' again password user_agent ip next).1
      ≡ ok (u, issued_tokens s (touch_login t' run.id next.now) run.id user_agent ip next.issue c)
unfolding login
register-login s t t' email again password user_agent ip run u next h bcrypt same selected fate c =
    let r = register-Registered s t t' email password run u h in
    let account = new_user run.id (normalize_email email) r.hash run.now in
    let found : select next.select_fails (find_email t'.users (normalize_email again))
        ≡ some account =
      rw (selected, same) (find_email_new s t t' email password run u r) in
    ap (λ o. (login_row s t' password user_agent ip o next).1) found
    ∙ logged_in s t' password user_agent ip account next (bcrypt r.hash r.hashed) fate refl c
    ∙ ap
        (λ v.
          ok
            (v, issued_tokens s (touch_login t' run.id next.now) run.id user_agent ip next.issue c))
        (sym r.user)
