-- ===== src/Auth/Service/Examples.antt =====
-- One account that registers, logs in, refreshes and logs out.
use my_ngrok.Base.{
  ℕ, ◌+◌, true, false, [], ◌∷◌, some, Bytes, bytes, bytes_eq, bytes_eq_iff, ltb_ℤ, if◌then◌else◌,
  Result, ok, err, ◌≡◌, ◌≢◌, refl, arith,
}
use my_ngrok.Strings.{count_byte, has_prefix, has_suffix, reversed, trim_left, trim_space, to_lower}
use my_ngrok.Auth.Jwt.{unauthorized, sign_jwt}
use my_ngrok.Auth.Jwt.Signing.{Marshals}
use my_ngrok.Auth.Jwt.Sample.{sample_encode, sample_primitives, sample-IsBase64}
use my_ngrok.Auth.Tables.{
  User, Tables, find_email, find_active, find_live, has_hash, insert_user, insert_refresh, revoke,
  revoke_rows, touch_user, touch_login,
}
use my_ngrok.Auth.Tables.History.{one, by_login}
use my_ngrok.Auth.Service.{
  Tokens, access_claims, normalize_email, valid_email, random_token, hash_token, issue, register,
  login, refresh, refresh_found, refresh_user, refresh_revoke, refresh_issue, unix,
  user_from_access_token, current_user,
}
use my_ngrok.Auth.Service.Rotation.{refresh_once}
use my_ngrok.Auth.Service.Access.{login-user_from_access_token, login-refresh}
use my_ngrok.Auth.Service.Race.{CanIssue, issued_tokens, refresh_race}
use my_ngrok.Auth.Service.Registration.{register-login}
use my_ngrok.Auth.Service.Sample.{
  service, password, address, ann, token, stored_hash, tables, issue_run, refresh_run, login_run,
  register_run,
}

-- The tokens of a run in which the byte is drawn.
abbrev tokens_of : Bytes → ℕ → Tokens
tokens_of access drawn = record {
  access_token = access;
  refresh_token = drawn ∷ [];
  refresh_expires_at = 2592005000000000;
}

abbrev ok_or : {A E : Type 0} → A → Result E A → A
ok_or d (ok a) = a
ok_or d (err e) = d

-- The access token that the sample functions sign for an ID.
access_of : Bytes → Bytes
unfolding sign_jwt
access_of id =
    ok_or [] (sign_jwt service.jwt (access_claims service id (issue_run 1)) service.access_secret)

abbrev refreshed_tables : Tables
refreshed_tables = (refresh service tables token [] [] (refresh_run 1)).0

refreshed_ok :
    refresh service tables token [] [] (refresh_run 1)
    ≡ (refreshed_tables, ok (ann, tokens_of (access_of ann.id) 1))
unfolding access_of refresh refresh_user refresh_revoke refresh_issue issue random_token hash_token
    insert_refresh has_hash revoke_rows find_live find_active sample_primitives sample_encode
    bytes_eq
refreshed_ok = refl

refresh_once_example :
    refresh service (touch_login refreshed_tables ann.id 6) token [] [] (refresh_run 2)
    ≡ (touch_login refreshed_tables ann.id 6, err unauthorized)
refresh_once_example =
    refresh_once service tables refreshed_tables (touch_login refreshed_tables ann.id 6) token [] []
      (refresh_run 1) (refresh_run 2) (ann, tokens_of (access_of ann.id) 1) refreshed_ok
      (one (by_login ann.id 6))

found : (drawn : ℕ) → refresh_user service tables token (refresh_run drawn) ≡ some ann
unfolding refresh_user hash_token find_live find_active sample_primitives sample_encode bytes_eq
found drawn = refl

first_can : CanIssue service (revoke tables stored_hash 4000000001) ann.id (issue_run 1)
unfolding sign_jwt has_hash hash_token revoke_rows sample_primitives sample_encode bytes_eq
first_can = record {
  access = _;
  random = _;
  signed = refl;
  drawn = refl;
  unused = refl;
  inserted = refl;
}

second_can : CanIssue service (revoke refreshed_tables stored_hash 4000000001) ann.id (issue_run 2)
unfolding sign_jwt refresh refresh_user refresh_revoke refresh_issue issue random_token hash_token
    insert_refresh has_hash revoke_rows find_live find_active sample_primitives sample_encode
    bytes_eq
second_can = record {
  access = _;
  random = _;
  signed = refl;
  drawn = refl;
  unused = refl;
  inserted = refl;
}

refresh_race_example :
    ((refresh service tables token [] [] (refresh_run 1)).1
      ≡ ok (
        ann,
        issued_tokens service
            (revoke tables stored_hash 4000000001)
            ann.id
            []
            []
            (issue_run 1)
            first_can,
      ))
    × ((refresh_found service refreshed_tables token [] []
          (refresh_run 2)
          (refresh_user service tables token (refresh_run 2))).1
        ≡ ok (
          ann,
          issued_tokens service
              (revoke refreshed_tables stored_hash 4000000001)
              ann.id
              []
              []
              (issue_run 2)
              second_can,
        ))
refresh_race_example =
    refresh_race service tables token [] [] (refresh_run 1) (refresh_run 2) ann (found 1) (found 2)
      refl refl first_can second_can

abbrev logged_in_tables : Tables
logged_in_tables = (login service tables address password [] [] (login_run 1)).0

logged_in :
    login service tables address password [] [] (login_run 1)
    ≡ (logged_in_tables, ok (ann, tokens_of (access_of ann.id) 1))
unfolding access_of login normalize_email to_lower trim_space trim_left reversed find_email
    touch_user issue random_token hash_token insert_refresh has_hash sample_primitives sample_encode
    bytes_eq
logged_in = refl

claims_of : Marshals service.jwt (access_claims service ann.id (issue_run 1))
unfolding sample_primitives
claims_of = record { payload = _; written = refl; read = refl }

abbrev nobody : Bytes
nobody = []

named : ann.id ≢ nobody
named e = cc

login-user_from_access_token_example :
    user_from_access_token service tables (access_of ann.id) 6000000000 false ≡ (
      if ltb_ℤ (unix (5000000000 + 900000000000)) (unix 6000000000)
      then err unauthorized
      else current_user false (find_active tables.users ann.id))
unfolding sample_primitives
login-user_from_access_token_example =
    login-user_from_access_token service tables logged_in_tables address password [] []
      (login_run 1) ann (tokens_of (access_of ann.id) 1) sample-IsBase64 claims_of named logged_in
      tables 6000000000 false

account : find_active tables.users ann.id ≡ some ann
unfolding find_active bytes_eq
account = refl

after_login_can :
    CanIssue service
      (revoke logged_in_tables (hash_token service (1 ∷ [])) 4000000001)
      ann.id
      (issue_run 2)
unfolding sign_jwt login normalize_email to_lower trim_space trim_left reversed find_email
    touch_user issue random_token hash_token insert_refresh has_hash revoke_rows sample_primitives
    sample_encode bytes_eq
after_login_can = record {
  access = _;
  random = _;
  signed = refl;
  drawn = refl;
  unused = refl;
  inserted = refl;
}

not_empty : bytes_eq (1 ∷ []) [] ≡ false
unfolding bytes_eq
not_empty = refl

login-refresh_example :
    (refresh service logged_in_tables (1 ∷ []) [] [] (refresh_run 2)).1
    ≡ ok (
      ann,
      issued_tokens service
          (revoke logged_in_tables (hash_token service (1 ∷ [])) 4000000001)
          ann.id
          []
          []
          (issue_run 2)
          after_login_can,
    )
login-refresh_example =
    login-refresh service tables logged_in_tables address password [] [] (login_run 1) ann
      (tokens_of (access_of ann.id) 1) logged_in (refresh_run 2) refl (omega arith) not_empty
      account refl after_login_can

abbrev registered_tables : Tables
registered_tables = (register service tables (bytes " New@b.c") password register_run).0

abbrev new_user : User
new_user = record { id = bytes "u2"; email = bytes "new@b.c" }

registered :
    register service tables (bytes " New@b.c") password register_run
    ≡ (registered_tables, ok new_user)
unfolding register normalize_email valid_email count_byte has_prefix has_suffix to_lower trim_space
    trim_left reversed find_email insert_user bytes_eq
registered = refl

accepts :
    (hash : Bytes)
    → service.generate_from_password password ≡ some hash
    → service.compare_hash_and_password hash password ≡ true
accepts hash e = let same : hash ≡ 1 ∷ password = cc in (bytes_eq_iff hash (1 ∷ password)).1 same

same_address : normalize_email (bytes "new@b.c") ≡ normalize_email (bytes " New@b.c")
unfolding normalize_email to_lower trim_space trim_left reversed
same_address = refl

new_can :
    CanIssue service
      (touch_login registered_tables (bytes "u2") 4000000000)
      (bytes "u2")
      (issue_run 1)
unfolding sign_jwt register normalize_email valid_email count_byte has_prefix has_suffix to_lower
    trim_space trim_left reversed find_email insert_user bytes_eq hash_token has_hash
    sample_primitives sample_encode
new_can = record {
  access = _;
  random = _;
  signed = refl;
  drawn = refl;
  unused = refl;
  inserted = refl;
}

register-login_example :
    (login service registered_tables (bytes "new@b.c") password [] [] (login_run 1)).1
    ≡ ok (
      new_user,
      issued_tokens service
          (touch_login registered_tables (bytes "u2") 4000000000)
          (bytes "u2")
          []
          []
          (issue_run 1)
          new_can,
    )
register-login_example =
    register-login service tables registered_tables (bytes " New@b.c") (bytes "new@b.c") password []
      [] register_run new_user (login_run 1) registered accepts same_address refl refl new_can
