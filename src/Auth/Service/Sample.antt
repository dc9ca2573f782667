-- ===== src/Auth/Service/Sample.antt =====
-- A service with concrete functions, an account with a refresh token, and runs without a fault.
use my_ngrok.Base.{executed, ℕ, false, [], ◌∷◌, none, some, Bytes, bytes, bytes_eq}
use my_ngrok.Auth.Jwt.Sample.{sample_primitives}
use my_ngrok.Auth.Tables.{User, UserRow, Tables, active, new_refresh}
use my_ngrok.Auth.Service.{Service, IssueRun, RegisterRun, LoginRun, RefreshRun, hash_token}

abbrev pub service : Service
service = record {
  jwt = sample_primitives;
  generate_from_password = λ password. some (1 ∷ password);
  compare_hash_and_password = λ hash password. bytes_eq hash (1 ∷ password);
  access_secret = 7 ∷ [];
  refresh_secret = 8 ∷ [];
  access_ttl = 900000000000;
  refresh_ttl = 2592000000000000;
}

abbrev pub password : Bytes
password = bytes "long enough"

abbrev pub address : Bytes
address = bytes "a@b.c"

abbrev pub ann : User
ann = record { id = bytes "u1"; email = address }

abbrev pub ann_row : UserRow
ann_row = record {
  id = ann.id;
  email = address;
  password_hash = 1 ∷ password;
  status = active;
  updated_at = 1;
  last_login_at = none;
}

abbrev pub token : Bytes
token = bytes "raw"

-- The hash that the functions above give the token.
abbrev pub stored_hash : Bytes
stored_hash = hash_token service token

abbrev pub tables : Tables
tables = record {
  users = ann_row ∷ [];
  refresh_tokens = new_refresh ann.id stored_hash 5000000000 [] [] ∷ [];
}

abbrev pub issue_run : ℕ → IssueRun
issue_run drawn = record {
  issued_at = 5000000000;
  access_from = 5000000000;
  random = some (drawn ∷ []);
  refresh_from = 5000000000;
  insert = executed;
}

abbrev pub refresh_run : ℕ → RefreshRun
refresh_run drawn = record {
  select_fails = false;
  select_at = 4000000000;
  revoke_at = 4000000001;
  revoke = executed;
  issue = issue_run drawn;
}

abbrev pub login_run : ℕ → LoginRun
login_run drawn = record {
  select_fails = false;
  now = 4000000000;
  update = executed;
  issue = issue_run drawn;
}

abbrev pub register_run : RegisterRun
register_run = record { id = bytes "u2"; now = 3; insert = executed }
