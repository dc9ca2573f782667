-- ===== src/Agents/Examples.antt =====
-- A token that an agent uses, and its owner revokes.
use my_ngrok.Base.{
  executed, false, [], ◌∷◌, ◌++◌, none, Bytes, bytes, bytes_eq, Result, ok, err, ◌≡◌, refl,
}
use my_ngrok.Strings.{
  has_prefix, drop_prefix, trim_prefix, trim_left, trim_space, reversed, contains_byte, split,
  split_on,
}
use my_ngrok.Gateway.Sessions.{new_session_manager}
use my_ngrok.Auth.Jwt.{sign_jwt, verify_jwt}
use my_ngrok.Auth.Jwt.Sample.{sample_primitives, sample_encode, sample_decode}
use my_ngrok.Auth.Tables.{find_active}
use my_ngrok.Auth.Service.{access_claims, user_from_access_token}
use my_ngrok.Auth.Service.Sample.{service, ann, tables, issue_run}
use my_ngrok.Agents.{TokenRow, Digests, has_hash, revoke_rows, returning, revoke}
use my_ngrok.Agents.Revocation.{Unique}
use my_ngrok.Agents.Http.{
  HttpHandler, Request, World, Run, Reply, no_payload, bearer, handle_revoke, serve_http,
}
use my_ngrok.Agents.Http.Cutoff.{CutOff, serve_http-CutOff}

abbrev digests : Digests
digests = record { sha256_hex = λ text. 0 ∷ text; encode = λ text. text }

abbrev token : TokenRow
token = record {
  id = bytes "t1";
  user_id = ann.id;
  name = bytes "laptop";
  token_prefix = bytes "tkn_1";
  token_hash = 0 ∷ bytes "tkn_1";
  created_at = 1;
  last_used_at = none;
  expires_at = none;
  revoked_at = none;
}

abbrev world : World
world = record {
  accounts = tables;
  tables = record { agent_tokens = token ∷ []; agents = [] };
  sessions = new_session_manager;
}

abbrev handler : HttpHandler
handler = record { digests = digests; auth = service }

abbrev ok_or : {A E : Type 0} → A → Result E A → A
ok_or d (ok a) = a
ok_or d (err e) = d

-- The access token that the sample functions sign.
access : Bytes
unfolding sign_jwt
access =
    ok_or []
      (sign_jwt service.jwt (access_claims service ann.id (issue_run 1)) service.access_secret)

abbrev request : Request
request = record {
  method = bytes "DELETE";
  path = bytes "/api/v1/agent-tokens/t1";
  authorization = bytes "Bearer " ++ access;
  name = none;
}

abbrev run : Run
run = record {
  auth_at = 6000000000;
  auth_fails = false;
  list_fails = false;
  create = record { random = none; id = []; now = 6000000000; insert = executed };
  revoke_at = 6000000000;
  revoke = executed;
}

abbrev after : World
after = (serve_http handler world request run).0

abbrev no_content : Reply
no_content = record { status = 204; payload = no_payload }

served : serve_http handler world request run ≡ (after, no_content)
unfolding access serve_http bearer handle_revoke revoke revoke_rows returning user_from_access_token
    verify_jwt split split_on has_prefix drop_prefix trim_prefix trim_left trim_space reversed
    contains_byte sample_primitives sample_encode sample_decode bytes_eq find_active
served = refl

unique : Unique world.tables.agent_tokens
unfolding Unique has_hash
unique = (refl, tt)

serve_http-CutOff_example : CutOff handler world request run after
serve_http-CutOff_example =
    serve_http-CutOff handler world request run unique after no_content served refl
