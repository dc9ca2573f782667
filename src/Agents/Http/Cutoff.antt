-- ===== src/Agents/Http/Cutoff.antt =====
-- What the revocation of a token cuts off.
use my_ngrok.Base.{
  Memᴰ, ◌≢◌, ◌⊎◌, sym, Bool, true, false, ◌&&◌, ◌||◌, [], Option, none, some, Bytes, bytes,
  bytes_eq, if◌then◌else◌, if_cases, Result, ok, err, ◌≡◌, refl, ◌∙◌, ap, subst, arith,
}
use my_ngrok.Base.{◌==◌}
use my_ngrok.Strings.{has_prefix, trim_prefix, contains_byte}
use my_ngrok.Gateway.Sessions.{disconnect_token_hash}
use my_ngrok.Auth.Jwt.{AuthError}
use my_ngrok.Auth.Tables.{User}
use my_ngrok.Auth.Service.{user_from_access_token}
use my_ngrok.Agents.{AgentTables, AgentError, TokenRow, CreatedToken, create, revoke}
use my_ngrok.Agents.Revocation.{
  Unique, Spent, revoke-Spent, revoke_executed, returning_row, revoke_rows-Mem,
}
use my_ngrok.Agents.Http.{
  tokens_path, token_path, bearer, HttpHandler, Request, World, Run, Reply, handle_list,
  handle_create, handle_revoke, reply_created, reply_revoked, route_user, serve_http, write_error,
}

-- What a request that is answered 204 has done: its access token stands for a user, who owns a stored
-- token that has the ID of the path and was not revoked. No row with that token's hash can be used any
-- more, the gateway has been told to disconnect the sessions of that hash, and the rows of other tokens
-- and of other users are as they were.
pub record CutOff (h : HttpHandler) (w : World) (r : Request) (run : Run) (w' : World)
    : Type 0 where
  pub user : User
  pub token : TokenRow
  pub authenticated :
      user_from_access_token h.auth w.accounts (bearer r) run.auth_at run.auth_fails ≡ ok user
  pub stored : Memᴰ token w.tables.agent_tokens
  pub requested : token.id ≡ trim_prefix r.path token_path
  pub owned : token.user_id ≡ user.id
  pub unrevoked : token.revoked_at ≡ none
  pub spent : Spent token.token_hash w'.tables
  pub sessions : w'.sessions ≡ disconnect_token_hash w.sessions token.token_hash
  pub others :
      (row : TokenRow)
      → (row.id ≢ token.id) ⊎ (row.user_id ≢ user.id)
      → Memᴰ row w.tables.agent_tokens
      → Memᴰ row w'.tables.agent_tokens

module _ (h : HttpHandler) (w : World) (r : Request) (run : Run)
    (u : Unique w.tables.agent_tokens) where
  -- A reply 204 comes with all that.
  Revokes : World × Reply → Type 0
  Revokes x = x.1.status ≡ 204 → CutOff h w r run x.0

  revoked_cuts :
      (user : User)
      → user_from_access_token h.auth w.accounts (bearer r) run.auth_at run.auth_fails ≡ ok user
      → (x : AgentTables × Result AgentError (Option Bytes))
      → revoke w.tables user.id (trim_prefix r.path token_path) run.revoke_at run.revoke ≡ x
      → Revokes (reply_revoked w x)
  unfolding Revokes
  revoked_cuts user a (t, err e) e' s = ground arith
  revoked_cuts user a (t, ok none) e' s = ground arith
  revoked_cuts user a (t, ok (some hash)) e' s =
      let id = trim_prefix r.path token_path in
      let (found, after) = revoke_executed w.tables t user.id id hash run.revoke_at run.revoke e' in
      let (token, there, named, owned, unset, same) =
        returning_row w.tables.agent_tokens id user.id hash found in
      record {
        user = user;
        token = token;
        authenticated = a;
        stored = there;
        requested = named;
        owned = owned;
        unrevoked = unset;
        spent = rw same (revoke-Spent w.tables t user.id id hash run.revoke_at run.revoke u e');
        sessions = ap (disconnect_token_hash w.sessions) (sym same);
        others = λ row foreign held. subst (Memᴰ row) (sym after) (
            revoke_rows-Mem w.tables.agent_tokens id user.id run.revoke_at row (rw named at foreign)
              held);
      }

  either : (b : Bool) (x y : World × Reply) → Revokes x → Revokes y → Revokes (if b then x else y)
  either true x y hx hy = hx
  either false x y hx hy = hy

  -- A reply of another status.
  not_204 : (x : World × Reply) → (x.1.status == 204) ≡ false → Revokes x
  unfolding Revokes
  not_204 x other s = ground arith

  list_cuts : (user : User) → Revokes (w, handle_list w user run)
  list_cuts user =
      not_204 (w, handle_list w user run)
        (if_cases (λ (reply : Reply). (reply.status == 204) ≡ false) run.list_fails _ _ (λ _. refl)
          (λ _. refl))

  created_cuts : (x : AgentTables × Result AgentError CreatedToken) → Revokes (reply_created w x)
  created_cuts (t, ok created) = not_204 (reply_created w (t, ok created)) refl
  created_cuts (t, err e) = not_204 (reply_created w (t, err e)) refl

  create_cuts : (user : User) (name : Option Bytes) → Revokes (handle_create h w user name run)
  create_cuts user none = not_204 (handle_create h w user none run) refl
  create_cuts user (some name) = created_cuts (create h.digests w.tables user.id name run.create)

  not_found_cuts : Revokes (w, write_error 404 (bytes "NOT_FOUND"))
  not_found_cuts = not_204 (w, write_error 404 (bytes "NOT_FOUND")) refl

  revoke_cuts :
      (user : User)
      → user_from_access_token h.auth w.accounts (bearer r) run.auth_at run.auth_fails ≡ ok user
      → Revokes (handle_revoke w user r run)
  unfolding handle_revoke
  revoke_cuts user a =
      let id = trim_prefix r.path token_path in
      either (bytes_eq id [] || contains_byte id 47) _ _ not_found_cuts
        (revoked_cuts user a (revoke w.tables user.id id run.revoke_at run.revoke) refl)

  route_cuts :
      (x : Result AuthError User)
      → user_from_access_token h.auth w.accounts (bearer r) run.auth_at run.auth_fails ≡ x
      → Revokes (route_user h w x r run)
  route_cuts (err e) a = not_204 (route_user h w (err e) r run) refl
  route_cuts (ok user) a =
      either (bytes_eq r.path tokens_path && bytes_eq r.method (bytes "GET")) _ _ (list_cuts user) (
        either (bytes_eq r.path tokens_path && bytes_eq r.method (bytes "POST")) _ _
          (create_cuts user r.name)
          (either (has_prefix r.path token_path && bytes_eq r.method (bytes "DELETE")) _ _
            (revoke_cuts user a) not_found_cuts))

  -- A request that is answered 204 has revoked a token, when no two tokens had one hash. The token was
  -- stored and not revoked, it belongs to the user whom the request's access token stands for, and its ID
  -- is the rest of the path. Its hash is stored and every row of it is revoked, the gateway has been told
  -- to disconnect the sessions of that hash, and the rows of other tokens and of other users stay as they
  -- were.
  pub serve_http-CutOff :
      (w' : World) (reply : Reply)
      → serve_http h w r run ≡ (w', reply)
      → reply.status ≡ 204
      → CutOff h w r run w'
  unfolding serve_http Revokes
  serve_http-CutOff w' reply e s = subst (CutOff h w r run) (ap (λ x. x.0) e) (
      route_cuts (user_from_access_token h.auth w.accounts (bearer r) run.auth_at run.auth_fails)
        refl (ap (λ x. x.1.status) e ∙ s))
