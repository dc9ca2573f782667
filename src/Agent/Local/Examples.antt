-- ===== src/Agent/Local/Examples.antt =====
-- A service that answers with three bytes.
use my_ngrok.Base.{
  none, some, bytes_eq, if◌then◌else◌, ℕ, ◌≡◌, inl, inr, refl, Bool, true, List, [], ◌∷◌, ◌++◌, pos,
  negsuc, arith,
}
use my_ngrok.Map.{size}
use my_ngrok.Protocol.Messages.{HttpResponsePayload}
use my_ngrok.Gateway.Sessions.{new_session_manager, register_request, deliver_response}
use my_ngrok.Gateway.Serve.{
  Handler, Serving, running, http_response_start, http_response_end, serve,
}
use my_ngrok.Tunnels.Registry.{new_registry}
use my_ngrok.Agent.Local.Arrivals.{Codec, arrivals, response_of, start_payload}
use my_ngrok.Agent.Local.Delivery.{run_job-deliver_response}
use my_ngrok.Agent.Local.{more, eof, Read, answered, Job, done, start_of, end_message, run_job}
use my_ngrok.Agent.Local.Answers.{messages, Ends, run_job-answered}

abbrev alive : ℕ → Bool
alive k = true

abbrev reads : List Read
reads = record { chunk = 10 ∷ 20 ∷ []; end = more } ∷ record { chunk = 30 ∷ []; end = eof } ∷ []

ends : Ends reads
ends = (omega arith, inr (omega arith, inl (λ e. cc)))

run_job-answered_example :
    (j : Job) × (run_job alive (7 ∷ []) (answered (pos 200) [] reads) ≡ done j)
    × (j.sent
        ≡ start_of (7 ∷ []) (pos 200) [] (negsuc 0) []
          ∷ (messages (7 ∷ []) 0 reads ++ end_message (7 ∷ []) ∷ []))
run_job-answered_example =
    run_job-answered alive (7 ∷ []) (λ k. refl) (pos 200) [] reads (omega arith) (omega arith) ends

abbrev start : HttpResponsePayload
start = start_payload (7 ∷ []) (answered (pos 200) [] reads)

abbrev handler : Handler
handler = record {
  decode = λ bs.
      if bytes_eq bs (1 ∷ [])
      then http_response_start (some start)
      else http_response_end (some (record { request_id = 7 ∷ [] }));
  encode = λ e. [];
  trim_space = λ bs. bs;
  reopen = λ now agent local. none;
  public_base_domain = [];
  has_agents = true;
  has_open_tunnel = true;
}

abbrev codec : Codec
codec = record { encode_start = λ p. 1 ∷ []; encode_end = λ e. 2 ∷ [] }

-- Request 7 waits at the session 5.
abbrev session : Serving
session = record {
  sessions = (register_request new_session_manager (5 ∷ []) (7 ∷ [])).0;
  registry = new_registry;
  responses = [];
  written = [];
  touched = [];
}

run_job-deliver_response_example :
    (j : Job) × (s' : Serving) × (run_job alive (7 ∷ []) (answered (pos 200) [] reads) ≡ done j)
    × (serve handler (5 ∷ []) (running session) (arrivals codec 3 j.sent) ≡ running s')
    × (s'.sessions
        ≡ (deliver_response session.sessions
            (7 ∷ [])
            (response_of (answered (pos 200) [] reads))).0)
unfolding size bytes_eq
run_job-deliver_response_example =
    run_job-deliver_response alive handler codec 3 (5 ∷ []) (7 ∷ []) (answered (pos 200) [] reads)
      session (λ k. refl)
      (record { start_limit = omega arith; end_limit = omega arith; frame_limit = omega arith })
      (refl, refl) (omega arith) (omega arith) (ends, omega arith)
