-- ===== src/Agent/Reconnect/Examples.antt =====
-- Six failures in a row.
use my_ngrok.Base.{u64, ℕ, ◌*◌, ◌≡◌, refl, true, false, List, [], ◌∷◌, ◌++◌, All, length}
use my_ngrok.Agent.Reconnect.{Attempt, Run, looping, new, begin_run, run}
use my_ngrok.Agent.Reconnect.Delays.{backoff, run-backoff}
use my_ngrok.Agent.Reconnect.Counters.{IsBalanced, reached, run_reports}

abbrev failing : Attempt
failing = record { connected = false; context_done = false; errored = true; waited = true }

abbrev attempts : List Attempt
attempts =
    failing ∷ record failing { connected = true } ∷ failing ∷ failing ∷ failing ∷ failing ∷ []

run-backoff_example :
    (r' : Run) × (run new (looping (begin_run new)) attempts ≡ looping r')
    × (r'.retries ≡ [] ++ backoff 1000000000 30000000000 attempts)
unfolding new begin_run
run-backoff_example = run-backoff new attempts (begin_run new) 1000000000 refl (
  refl,
  refl,
  refl,
  (
    refl,
    refl,
    refl,
    (refl, refl, refl, (refl, refl, refl, (refl, refl, refl, (refl, refl, refl, tt)))),
  ),
)

delays : backoff 1 30 attempts ≡ 1 ∷ 2 ∷ 4 ∷ 8 ∷ 16 ∷ 30 ∷ []
delays = refl

run_reports_example :
    let r = reached (run new (looping (begin_run new)) attempts) in
    All IsBalanced r.reports
    × ((k : ℕ) × (length r.reports ≡ 2 * k) × (r.metrics.connections_total ≡ u64 k))
run_reports_example = run_reports new attempts
