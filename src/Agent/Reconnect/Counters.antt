-- ===== src/Agent/Reconnect/Counters.antt =====
-- The metrics that the client reports.
use my_ngrok.Base.{
  u64, ℕ, ◌+◌, ◌*◌, ◌≤◌, ◌≡◌, refl, ap, if_cases, Bool, true, false, List, [], ◌∷◌, ◌++◌, All,
  All-append, length, length-append, arith,
}
use my_ngrok.Agent.Reconnect.{
  SessionMetrics, Client, Attempt, Run, Progress, looping, returned, report, on_connected,
  on_disconnected, session, retry, begin_run, iterate, run,
}

-- Each session is counted once when it begins, and once when it has ended, modulo 2^64; one is open at
-- a time.
abbrev pub IsBalanced : SessionMetrics → Type 0
IsBalanced m =
    (m.connections_total ≡ u64 (m.disconnections_total + m.active_sessions))
    × (m.active_sessions ≤ 1)

abbrev pub reached : Progress → Run
reached (looping r) = r
reached (returned r) = r

-- Between two attempts no session is open, and each has been reported twice.
pub record Inv (r : Run) : Type 0 where
  pub closed : r.metrics.active_sessions ≡ 0
  pub balanced : r.metrics.connections_total ≡ r.metrics.disconnections_total
  pub reported : All IsBalanced r.reports
  pub bounded : r.metrics.connections_total ≡ u64 r.metrics.connections_total
  pub twice : (k : ℕ) × (length r.reports ≡ 2 * k) × (r.metrics.connections_total ≡ u64 k)

session-Inv : (r : Run) (connected : Bool) → Inv r → Inv (session r connected)
unfolding session on_connected on_disconnected report
session-Inv r false v = v
session-Inv r true v =
    let c = v.closed in
    let b = v.balanced in
    record {
      closed = refl;
      balanced = ap (λ n. u64 (n + 1)) b;
      bounded = omega arith;
      reported =
          All-append IsBalanced (r.reports ++ began r ∷ []) _
            (All-append IsBalanced r.reports _ v.reported (omega arith, tt)) (omega arith, tt);
      twice =
          let (k, twice, total) = v.twice in
          (
            k + 1,
            omega (
              arith,
              twice,
              length-append r.reports (began r ∷ []),
              length-append (r.reports ++ began r ∷ []) (ended r ∷ []),
            ),
            omega (arith, total),
          );
    }
  where
    began : Run → SessionMetrics
    began r = (on_connected r).metrics

    ended : Run → SessionMetrics
    ended r = (on_disconnected (on_connected r)).metrics

iterate-Inv : (c : Client) (r : Run) (a : Attempt) → Inv r → Inv (reached (iterate c r a))
unfolding iterate retry
iterate-Inv c r a v =
    let s = session-Inv r a.connected v in
    if_cases P a.context_done _ _ (λ done. s)
      λ live.
        if_cases P a.errored _ _
          (λ bad. if_cases P a.waited _ _ (λ on. again _ _ s) (λ cut. again _ _ s))
          (λ good. again _ _ s)
  where
    P : Progress → Type 0
    P p = Inv (reached p)

    again : {r : Run} (d : ℕ) (ds : List ℕ) → Inv r → Inv (record r { delay = d; retries = ds })
    again d ds v = record {
      closed = v.closed;
      balanced = v.balanced;
      bounded = v.bounded;
      reported = v.reported;
      twice = v.twice;
    }

run-Inv :
    (c : Client) (p : Progress) (attempts : List Attempt)
    → Inv (reached p)
    → Inv (reached (run c p attempts))
unfolding run
run-Inv c (looping r) (a ∷ attempts) v = run-Inv c (iterate c r a) attempts (iterate-Inv c r a v)
run-Inv c (looping r) [] v = v
run-Inv c (returned r) attempts v = v

-- However the attempts go: in every metrics value that is reported, the sessions begun are those
-- ended and the one that is open, if any, modulo 2^64; there are two reports for each of some number of
-- sessions, and the total of the connections is that number modulo 2^64.
pub run_reports :
    (c : Client) (attempts : List Attempt)
    → let r = reached (run c (looping (begin_run c)) attempts) in
      All IsBalanced r.reports
      × ((k : ℕ) × (length r.reports ≡ 2 * k) × (r.metrics.connections_total ≡ u64 k))
unfolding begin_run
run_reports c attempts =
    let v = run-Inv c (looping (begin_run c)) attempts (record {
      closed = refl;
      balanced = refl;
      bounded = refl;
      reported = tt;
      twice = (0, refl, refl);
    }) in
    (v.reported, v.twice)
