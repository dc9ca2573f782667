-- ===== src/Agent/Reconnect/Delays.antt =====
-- How long the client waits between its sessions.
use my_ngrok.Base.{
  ℕ, ◌*◌, ◌≡◌, ◌∙◌, refl, sym, ap, true, false, List, [], ◌∷◌, ◌++◌, ltb, if◌then◌else◌, arith,
  append-nil, append_assoc,
}
use my_ngrok.Agent.Reconnect.{
  Client, Attempt, Run, looping, next_delay, session, retry, iterate, run,
}

-- The attempts all end in an error, and in a wait that is not cut short.
abbrev pub AllFail : List Attempt → Type 0
AllFail [] = Unit {0}
AllFail (a ∷ attempts) =
    (a.context_done ≡ false) × (a.errored ≡ true) × (a.waited ≡ true) × AllFail attempts

abbrev pub min : ℕ → ℕ → ℕ
min m n = if ltb n m then n else m

-- One delay for each attempt: the first times the powers of two, cut off at the longest.
abbrev pub backoff : ℕ → ℕ → List Attempt → List ℕ
backoff first longest [] = []
backoff first longest (a ∷ attempts) = min first longest ∷ backoff (first * 2) longest attempts

retry_lem :
    (c : Client) (r : Run) (a : Attempt)
    → a.context_done ≡ false
    → a.errored ≡ true
    → a.waited ≡ true
    → (r' : Run) × (iterate c r a ≡ looping r')
      × (r'.delay ≡ next_delay c r.delay)
      × (r'.retries ≡ r.retries ++ r.delay ∷ [])
unfolding iterate session retry
retry_lem c r a h i j = (
  record (session r a.connected) {
    retries = r.retries ++ r.delay ∷ [];
    delay = next_delay c r.delay;
  },
  ground arith,
  refl,
  refl,
)

next_delay-min :
    (c : Client) (d : ℕ)
    → next_delay c (min d c.reconnect_max_delay) ≡ min (d * 2) c.reconnect_max_delay
next_delay-min c d = ground arith

-- Sessions that fail one after the other are retried after `delay`, 2 · `delay`, 4 · `delay` and so
-- on, each cut off at the longest delay.
pub run-backoff :
    (c : Client) (attempts : List Attempt) (r : Run) (first : ℕ)
    → r.delay ≡ min first c.reconnect_max_delay
    → AllFail attempts
    → (r' : Run) × (run c (looping r) attempts ≡ looping r')
      × (r'.retries ≡ r.retries ++ backoff first c.reconnect_max_delay attempts)
unfolding run
run-backoff c [] r first d f = (r, refl, sym (append-nil r.retries))
run-backoff c (a ∷ attempts) r first d (h, i, j, f) =
    let (m, e, next, told) = retry_lem c r a h i j in
    let (r', went, all) =
      run-backoff c attempts m (first * 2) (next ∙ (ap (next_delay c) d ∙ next_delay-min c first))
        f in
    (
      r',
      ap (λ x. run c x attempts) e ∙ went,
      ground (
        arith,
        append_assoc r.retries (r.delay ∷ []) (backoff (first * 2) c.reconnect_max_delay attempts),
      ),
    )
