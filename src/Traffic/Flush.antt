-- ===== src/Traffic/Flush.antt =====
-- Where the drained traffic goes.
use my_ngrok.Base.{
  ◌+◌, leb, not, ◌&&◌, arith, Fate, executed, not_executed, reply_lost, exec, Bool, true, false, [],
  ◌∷◌, Option, none, some, Bytes, bytes_eq, bytes_eq_iff, if◌then◌else◌, ◌≡◌, refl, sym, ap, ◌∙◌,
  Bool-cases, inl, inr,
}
use my_ngrok.Map.{Map, get, put, value_or, Distinct}
use my_ngrok.Map.Laws.{get-put}
use my_ngrok.Tunnels.Registry.{TrafficMetrics, Registry, no_traffic, drain_user_deltas}
use my_ngrok.Traffic.{Totals, overflows, added, add_delta, flush_all, flush_traffic}

-- The three sums, and that one of them is above the largest BIGINT, 2^63 - 1.
abbrev pub total_and : TrafficMetrics → TrafficMetrics → TrafficMetrics
total_and total delta = record {
  requests_total = delta.requests_total + total.requests_total;
  request_bytes = delta.request_bytes + total.request_bytes;
  response_bytes = delta.response_bytes + total.response_bytes;
}

abbrev pub is_out_of_range : TrafficMetrics → Bool
is_out_of_range t = not (
    leb t.requests_total 9223372036854775807
    && leb t.request_bytes 9223372036854775807
    && leb t.response_bytes 9223372036854775807)

-- A user's totals after a statement: the old or the sum, by its fate and by whether the sum overflows.
abbrev pub settle_when : Fate → Bool → TrafficMetrics → TrafficMetrics → TrafficMetrics
settle_when f true total sum = total
settle_when executed false total sum = sum
settle_when not_executed false total sum = total
settle_when reply_lost false total sum = sum

abbrev pub settle : Fate → TrafficMetrics → TrafficMetrics → TrafficMetrics
settle f total delta =
    settle_when f (is_out_of_range (total_and total delta)) total (total_and total delta)

added_lem : (total delta : TrafficMetrics) → added total delta ≡ total_and total delta
added_lem total delta = ground arith

overflows-added :
    (total delta : TrafficMetrics)
    → overflows (added total delta) ≡ is_out_of_range (total_and total delta)
overflows-added total delta = ground arith

-- A user's totals after a flush: settled with the user's delta, if there is one.
abbrev pub settled : Fate → TrafficMetrics → Option TrafficMetrics → TrafficMetrics
settled f total none = total
settled f total (some delta) = settle f total delta

abbrev pub total_of : Totals → Bytes → TrafficMetrics
total_of t user = value_or no_traffic (get t user)

total-put :
    (t : Totals) (user : Bytes) (v : TrafficMetrics) (key : Bytes)
    → total_of (put t user v) key ≡ (if bytes_eq user key then v else total_of t key)
total-put t user v key = elim (Bool-cases (bytes_eq user key)) [
  | inl hit ↦ rw (get-put t user v key, hit) refl
  | inr miss ↦ rw (get-put t user v key, miss) refl
]

unchanged :
    (t : Totals) (user key : Bytes)
    → total_of t key ≡ (if bytes_eq user key then total_of t user else total_of t key)
unchanged t user key = elim (Bool-cases (bytes_eq user key)) [
  | inl hit ↦ rw hit (ap (total_of t) (sym ((bytes_eq_iff user key).0 hit)))
  | inr miss ↦ rw miss refl
]

-- One statement, for the totals of any user.
total-add_delta :
    (t : Totals) (user : Bytes) (delta : TrafficMetrics) (f : Fate) (key : Bytes)
    → total_of (add_delta t user delta f).0 key
      ≡ (if bytes_eq user key then settle f (total_of t user) delta else total_of t key)
unfolding add_delta
total-add_delta t user delta f key =
    rw (overflows-added (total_of t user) delta, added_lem (total_of t user) delta)
      (by_fate f (is_out_of_range (total_and (total_of t user) delta)))
  where
    sum : TrafficMetrics
    sum = total_and (total_of t user) delta

    by_fate :
        (f : Fate) (over : Bool)
        → total_of (if over then (t, false) else exec f t (put t user sum)).0 key
          ≡ (if bytes_eq user key then settle_when f over (total_of t user) sum else total_of t key)
    by_fate executed true = unchanged t user key
    by_fate executed false = total-put t user sum key
    by_fate not_executed true = unchanged t user key
    by_fate not_executed false = unchanged t user key
    by_fate reply_lost true = unchanged t user key
    by_fate reply_lost false = total-put t user sum key

-- The loop, for the totals of any user.
total-flush_all :
    (deltas : Map TrafficMetrics) (t : Totals) (fates : Bytes → Fate) (key : Bytes)
    → Distinct deltas
    → total_of (flush_all t deltas fates) key
      ≡ settled (fates key) (total_of t key) (get deltas key)
unfolding flush_all get
total-flush_all [] t fates key d = refl
total-flush_all ((user, delta) ∷ deltas) t fates key d =
    total-flush_all deltas (add_delta t user delta (fates user)).0 fates key d.1
    ∙ ap (λ x. settled (fates key) x (get deltas key))
        (total-add_delta t user delta (fates user) key)
    ∙ elim (Bool-cases (bytes_eq user key)) [
      | inl hit ↦
          let same : user ≡ key = (bytes_eq_iff user key).0 hit in
          rw hit (
            ap (λ o. settled (fates key) (settle (fates user) (total_of t user) delta) o)
              (ap (get deltas) (sym same) ∙ d.0)
            ∙ ap (λ k. settle (fates k) (total_of t k) delta) same)
      | inr miss ↦ rw miss refl
    ]

-- A flush leaves no delta with the registry. A user's totals have grown by the user's delta if the
-- statement was executed and BIGINT holds the sums; otherwise they are what they were, so that the delta is
-- in neither place.
pub flush_traffic_lem :
    (r : Registry) (t : Totals) (fates : Bytes → Fate) (user : Bytes)
    → Distinct r.per_user
    → ((flush_traffic r t fates).0.per_user ≡ [])
      × (total_of (flush_traffic r t fates).1 user
          ≡ settled (fates user) (total_of t user) (get r.per_user user))
unfolding flush_traffic drain_user_deltas
flush_traffic_lem r t fates user d = (refl, total-flush_all r.per_user t fates user d)
