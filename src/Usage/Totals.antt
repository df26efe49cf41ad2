-- ===== src/Usage/Totals.antt =====
-- What the counters of src/modules/usage-metering add up to.
use Prim.Native.Nat.{◌%◌}
use hexagonal.Base.{
  ℕ, ◌+◌, ◌≤◌, ◌<◌, ◌≡◌, refl, ap, ◌∙◌, inl, inr, String, Bool, true, ◌&&◌, ◌==◌, leb, eqb, List,
  [], ◌∷◌, filter, length, get_or, arith, eq_iff, Bool-cases, if◌then◌else◌,
}
use hexagonal.Usage.Counter.{
  CounterKey, UsageCounter, CreateUsageCounterProps, hour, hour_of, create, same_counter, increment,
  record_usage, is_counted, sum_counts, total_count,
}

same_counter-eq : (j k : CounterKey) → same_counter j k ≡ true → j ≡ k
same_counter-eq j k e =
    let metric : j.metric_key ≡ k.metric_key = ground (arith, eq_iff j.metric_key k.metric_key) in
    let bucket : j.bucket_start ≡ k.bucket_start = ground arith in
    let organization : j.organization_id ≡ k.organization_id =
      ground (arith, eq_iff j.organization_id k.organization_id) in
    let api_key : j.api_key_id ≡ k.api_key_id = ground (arith, eq_iff j.api_key_id k.api_key_id) in
    let route : j.route_key ≡ k.route_key = ground (arith, eq_iff j.route_key k.route_key) in
    let status : j.status_code ≡ k.status_code = ground arith in
    λ i. record {
      metric_key = metric i;
      bucket_start = bucket i;
      organization_id = organization i;
      api_key_id = api_key i;
      route_key = route i;
      status_code = status i;
    }

-- One request, with the time at which it is recorded.
pub record Usage : Type 0 where
  pub now : ℕ
  pub command : CreateUsageCounterProps

unfoldable pub record_all : List Usage → List UsageCounter → List UsageCounter
record_all [] counters = counters
record_all (u ∷ us) counters = record_all us (record_usage u.now u.command counters)

abbrev pub key_of : Usage → CounterKey
key_of u = (create u.now u.command).key

create-count : (now : ℕ) (props : CreateUsageCounterProps) → (create now props).count ≡ 1
unfolding create
create-count now props = refl

module _ (test : CounterKey → Bool) where
  sum_counts-increment :
      (counter : UsageCounter) (rows : List UsageCounter)
      → sum_counts test (increment counter rows)
        ≡ (if test counter.key then counter.count else 0) + sum_counts test rows
  unfolding increment
  sum_counts-increment counter [] = ground arith
  sum_counts-increment counter (row ∷ rows) = elim (Bool-cases (same_counter row.key counter.key)) [
    | inl same ↦
        let equal : test row.key ≡ test counter.key =
          ap test (same_counter-eq row.key counter.key same) in
        ground arith
    | inr other ↦ ground (arith, sum_counts-increment counter rows)
  ]

  sum_counts-record_all :
      (us : List Usage) (rows : List UsageCounter)
      → sum_counts test (record_all us rows)
        ≡ length (filter (λ u. test (key_of u)) us) + sum_counts test rows
  unfolding record_all record_usage
  sum_counts-record_all [] rows = omega arith
  sum_counts-record_all (u ∷ us) rows = ground (
    arith,
    sum_counts-record_all us (record_usage u.now u.command rows),
    sum_counts-increment (create u.now u.command) rows,
    create-count u.now u.command,
  )

hour_of-lem :
    (time : ℕ) → (hour_of time % hour ≡ 0) × (hour_of time ≤ time) × (time < hour_of time + hour)
unfolding hour_of
hour_of-lem time = (omega arith, omega arith, omega arith)

-- A time lies after a full hour if its own hour does.
since_hour_of : (since time : ℕ) → since % hour ≡ 0 → leb since (hour_of time) ≡ leb since time
unfolding hour_of
since_hour_of since time full = ground arith

abbrev pub time_of : Usage → ℕ
time_of u = get_or u.command.occurred_at u.now

-- The request is one of the key on the route, with the status, since the time.
abbrev pub is_request :
    (organization_id : String) (since : ℕ) (api_key_id route_key : String) (status_code : ℕ)
    → Usage
    → Bool
is_request organization_id since api_key_id route_key status_code u =
    (u.command.organization_id == organization_id)
    && (u.command.metric_key == "api_key.request")
    && leb since (time_of u)
    && (get_or u.command.api_key_id "" == api_key_id)
    && (u.command.route_key == route_key)
    && eqb u.command.status_code status_code

counted_is_request :
    (organization_id : String) (since : ℕ) (api_key_id route_key : String) (status_code : ℕ)
    → since % hour ≡ 0
    → (u : Usage)
    → is_counted organization_id since api_key_id route_key status_code (key_of u)
      ≡ is_request organization_id since api_key_id route_key status_code u
unfolding create
counted_is_request organization_id since api_key_id route_key status_code full u =
    rw (since_hour_of since (time_of u) full) refl

filter-same :
    (p q : Usage → Bool) → ((u : Usage) → p u ≡ q u) → (us : List Usage) → filter p us ≡ filter q us
filter-same p q same [] = refl
filter-same p q same (u ∷ us) = ground (arith, same u, filter-same p q same us)

-- Over requests that are recorded from an empty table on, in any order, the total of a key, route and
-- status in a window that starts at a full hour is the number of these requests in the window.
pub total_count-record_all :
    (organization_id : String) (since : ℕ) (api_key_id route_key : String) (status_code : ℕ)
    → since % hour ≡ 0
    → (us : List Usage)
    → total_count organization_id since api_key_id route_key status_code (record_all us [])
      ≡ length (filter (is_request organization_id since api_key_id route_key status_code) us)
unfolding total_count
total_count-record_all organization_id since api_key_id route_key status_code full us =
    omega (
      arith,
      sum_counts-record_all (is_counted organization_id since api_key_id route_key status_code) us
          [],
    )
    ∙ ap length (
        filter-same
          (λ u. is_counted organization_id since api_key_id route_key status_code (key_of u))
          (is_request organization_id since api_key_id route_key status_code)
          (counted_is_request organization_id since api_key_id route_key status_code full) us)
