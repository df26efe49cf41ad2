-- ===== src/Usage/Counter.antt =====
-- src/modules/usage-metering/domain/entities/usage-counter.entity.ts, the statements of
-- infrastructure/persistence/typeorm/repositories/usage-counter.typeorm-repository.ts, and
-- application/usage-meter.service.ts. A time is its number of milliseconds from the epoch on.
-- Counts and texts have no bound here; the database refuses a count of 2^31 and a route of more than 255
-- characters.
use hexagonal.Base.{
  ℕ, ◌+◌, ◌-◌, String, Bool, ◌&&◌, ◌==◌, leb, eqb, Option, get_or, List, [], ◌∷◌, if◌then◌else◌,
}
use Prim.Native.Nat.{◌%◌}

-- The columns of the unique index of the table.
pub record CounterKey : Type 0 where
  pub metric_key : String
  pub bucket_start : ℕ
  pub organization_id : String
  pub api_key_id : String
  pub route_key : String
  pub status_code : ℕ

-- The id of the row, a random UUID, is not read.
pub record UsageCounter : Type 0 where
  pub key : CounterKey
  pub user_id : String
  pub count : ℕ
  pub last_seen_at : ℕ

pub record CreateUsageCounterProps : Type 0 where
  pub metric_key : String
  pub organization_id : String
  pub user_id : String
  pub api_key_id : Option String
  pub route_key : String
  pub status_code : ℕ
  pub occurred_at : Option ℕ

abbrev pub hour : ℕ
hour = 3600000

-- `setUTCMinutes(0, 0, 0)`
unfoldable pub hour_of : ℕ → ℕ
hour_of time = time - time % hour

unfoldable pub create : (now : ℕ) → CreateUsageCounterProps → UsageCounter
create now props =
    let occurred_at = get_or props.occurred_at now in
    record {
      key = record {
        metric_key = props.metric_key;
        bucket_start = hour_of occurred_at;
        organization_id = props.organization_id;
        api_key_id = get_or props.api_key_id "";
        route_key = props.route_key;
        status_code = props.status_code;
      };
      user_id = props.user_id;
      count = 1;
      last_seen_at = occurred_at;
    }

abbrev pub same_counter : CounterKey → CounterKey → Bool
same_counter j k =
    (j.metric_key == k.metric_key)
    && eqb j.bucket_start k.bucket_start
    && (j.organization_id == k.organization_id)
    && (j.api_key_id == k.api_key_id)
    && (j.route_key == k.route_key)
    && eqb j.status_code k.status_code

abbrev pub greatest : ℕ → ℕ → ℕ
greatest m n = if leb m n then n else m

-- `INSERT … ON CONFLICT … DO UPDATE`
unfoldable pub increment : UsageCounter → List UsageCounter → List UsageCounter
increment counter [] = counter ∷ []
increment counter (row ∷ rows) =
    let rest = increment counter rows in
    if same_counter row.key counter.key
    then (record row {
      count = row.count + counter.count;
      last_seen_at = greatest row.last_seen_at counter.last_seen_at;
      user_id = counter.user_id;
    })
      ∷ rows
    else row ∷ rest

-- `record` of the service.
unfoldable pub record_usage :
    (now : ℕ) → CreateUsageCounterProps → List UsageCounter → List UsageCounter
record_usage now command = increment (create now command)

-- The `WHERE` clause of `getApiKeyRequestSummary` and the columns that it groups by.
abbrev pub is_counted :
    (organization_id : String) (since : ℕ) (api_key_id route_key : String) (status_code : ℕ)
    → CounterKey
    → Bool
is_counted organization_id since api_key_id route_key status_code key =
    (key.organization_id == organization_id)
    && (key.metric_key == "api_key.request")
    && leb since key.bucket_start
    && (key.api_key_id == api_key_id)
    && (key.route_key == route_key)
    && eqb key.status_code status_code

abbrev pub sum_counts : (CounterKey → Bool) → List UsageCounter → ℕ
sum_counts test [] = 0
sum_counts test (row ∷ rows) =
    let rest = sum_counts test rows in if test row.key then row.count + rest else rest

-- `SUM("usage"."count")` of one group.
unfoldable pub total_count :
    (organization_id : String) (since : ℕ) (api_key_id route_key : String) (status_code : ℕ)
    → List UsageCounter
    → ℕ
total_count organization_id since api_key_id route_key status_code =
    sum_counts (is_counted organization_id since api_key_id route_key status_code)
