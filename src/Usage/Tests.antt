-- ===== src/Usage/Tests.antt =====
-- The counters of a concrete history, and a request whose counter is not stored.
use hexagonal.Base.{◌≡◌, refl, none, some, List, [], ◌∷◌, length, filter}
use hexagonal.Usage.Counter.{
  CreateUsageCounterProps, hour_of, create, increment, record_usage, total_count,
}
use hexagonal.Usage.Totals.{Usage, record_all, is_request, total_count-record_all}

abbrev call : CreateUsageCounterProps
call = record {
  metric_key = "api_key.request";
  organization_id = "o";
  user_id = "u";
  api_key_id = some "k";
  route_key = "/members";
  status_code = 200;
  occurred_at = none;
}

abbrev calls : List Usage
calls =
    record { now = 3600001; command = call }
    ∷ record { now = 7200000; command = call }
    ∷ record { now = 3600002; command = call }
    ∷ record { now = 5; command = call }
    ∷ []

total_count-record_all_example :
    total_count "o" 3600000 "k" "/members" 200 (record_all calls [])
    ≡ length (filter (is_request "o" 3600000 "k" "/members" 200) calls)
total_count-record_all_example = total_count-record_all "o" 3600000 "k" "/members" 200 refl calls

three_calls : total_count "o" 3600000 "k" "/members" 200 (record_all calls []) ≡ 3
unfolding total_count record_all record_usage create hour_of increment
three_calls = refl

-- A window that starts within an hour leaves out what was counted in the rest of that hour.
partial_hour : total_count "o" 3600001 "k" "/members" 200 (record_all calls []) ≡ 1
unfolding total_count record_all record_usage create hour_of increment
partial_hour = refl
