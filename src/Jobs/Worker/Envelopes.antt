-- ===== src/Jobs/Worker/Envelopes.antt =====
-- The worker reads back what the transport sends.
use hexagonal.Base.{ℕ, String, ◌≡◌, refl, Option, none, some, ok}
use hexagonal.Json.{Json, JsonCodec}
use hexagonal.Jobs.Entity.{AsyncJobEnvelope, JobOutbox, to_envelope}
use hexagonal.Jobs.Worker.{envelope_json, read_envelope, parse_envelope}

read_envelope_json :
    (job_id type published_at : String) (payload : Option Json) (trace_id : Option String)
    → let envelope : AsyncJobEnvelope = record {
      job_id = job_id;
      version = 1;
      type = type;
      payload = payload;
      published_at = published_at;
      trace_id = trace_id;
    } in
      read_envelope (envelope_json envelope) ≡ ok envelope
unfolding envelope_json read_envelope
read_envelope_json job_id type published_at (some payload) (some trace_id) = refl
read_envelope_json job_id type published_at (some payload) none = refl
read_envelope_json job_id type published_at none (some trace_id) = refl
read_envelope_json job_id type published_at none none = refl

-- If parsing undoes the printing of a job's envelope, then the worker reads the body that the
-- transport sends for the job back as that envelope.
pub parse_envelope-stringify :
    (codec : JsonCodec) (to_iso_string : ℕ → String) (job : JobOutbox)
    → codec.parse (codec.stringify (envelope_json (to_envelope to_iso_string job)))
      ≡ some (envelope_json (to_envelope to_iso_string job))
    → parse_envelope codec (codec.stringify (envelope_json (to_envelope to_iso_string job)))
      ≡ ok (to_envelope to_iso_string job)
unfolding parse_envelope to_envelope
parse_envelope-stringify codec to_iso_string job printed =
    let envelope = to_envelope to_iso_string job in
    rw (printed, parse_envelope)
      (read_envelope_json job.id job.type envelope.published_at (some job.payload) job.trace_id)
