-- ===== src/Queue/Cloudflare/Tests.antt =====
-- Runs of the driver against a small server, and its theorems at concrete inputs.
use proxy_pulse_crunchyroll.Prelude.{
  ℕ, zero, suc, ◌+◌, ◌≤◌, ◌≡◌, refl, true, false, not, List, [], ◌∷◌, ◌++◌, Option, none, some,
  arith, length, All, keep, join,
}
use proxy_pulse_crunchyroll.Text.{codes}
use proxy_pulse_crunchyroll.Queue.{Value, undefined, string, ProxyJob, is_proxy_job}
use proxy_pulse_crunchyroll.Queue.Cloudflare.{
  CloudflareQueue, Message, absent, scalar, object, answered, messages_of, PulledMessage, send_many,
  max_jobs_per_request, pull_size_for,
}
use proxy_pulse_crunchyroll.Queue.Cloudflare.Producing.{send_many_posts}
use proxy_pulse_crunchyroll.Queue.Cloudflare.Consuming.{
  is_valid, handles, is_retried, leases, PullOptions, Remote, Pulling, handle_messages,
  start_pulling, consume,
}
use proxy_pulse_crunchyroll.Queue.Cloudflare.Consuming.Rounds.{handle_messages-settles}
use proxy_pulse_crunchyroll.Queue.Cloudflare.Consuming.Ending.{
  Accounted, IsBounded, consume-Accounted,
}

abbrev check_of : Value → ProxyJob
check_of id = record {
  job_id = id;
  type = string (codes "SERVICE_CHECK");
  cycle_id = string (codes "c1");
  issued_at = codes "2024-01-01T00:00:00.000Z";
  proxy_id = undefined;
  reason = none;
  attempt = none;
}

abbrev queue : CloudflareQueue
queue = record {
  pull_size = 2;
  max_retries = 2;
  outbound = check_of (string (codes "a")) ∷ [];
  dropped = 0;
  closed = false;
}

abbrev once : PullOptions
once = record { concurrency = 4; drain_only = true; max_jobs = some 3 }

-- A message without a body is read as the job itself, and a body that is no object is none.
abbrev first_message : Message
first_message = record {
  metadata_lease_id = string (codes "l1");
  lease_id = undefined;
  body = absent;
  whole = check_of (string (codes "a"));
}

abbrev second_message : Message
second_message = record {
  metadata_lease_id = undefined;
  lease_id = string (codes "l2");
  body = scalar;
  whole = check_of undefined;
}

abbrev answer : ℕ → List Message
answer zero = []
answer (suc zero) = first_message ∷ []
answer (suc (suc size)) = first_message ∷ second_message ∷ []

abbrev server : Remote
server = record {
  stopped = λ round. false;
  pull = λ round size. answered (answer size);
  succeeds = λ round job. false;
}

server-IsBounded : IsBounded server
unfolding messages_of
server-IsBounded round zero = omega arith
server-IsBounded round (suc zero) = omega arith
server-IsBounded round (suc (suc size)) = omega arith

abbrev messages : List PulledMessage
messages =
    record { body = object (check_of (string (codes "a"))); lease_id = codes "l1" }
    ∷ record { body = scalar; lease_id = codes "l2" }
    ∷ []

pulled_messages : messages_of (answered (answer 2)) ≡ messages
unfolding messages_of
pulled_messages = refl

-- A failing job is asked to be retried in every round, since the body counts no attempts.
abbrev acked_of :
    Option (CloudflareQueue × Pulling × List (List ProxyJob)) → List (List (List ℕ) × List (List ℕ))
acked_of none = []
acked_of (some r) = r.1.acked

drain_run :
    acked_of (consume (λ c. true) 4 queue once server)
    ≡ (codes "l2" ∷ [], codes "l1" ∷ []) ∷ ([], codes "l1" ∷ []) ∷ []
unfolding consume is_proxy_job messages_of pull_size_for handle_messages
drain_run = refl

abbrev two_jobs : List ProxyJob
two_jobs = check_of (string (codes "a")) ∷ check_of undefined ∷ []

send_many_posts_example :
    let (after, posted, sent) = send_many (λ c. true) queue two_jobs in
    (join posted ≡ keep is_proxy_job two_jobs)
    × All (λ c. length c ≤ max_jobs_per_request) posted
    × (sent ≡ length (join (keep (λ c. true) posted)))
send_many_posts_example = send_many_posts (λ c. true) queue two_jobs

handle_messages-settles_example :
    let p = start_pulling queue in
    let r = handle_messages queue once (λ job. false) messages p in
    let again = is_retried 2 (λ job. false) in
    (r.acked
      ≡ [] ++ ((leases (keep (λ m. not (again m)) messages), leases (keep again messages)) ∷ []))
    × (r.summary.processed ≡ 0 + length (keep (handles (λ job. false)) messages))
    × (r.summary.failed ≡ 0 + length (keep (λ m. not (handles (λ job. false) m)) messages))
    × (r.summary.dropped ≡ 0 + length (keep (λ m. not (is_valid m)) messages))
handle_messages-settles_example =
    handle_messages-settles queue once (λ job. false) messages (start_pulling queue) (omega arith)
      refl

consume-Accounted_example :
    (r : CloudflareQueue × Pulling × List (List ProxyJob)) × (consume
        (λ c. true)
        4
        queue
        once
        server
      ≡ some r)
    × Accounted 3 r.1
consume-Accounted_example =
    consume-Accounted queue once server 3 (omega arith) refl refl server-IsBounded (λ c. true) 4
      (omega arith)
