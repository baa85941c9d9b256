-- ===== src/Queue/Cloudflare.antt =====
-- worker/src/queue/cloudflare-queue.ts: the driver of a durable queue that is pulled over HTTP. The
-- server is a parameter: which requests it takes, and how it answers a pull. The jobs of a batch fail in
-- their order, and `concurrency` is positive, as it is configured.
pub mod Producing
pub mod Consuming
mod Tests
use proxy_pulse_crunchyroll.Prelude.{
  ℕ, ◌+◌, min, max, Bool, true, false, not, List, [], ◌∷◌, ◌++◌, Option, none, some, ◌==◌,
  if◌then◌else◌, length, keep, chunks,
}
use proxy_pulse_crunchyroll.Text.{Text, text_eq}
use proxy_pulse_crunchyroll.Queue.{
  Value, undefined, other, string, number, ProxyJob, is_proxy_job, attempt_of, ConsumeSummary,
}

pub record CloudflareQueue : Type 0 where
  pub pull_size : ℕ
  pub max_retries : ℕ
  pub outbound : List ProxyJob
  pub dropped : ℕ
  pub closed : Bool

unfoldable pub pending : CloudflareQueue → ℕ
pending q = length q.outbound

unfoldable pub close : CloudflareQueue → CloudflareQueue
close q = record q { closed = true; outbound = [] }

unfoldable pub send : CloudflareQueue → ProxyJob → CloudflareQueue × Bool
send q job =
    if not (is_proxy_job job)
    then (q, false)
    else (record q { outbound = q.outbound ++ (job ∷ []) }, true)

-- MAX_JOBS_PER_REQUEST
abbrev pub max_jobs_per_request : ℕ
max_jobs_per_request = 100

-- The loop of `sendMany` over the slices: the requests that are posted, and the count of the jobs in those
-- that the server takes.
unfoldable pub post_chunks :
    (List ProxyJob → Bool)
    → List (List ProxyJob)
    → List (List ProxyJob) × ℕ
    → List (List ProxyJob) × ℕ
post_chunks accepts [] r = r
post_chunks accepts (slice ∷ slices) (posted, sent) =
    let chunk = keep is_proxy_job slice in
    post_chunks accepts slices (
      if length chunk == 0
      then (posted, sent)
      else (posted ++ (chunk ∷ []), if accepts chunk then sent + length chunk else sent))

-- The queue afterwards, the requests, and the result.
unfoldable pub send_many :
    (List ProxyJob → Bool)
    → CloudflareQueue
    → List ProxyJob
    → CloudflareQueue × List (List ProxyJob) × ℕ
unfolding post_chunks
send_many accepts q jobs =
    let (posted, sent) = post_chunks accepts (chunks max_jobs_per_request jobs) ([], 0) in
    (record q { outbound = [] }, posted, sent)

-- A `body` as it comes: absent (or null), no object, or an object with the fields of a job.
pub data Body : Type 0 where
  absent scalar : Body
  object : ProxyJob → Body

-- A message of an answer; `undefined` stands for null too. `whole` is what the message itself is when it is
-- read as a job.
pub record Message : Type 0 where
  pub metadata_lease_id : Value
  pub lease_id : Value
  pub body : Body
  pub whole : ProxyJob

pub data PullAnswer : Type 0 where
  answered : List Message → PullAnswer
  refused : ℕ → PullAnswer
  broken : PullAnswer

pub record PulledMessage : Type 0 where
  pub body : Body
  pub lease_id : Text

-- `a ?? b`
abbrev coalesce : Value → Value → Value
coalesce undefined b = b
coalesce other b = other
coalesce (string s) b = string s
coalesce (number n) b = number n

abbrev body_of : Message → Body
body_of m = elim m.body [ absent ↦ object m.whole | scalar ↦ scalar | object job ↦ object job ]

abbrev pulled_of : Message → Value → List PulledMessage → List PulledMessage
pulled_of m (string s) rest = record { body = body_of m; lease_id = s } ∷ rest
pulled_of m undefined rest = rest
pulled_of m other rest = rest
pulled_of m (number n) rest = rest

pulled : List Message → List PulledMessage
pulled [] = []
pulled (m ∷ ms) = pulled_of m (coalesce m.metadata_lease_id m.lease_id) (pulled ms)

-- What `#pull` returns for an answer.
unfoldable pub messages_of : PullAnswer → List PulledMessage
unfolding pulled
messages_of (answered ms) = pulled ms
messages_of (refused status) = []
messages_of broken = []

-- The `batch_size` of a pull when `budget` jobs may still be handled, `none` for infinity.
unfoldable pub pull_size_for : ℕ → Option ℕ → ℕ
pull_size_for size none = max 1 size
pull_size_for size (some left) = max 1 (min size left)
