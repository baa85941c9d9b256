-- ===== src/Queue/Cloudflare/Consuming/Ending.antt =====
-- A bounded drain ends, within its budget.
use proxy_pulse_crunchyroll.Prelude.{
  ℕ, zero, suc, ◌+◌, ◌-◌, ◌<◌, ◌≤◌, min, max, ◌≡◌, refl, ap, inl, inr, Bool, true, false, ◌&&◌,
  ◌||◌, List, [], Option, some, arith, ltb, leb, ◌==◌, Bool-cases, if-cases, or-eq-false, ◌>>=◌,
  length,
}
use proxy_pulse_crunchyroll.Queue.{ProxyJob}
use proxy_pulse_crunchyroll.Queue.Cloudflare.{
  CloudflareQueue, PulledMessage, messages_of, pull_size_for, send_many,
}
use proxy_pulse_crunchyroll.Queue.Cloudflare.Consuming.{
  PullOptions, Remote, Pulling, handle_messages, is_spent, pull_round, pull_loop, start_pulling,
  consume,
}
use proxy_pulse_crunchyroll.Queue.Cloudflare.Consuming.Rounds.{handle_messages_count}

-- The server hands out no more messages than are asked for.
abbrev pub IsBounded : Remote → Type 0
IsBounded w = (round size : ℕ) → length (messages_of (w.pull round size)) ≤ size

-- What a drain of at most `budget` jobs keeps.
pub record Accounted (budget : ℕ) (p : Pulling) : Type 0 where
  pub within : p.handled ≤ budget
  pub counted : p.summary.processed + p.summary.failed ≡ p.handled

module _ (q : CloudflareQueue) (options : PullOptions) (w : Remote) (budget : ℕ)
    (positive : 0 < options.concurrency) (drains : options.drain_only ≡ true)
    (bounded : options.max_jobs ≡ some budget) (fair : IsBounded w) where
  round_fits :
      (round : ℕ) (p : Pulling)
      → is_spent options.max_jobs p.handled ≡ false
      → p.handled + length (pull_round q options w round p) ≤ budget
  unfolding pull_size_for
  round_fits round p h =
      let s : leb budget p.handled ≡ false = rw bounded at h in
      let f = fair round (max 1 (min q.pull_size (budget - p.handled))) in
      rw bounded (ground (arith, f, s))

  next-Accounted :
      (round : ℕ) (p : Pulling)
      → is_spent options.max_jobs p.handled ≡ false
      → Accounted budget p
      → Accounted budget
          (handle_messages q options (w.succeeds round) (pull_round q options w round p) p)
  unfolding handle_messages
  next-Accounted round p h a =
      let c =
        handle_messages_count q options (w.succeeds round) (pull_round q options w round p) p
          positive in
      record { within = round_fits round p h; counted = omega (arith, c, a.counted) }

  more :
      (fuel round : ℕ) (p : Pulling) (messages : List PulledMessage)
      → (length messages == 0) ≡ false
      → budget < suc fuel + p.handled
      → budget < fuel + (handle_messages q options (w.succeeds round) messages p).handled
  unfolding handle_messages
  more fuel round p messages h k = ground arith

  -- The loop, from a state that is accounted for, ends in one.
  abbrev EndsAccounted : Option Pulling → Type 0
  EndsAccounted o = (r : Pulling) × (o ≡ some r) × Accounted budget r

  pull_loop_ends :
      (fuel round : ℕ) (p : Pulling)
      → budget < fuel + p.handled
      → Accounted budget p
      → EndsAccounted (pull_loop fuel q options w round p)
  unfolding pull_loop
  pull_loop_ends zero round p m a = absurd (let b = a.within in omega arith)
  pull_loop_ends (suc fuel) round p m a =
      let messages = pull_round q options w round p in
      let next = handle_messages q options (w.succeeds round) messages p in
      elim (Bool-cases (w.stopped round || is_spent options.max_jobs p.handled)) [
        | inl over ↦ rw (pull_loop, over) (p, refl, a)
        | inr going ↦
            let s = (or-eq-false (w.stopped round) (is_spent options.max_jobs p.handled) going).1 in
            let n = next-Accounted round p s a in
            rw (pull_loop, going)
              (if-cases EndsAccounted (length messages == 0) _ _ (λ nothing. rw drains (p, refl, a))
                (λ something.
                  if-cases EndsAccounted (options.drain_only && ltb (length messages) q.pull_size) _
                    _ (λ short. (next, refl, n))
                    (λ full.
                      pull_loop_ends fuel (round + 1) next (more fuel round p messages something m)
                        n)))
      ]

  -- When the server hands out no more messages than a pull asks for, a drain with a budget of `n` jobs ends
  -- after at most `n + 1` rounds. No more than `n` messages are handled, and each of them is counted once, as
  -- processed or as failed.
  pub consume-Accounted :
      (accepts : List ProxyJob → Bool) (fuel : ℕ)
      → budget < fuel
      → (r : CloudflareQueue × Pulling × List (List ProxyJob)) × (consume accepts fuel q options w
          ≡ some r)
        × Accounted budget r.1
  unfolding consume send_many
  consume-Accounted accepts fuel h =
      let (p, e, a) =
        pull_loop_ends fuel 0 (start_pulling q) (omega arith)
          (record { within = omega arith; counted = refl }) in
      (
        _,
        ap
            (λ o. o >>= λ p. some (
              record q { outbound = [] },
              record p { summary = record p.summary { dropped = p.summary.dropped + q.dropped } },
              (send_many accepts (record q { outbound = [] }) q.outbound).1,
            ))
            e,
        record { within = a.within; counted = a.counted },
      )
