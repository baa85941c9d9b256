-- ===== src/Queue/Cloudflare/Producing.antt =====
-- What sendMany posts.
use proxy_pulse_crunchyroll.Prelude.{
  ℕ, ◌+◌, ◌≤◌, ◌≡◌, refl, sym, ap, ◌∙◌, inl, inr, Bool, true, List, [], ◌∷◌, ◌++◌, append-nil,
  append_assoc, arith, ◌==◌, if◌then◌else◌, Bool-cases, length, length-append, All, All-append,
  keep, join, chunks, keep-append, length-keep, join-chunks, chunks-Short,
}
use proxy_pulse_crunchyroll.Queue.{ProxyJob, is_proxy_job}
use proxy_pulse_crunchyroll.Queue.Cloudflare.{
  CloudflareQueue, post_chunks, send_many, max_jobs_per_request,
}

-- What `sendMany` has posted, `rest` being the slices that it has not come to.
pub record PostedFacts (accepts : List ProxyJob → Bool) (rest : List (List ProxyJob))
    (r q : List (List ProxyJob) × ℕ) : Type 0 where
  pub contents : join q.0 ≡ join r.0 ++ keep is_proxy_job (join rest)
  pub short :
      All (λ c. length c ≤ max_jobs_per_request) r.0
      → All (λ c. length c ≤ max_jobs_per_request) rest
      → All (λ c. length c ≤ max_jobs_per_request) q.0
  pub counted : r.1 ≡ length (join (keep accepts r.0)) → q.1 ≡ length (join (keep accepts q.0))

join-append {ℓ} : {A : Type ℓ} (xss yss : List (List A)) → join (xss ++ yss) ≡ join xss ++ join yss
join-append [] yss = refl
join-append (xs ∷ xss) yss =
    ap (λ zs. xs ++ zs) (join-append xss yss) ∙ sym (append_assoc xs (join xss) (join yss))

join-snoc {ℓ} :
    {A : Type ℓ} (xss : List (List A)) (xs : List A) → join (xss ++ (xs ∷ [])) ≡ join xss ++ xs
join-snoc xss xs = join-append xss (xs ∷ []) ∙ ap (λ zs. join xss ++ zs) (append-nil xs)

empty : (xs : List ProxyJob) → (length xs == 0) ≡ true → xs ≡ []
empty [] h = refl
empty (x ∷ xs) h = absurd (ground arith)

module _ (accepts : List ProxyJob → Bool) where
  count_one :
      (posted : List (List ProxyJob)) (chunk : List ProxyJob) (sent : ℕ)
      → sent ≡ length (join (keep accepts posted))
      → (if accepts chunk then sent + length chunk else sent)
        ≡ length (join (keep accepts (posted ++ (chunk ∷ []))))
  count_one posted chunk sent h =
      rw (keep-append accepts posted (chunk ∷ [])) (elim (Bool-cases (accepts chunk)) [
        | inl taken ↦
            rw (taken, join-snoc (keep accepts posted) chunk)
              (omega (arith, h, length-append (join (keep accepts posted)) chunk))
        | inr kept ↦ rw (kept, append-nil (keep accepts posted)) h
      ])

  post_chunks_facts :
      (rest : List (List ProxyJob)) (r : List (List ProxyJob) × ℕ)
      → PostedFacts accepts rest r (post_chunks accepts rest r)
  unfolding post_chunks
  post_chunks_facts [] r = record {
    contents = sym (append-nil (join r.0));
    short = λ h k. h;
    counted = λ h. h;
  }
  post_chunks_facts (slice ∷ slices) (posted, sent) =
      let chunk = keep is_proxy_job slice in
      elim (Bool-cases (length chunk == 0)) [
        | inl none_left ↦
            let f = post_chunks_facts slices (posted, sent) in
            rw none_left (record {
              contents =
                  f.contents
                  ∙ ap (λ zs. join posted ++ zs)
                      (ap (λ zs. zs ++ keep is_proxy_job (join slices))
                          (sym (empty chunk none_left))
                        ∙ sym (keep-append is_proxy_job slice (join slices)));
              short = λ h (k, l). f.short h l;
              counted = f.counted;
            })
        | inr some_left ↦
            let f =
              post_chunks_facts slices
                (posted ++ (chunk ∷ []), if accepts chunk then sent + length chunk else sent) in
            rw some_left (record {
              contents =
                  f.contents
                  ∙ ap (λ zs. zs ++ keep is_proxy_job (join slices)) (join-snoc posted chunk)
                  ∙ append_assoc (join posted) chunk (keep is_proxy_job (join slices))
                  ∙ ap (λ zs. join posted ++ zs)
                      (sym (keep-append is_proxy_job slice (join slices)));
              short = λ h (k, l).
                  f.short
                    (All-append (λ c. length c ≤ max_jobs_per_request) posted (chunk ∷ []) h
                      (omega (arith, k, length-keep is_proxy_job slice), tt))
                    l;
              counted = λ h. f.counted (count_one posted chunk sent h);
            })
      ]

  -- The requests of `sendMany` carry the valid jobs, each once and in their order, at most a hundred to a
  -- request, and the result is the number of jobs in the requests that the server takes.
  pub send_many_posts :
      (q : CloudflareQueue) (jobs : List ProxyJob)
      → let (after, posted, sent) = send_many accepts q jobs in
        (join posted ≡ keep is_proxy_job jobs)
        × All (λ c. length c ≤ max_jobs_per_request) posted
        × (sent ≡ length (join (keep accepts posted)))
  unfolding send_many
  send_many_posts q jobs =
      let f = post_chunks_facts (chunks max_jobs_per_request jobs) ([], 0) in
      (
        f.contents ∙ ap (keep is_proxy_job) (join-chunks max_jobs_per_request jobs (omega arith)),
        f.short tt (chunks-Short max_jobs_per_request jobs),
        f.counted refl,
      )
