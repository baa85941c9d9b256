-- ===== src/Queue/Cloudflare/Consuming/Settling.antt =====
-- What a round acknowledges and asks to retry, and what it counts.
use proxy_pulse_crunchyroll.Prelude.{
  ℕ, ◌+◌, ◌≡◌, refl, sym, ap, ◌∙◌, subst, inl, inr, Bool, true, false, not, ◌&&◌, ◌||◌, List, [],
  ◌∷◌, ◌++◌, append-nil, append_assoc, arith, if◌then◌else◌, Bool-cases, or-eq-false, length, any,
  length-append, All, All-right, keep, join, any-append, keep-append,
}
use proxy_pulse_crunchyroll.Text.{Text, text_eq}
use proxy_pulse_crunchyroll.Queue.{ProxyJob}
use proxy_pulse_crunchyroll.Queue.Cloudflare.{PulledMessage}
use proxy_pulse_crunchyroll.Queue.Cloudflare.Consuming.{
  is_valid, handles, is_retried, Progress, leases, settle_outcome, settle_outcomes, settle_batch,
  settle_batches,
}

text_eq_refl : (s : Text) → text_eq s s ≡ true
text_eq_refl [] = refl
text_eq_refl (c ∷ s) = let h = text_eq_refl s in ground arith

text_eq_comm : (s t : Text) → text_eq s t ≡ text_eq t s
text_eq_comm [] [] = refl
text_eq_comm [] (d ∷ t) = refl
text_eq_comm (c ∷ s) [] = refl
text_eq_comm (c ∷ s) (d ∷ t) = let h = text_eq_comm s t in ground arith

-- No two messages have the same lease.
abbrev pub are_distinct : List PulledMessage → Bool
are_distinct [] = true
are_distinct (m ∷ ms) = not (any (λ n. text_eq n.lease_id m.lease_id) ms) && are_distinct ms

distinct-left :
    (xs ys : List PulledMessage) → are_distinct (xs ++ ys) ≡ true → are_distinct xs ≡ true
distinct-left [] ys h = refl
distinct-left (x ∷ xs) ys h =
    let a = any-append (λ n. text_eq n.lease_id x.lease_id) xs ys in
    let r = distinct-left xs ys in ground (arith, a, r)

module _ (max_retries : ℕ) (succeeds : ProxyJob → Bool) where
  abbrev retried : PulledMessage → Bool
  retried m = is_retried max_retries succeeds m

  -- The lease of the message is among those of the messages that are to be retried.
  abbrev among : List PulledMessage → PulledMessage → Bool
  among ms m = any (text_eq m.lease_id) (leases (keep retried ms))

  among-cons :
      (m n : PulledMessage) (ms : List PulledMessage)
      → among (m ∷ ms) n ≡ ((retried m && text_eq n.lease_id m.lease_id) || among ms n)
  among-cons m n ms = elim (Bool-cases (retried m)) [
    | inl again ↦ rw again refl
    | inr settled ↦ rw settled refl
  ]

  apart :
      (m : PulledMessage) (ms : List PulledMessage)
      → any (λ n. text_eq n.lease_id m.lease_id) ms ≡ false
      → among ms m ≡ false
  apart m [] h = refl
  apart m (n ∷ ms) h =
      let (e, r) =
        or-eq-false (text_eq n.lease_id m.lease_id) (any (λ n. text_eq n.lease_id m.lease_id) ms)
          h in
      among-cons n m ms
      ∙ rw (text_eq_comm m.lease_id n.lease_id, e, apart m ms r)
          (elim (Bool-cases (retried n)) [
            | inl again ↦ rw again refl
            | inr settled ↦ rw settled refl
          ])

  fated_cons :
      (m : PulledMessage) (ms ns : List PulledMessage)
      → any (λ n. text_eq n.lease_id m.lease_id) ns ≡ false
      → All (λ n. among ms n ≡ retried n) ns
      → All (λ n. among (m ∷ ms) n ≡ retried n) ns
  fated_cons m ms [] h k = tt
  fated_cons m ms (n ∷ ns) h (k, l) =
      let (e, r) =
        or-eq-false (text_eq n.lease_id m.lease_id) (any (λ n. text_eq n.lease_id m.lease_id) ns)
          h in
      (
        among-cons m n ms
            ∙ rw (e, k)
                (elim (Bool-cases (retried m)) [
                  | inl again ↦ rw again refl
                  | inr settled ↦ rw settled refl
                ]),
        fated_cons m ms ns r l,
      )

  not-true : (b c : Bool) → (not b && c) ≡ true → (b ≡ false) × (c ≡ true)
  not-true true c h = absurd (cc)
  not-true false c h = (refl, h)

  -- Where leases are distinct, the lease of a message tells whether it is to be retried.
  fated : (ms : List PulledMessage) → are_distinct ms ≡ true → All (λ m. among ms m ≡ retried m) ms
  fated [] h = tt
  fated (m ∷ ms) h =
      let (a, d) = not-true (any (λ n. text_eq n.lease_id m.lease_id) ms) (are_distinct ms) h in
      (
        among-cons m m ms
            ∙ rw (text_eq_refl m.lease_id, apart m ms a)
                (elim (Bool-cases (retried m)) [
                  | inl again ↦ rw again refl
                  | inr settled ↦ rw settled refl
                ]),
        fated_cons m ms ms a (fated ms d),
      )

  abbrev settled_leases : List PulledMessage → List Text
  settled_leases ms = leases (keep (λ m. not (retried m)) ms)

  -- What outcomes are counted to, when the leases of the messages tell their fates.
  pub record OutcomeFacts (ms : List PulledMessage) (p r : Progress) : Type 0 where
    pub processed : r.processed ≡ p.processed + length (keep (handles succeeds) ms)
    pub failed : r.failed ≡ p.failed + length (keep (λ m. not (handles succeeds m)) ms)
    pub dropped : r.dropped ≡ p.dropped + length (keep (λ m. not (is_valid m)) ms)
    pub retries : r.retries ≡ p.retries
    pub acks : r.acks ≡ p.acks ++ settled_leases ms

  count_keep :
      (p : PulledMessage → Bool) (m : PulledMessage) (ms : List PulledMessage)
      → length (keep p (m ∷ ms)) ≡ (if p m then 1 + length (keep p ms) else length (keep p ms))
  count_keep p m ms = ground arith

  settle_outcomes_facts :
      (ms : List PulledMessage) (p : Progress)
      → All (λ m. any (text_eq m.lease_id) p.retries ≡ retried m) ms
      → OutcomeFacts ms p (settle_outcomes succeeds ms p)
  unfolding settle_outcomes
  settle_outcomes_facts [] p h = record {
    processed = omega arith;
    failed = omega arith;
    dropped = omega arith;
    retries = refl;
    acks = sym (append-nil p.acks);
  }
  settle_outcomes_facts (m ∷ ms) p (h, k) =
      let f = settle_outcomes_facts ms (settle_outcome succeeds m p) k in
      let c = f.processed in
      let d = f.failed in
      let e = f.dropped in
      record {
        processed = ground arith;
        failed = ground arith;
        dropped = ground arith;
        retries = f.retries;
        acks =
            f.acks
            ∙ rw h (elim (Bool-cases (retried m)) [
              | inl again ↦ rw again refl
              | inr settled ↦ rw settled (append_assoc p.acks (m.lease_id ∷ []) (settled_leases ms))
            ]);
      }

  leases-append : (xs ys : List PulledMessage) → leases (xs ++ ys) ≡ leases xs ++ leases ys
  leases-append [] ys = refl
  leases-append (x ∷ xs) ys = ap (λ zs. x.lease_id ∷ zs) (leases-append xs ys)

  kept_leases-append :
      (p : PulledMessage → Bool) (xs ys : List PulledMessage)
      → leases (keep p (xs ++ ys)) ≡ leases (keep p xs) ++ leases (keep p ys)
  kept_leases-append p xs ys =
      ap leases (keep-append p xs ys) ∙ leases-append (keep p xs) (keep p ys)

  kept_length-append :
      (p : PulledMessage → Bool) (xs ys : List PulledMessage)
      → length (keep p (xs ++ ys)) ≡ length (keep p xs) + length (keep p ys)
  kept_length-append p xs ys =
      ap length (keep-append p xs ys) ∙ length-append (keep p xs) (keep p ys)

  -- The progress `r` of a round that began at `p` when the messages `ms` have been settled.
  pub record Settled (ms : List PulledMessage) (p r : Progress) : Type 0 where
    pub processed : r.processed ≡ p.processed + length (keep (handles succeeds) ms)
    pub failed : r.failed ≡ p.failed + length (keep (λ m. not (handles succeeds m)) ms)
    pub dropped : r.dropped ≡ p.dropped + length (keep (λ m. not (is_valid m)) ms)
    pub retries : r.retries ≡ leases (keep retried ms)
    pub acks : r.acks ≡ settled_leases ms

  settle_batch-Settled :
      (done batch : List PulledMessage) (p r : Progress)
      → are_distinct (done ++ batch) ≡ true
      → Settled done p r
      → Settled (done ++ batch) p (settle_batch max_retries succeeds batch r)
  unfolding settle_batch
  settle_batch-Settled done batch p r h s =
      let more : r.retries ++ leases (keep retried batch) ≡ leases (keep retried (done ++ batch)) =
        ap (λ ls. ls ++ leases (keep retried batch)) s.retries
        ∙ sym (kept_leases-append retried done batch) in
      let fates = All-right _ done batch (fated (done ++ batch) h) in
      let f =
        settle_outcomes_facts batch
          (record r { retries = r.retries ++ leases (keep retried batch) })
          (subst (λ ls. All (λ m. any (text_eq m.lease_id) ls ≡ retried m) batch) (sym more)
            fates) in
      record {
        processed =
            omega
              (arith, f.processed, s.processed, kept_length-append (handles succeeds) done batch);
        failed = omega (
          arith,
          f.failed,
          s.failed,
          kept_length-append (λ m. not (handles succeeds m)) done batch,
        );
        dropped =
            omega
              (arith, f.dropped, s.dropped, kept_length-append (λ m. not (is_valid m)) done batch);
        retries = f.retries ∙ more;
        acks =
            f.acks
            ∙ ap (λ ls. ls ++ settled_leases batch) s.acks
            ∙ sym (kept_leases-append (λ m. not (retried m)) done batch);
      }

  pub settle_batches-Settled :
      (batches : List (List PulledMessage)) (done : List PulledMessage) (p r : Progress)
      → are_distinct (done ++ join batches) ≡ true
      → Settled done p r
      → Settled (done ++ join batches) p (settle_batches max_retries succeeds batches r)
  unfolding settle_batches
  settle_batches-Settled [] done p r h s = subst (λ ms. Settled ms p r) (sym (append-nil done)) s
  settle_batches-Settled (batch ∷ batches) done p r h s =
      let e = append_assoc done batch (join batches) in
      let d = subst (λ ms. are_distinct ms ≡ true) (sym e) h in
      let t =
        settle_batch-Settled done batch p r (distinct-left (done ++ batch) (join batches) d) s in
      subst (λ ms. Settled ms p (settle_batches max_retries succeeds (batch ∷ batches) r)) e
        (settle_batches-Settled batches (done ++ batch) p
          (settle_batch max_retries succeeds batch r) d t)
