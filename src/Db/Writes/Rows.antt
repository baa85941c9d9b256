-- ===== src/Db/Writes/Rows.antt =====
-- What the writes do to a row.
use proxy_pulse_crunchyroll.Prelude.{
  ℕ, ◌≤◌, ◌≡◌, refl, sym, ap, ◌∙◌, inl, inr, Bool, true, false, ◌&&◌, ◌||◌, List, [], ◌∷◌, ◌++◌,
  map, arith, ◌==◌, if◌then◌else◌, Bool-cases, if-cases, join, chunks, any-append, join-chunks,
}
use proxy_pulse_crunchyroll.Text.{Text}
use proxy_pulse_crunchyroll.Numbers.{Number}
use proxy_pulse_crunchyroll.Db.{ProxyRow}
use proxy_pulse_crunchyroll.Db.Sweeps.{Table, update_where, among}
use proxy_pulse_crunchyroll.Manager.Records.{ValidationUpdate}
use proxy_pulse_crunchyroll.Db.Writes.{
  is_claimable, claimed, claim_row, mark_chunks, mark_pending, validated_row,
  persist_validation_outcomes,
}

module _ (N : Number) where
  -- Two statements in a row are one, when the first change makes a row fail the second test.
  update_where-fuse :
      (p q b : ProxyRow N → Bool) (change : ProxyRow N → ProxyRow N) (t : Table N)
      → ((r : ProxyRow N) → q (change r) ≡ false)
      → ((r : ProxyRow N) → b r ≡ (p r || q r))
      → update_where N q change (update_where N p change t) ≡ update_where N b change t
  unfolding update_where
  update_where-fuse p q b change [] h k = refl
  update_where-fuse p q b change (r ∷ t) h k =
      let rest = update_where-fuse p q b change t h k in
      elim (Bool-cases (p r)) [
        | inl first ↦ rw (k r, first, h r, rest) refl
        | inr later ↦ rw (k r, later, rest) refl
      ]

  update_where-none :
      (p : ProxyRow N → Bool) (change : ProxyRow N → ProxyRow N) (t : Table N)
      → ((r : ProxyRow N) → p r ≡ false)
      → update_where N p change t ≡ t
  unfolding update_where
  update_where-none p change [] h = refl
  update_where-none p change (r ∷ t) h = rw (h r, update_where-none p change t h) refl

  claimed-append :
      (is js : List ℕ) (r : ProxyRow N)
      → claimed N (is ++ js) r ≡ (claimed N is r || claimed N js r)
  claimed-append is js r =
      let a = any-append (λ i. i == r.id) is js in
      rw a (spread (among N is r) (among N js r) (is_claimable r.status))
    where
      spread : (a b c : Bool) → ((a || b) && c) ≡ ((a && c) || (b && c))
      spread true b true = refl
      spread true true false = refl
      spread true false false = refl
      spread false b c = refl

  mark_chunks-whole :
      (cycle : Text) (css : List (List ℕ)) (t : Table N)
      → mark_chunks N cycle css t ≡ update_where N (claimed N (join css)) (claim_row N cycle) t
  unfolding mark_chunks
  mark_chunks-whole cycle [] t =
      sym (update_where-none (claimed N []) (claim_row N cycle) t (λ r. refl))
  mark_chunks-whole cycle (chunk ∷ css) t =
      mark_chunks-whole cycle css (update_where N (claimed N chunk) (claim_row N cycle) t)
      ∙ update_where-fuse (claimed N chunk) (claimed N (join css)) (claimed N (chunk ++ join css))
          (claim_row N cycle) t (λ r. idle (among N (join css) r)) (claimed-append chunk (join css))
    where
      idle : (b : Bool) → (b && false) ≡ false
      idle true = refl
      idle false = refl

  -- The claims go out in statements of two hundred ids, but together they do what one would: each row of
  -- the ids that is new, active or quarantined becomes pending in the cycle, and no other row changes.
  pub mark_pending-whole :
      (cycle : Text) (is : List ℕ) (t : Table N)
      → mark_pending N cycle is t ≡ update_where N (claimed N is) (claim_row N cycle) t
  unfolding mark_pending
  mark_pending-whole cycle is t =
      mark_chunks-whole cycle (chunks 200 is) t
      ∙ ap (λ js. update_where N (claimed N js) (claim_row N cycle) t)
          (join-chunks 200 is (omega arith))

  -- What the outcomes of a row make of it, in their order.
  abbrev pub recorded : List (ValidationUpdate N) → ProxyRow N → ProxyRow N
  recorded [] r = r
  recorded (u ∷ us) r = recorded us (if r.id == u.id then validated_row N u r else r)

  update_where-map :
      (p : ProxyRow N → Bool) (change after : ProxyRow N → ProxyRow N) (t : Table N)
      → map after (update_where N p change t) ≡ map (λ r. after (if p r then change r else r)) t
  unfolding update_where
  update_where-map p change after [] = refl
  update_where-map p change after (r ∷ t) =
      ap (λ rs. after (if p r then change r else r) ∷ rs) (update_where-map p change after t)

  map_same : (t : Table N) → t ≡ map (λ r. r) t
  map_same [] = refl
  map_same (r ∷ t) = ap (λ rs. r ∷ rs) (map_same t)

  -- The statements of a batch go over the table one after the other; each row ends as its own outcomes
  -- make it, one after the other, and a row without an outcome stays as it is.
  pub persist_validation_outcomes-rows :
      (us : List (ValidationUpdate N)) (t : Table N)
      → persist_validation_outcomes N us t ≡ map (recorded us) t
  unfolding persist_validation_outcomes
  persist_validation_outcomes-rows [] t = map_same t
  persist_validation_outcomes-rows (u ∷ us) t =
      persist_validation_outcomes-rows us (update_where N (λ r. r.id == u.id) (validated_row N u) t)
      ∙ update_where-map (λ r. r.id == u.id) (validated_row N u) (recorded us) t

  -- So a row never counts more passes than checks.
  recorded_passes :
      (us : List (ValidationUpdate N)) (r : ProxyRow N)
      → r.pass_count ≤ r.check_count
      → (recorded us r).pass_count ≤ (recorded us r).check_count
  recorded_passes [] r h = h
  recorded_passes (u ∷ us) r h =
      recorded_passes us (if r.id == u.id then validated_row N u r else r) (
        if-cases (λ (s : ProxyRow N). s.pass_count ≤ s.check_count) (r.id == u.id)
          (validated_row N u r) r (λ own. ground arith) (λ others. h))
