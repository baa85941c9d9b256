-- ===== src/Net/Stream/Reads.antt =====
-- What a read gives, by all the bytes that there are; and the programs that only read so.
use proxy_pulse_crunchyroll.Prelude.{
  ℕ, zero, suc, ◌≤◌, ◌≡◌, refl, sym, ap, ◌∙◌, ◌⊎◌, inl, inr, List, [], ◌∷◌, ◌++◌, append-nil, arith,
  length, take, drop, all,
}
use proxy_pulse_crunchyroll.Net.Stream.{
  Bytes, StreamBuffer, Reply, done, fail, after, wait, take_bytes, read, peek,
}
use proxy_pulse_crunchyroll.Net.Stream.Chunks.{
  concat, total, IsStream, wait_result, WaitFacts, wait_facts,
}

take-append_le {ℓ} :
    {A : Type ℓ} (n : ℕ) (xs ys : List A) → n ≤ length xs → take n (xs ++ ys) ≡ take n xs
take-append_le zero xs ys h = refl
take-append_le (suc n) [] ys h = absurd (omega arith)
take-append_le (suc n) (x ∷ xs) ys h = ap (λ zs. x ∷ zs) (take-append_le n xs ys (omega arith))

drop-append_le {ℓ} :
    {A : Type ℓ} (n : ℕ) (xs ys : List A) → n ≤ length xs → drop n (xs ++ ys) ≡ drop n xs ++ ys
drop-append_le zero xs ys h = refl
drop-append_le (suc n) [] ys h = absurd (omega arith)
drop-append_le (suc n) (x ∷ xs) ys h = drop-append_le n xs ys (omega arith)

-- A view of the buffer is a view of everything, once enough is there.
take_total :
    (n : ℕ) (s : StreamBuffer)
    → (n ≤ length s.buffer) ⊎ (concat s.incoming ≡ [])
    → (take n s.buffer ≡ take n (total s))
      × (drop n s.buffer ++ concat s.incoming ≡ drop n (total s))
take_total n s (inl h) = (
  sym (take-append_le n s.buffer (concat s.incoming) h),
  sym (drop-append_le n s.buffer (concat s.incoming) h),
)
take_total n s (inr e) = rw (e, append-nil s.buffer, append-nil (drop n s.buffer)) (refl, refl)

abbrev pub replace {ℓ κ} : {A : Type ℓ} {B : Type κ} → B → Reply A → Reply B
replace b (done a) = done b
replace b (fail e) = fail e

abbrev pub left_after : Reply (Unit {0}) → ℕ → Bytes → Bytes
left_after (done a) n all = drop n all
left_after (fail e) n all = all

-- A read or a view of `n` bytes; `taken` is what it leaves of all bytes.
pub record ReadFacts (n : ℕ) (s : StreamBuffer) (left : Bytes) (r : Reply Bytes × StreamBuffer)
    : Type 0 where
  pub result : r.0 ≡ replace (take n (total s)) (wait_result n (total s) s.finish)
  pub kept : total r.1 ≡ left
  pub finish : (r.1).finish ≡ s.finish
  pub written : (r.1).written ≡ s.written
  pub valid : IsStream r.1

read_after :
    (n : ℕ) (s : StreamBuffer) (w : Reply (Unit {0}) × StreamBuffer)
    → WaitFacts n s w
    → ReadFacts n s
        (left_after (wait_result n (total s) s.finish) n (total s))
        (after (λ _. take_bytes n) w)
unfolding take_bytes
read_after n s (done u, t) f =
    let e = take_total n t f.enough in
    record {
      result = rw (← f.result) (ap done (e.0 ∙ ap (take n) f.kept));
      kept = rw (← f.result) (e.1 ∙ ap (drop n) f.kept);
      finish = f.finish;
      written = f.written;
      valid = f.valid;
    }
read_after n s (fail c, t) f = record {
  result = rw (← f.result) refl;
  kept = rw (← f.result) f.kept;
  finish = f.finish;
  written = f.written;
  valid = f.valid;
}

pub read_facts :
    (n : ℕ) (s : StreamBuffer)
    → IsStream s
    → ReadFacts n s (left_after (wait_result n (total s) s.finish) n (total s)) (read n s)
unfolding read
read_facts n s v = read_after n s (wait n s) (wait_facts n s v)

peek_after :
    (n : ℕ) (s : StreamBuffer) (w : Reply (Unit {0}) × StreamBuffer)
    → WaitFacts n s w
    → ReadFacts n s (total s) (after (λ _ t. (done (take n t.buffer), t)) w)
peek_after n s (done u, t) f =
    let e = take_total n t f.enough in
    record {
      result = rw (← f.result) (ap done (e.0 ∙ ap (take n) f.kept));
      kept = f.kept;
      finish = f.finish;
      written = f.written;
      valid = f.valid;
    }
peek_after n s (fail c, t) f = record {
  result = rw (← f.result) refl;
  kept = f.kept;
  finish = f.finish;
  written = f.written;
  valid = f.valid;
}

pub peek_facts : (n : ℕ) (s : StreamBuffer) → IsStream s → ReadFacts n s (total s) (peek n s)
unfolding peek
peek_facts n s v = peek_after n s (wait n s) (wait_facts n s v)
