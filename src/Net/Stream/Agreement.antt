-- ===== src/Net/Stream/Agreement.antt =====
-- A program over the stream agrees on streams that are alike: they give it the same result, they leave
-- it alike, and it writes the same to them.
use proxy_pulse_crunchyroll.Prelude.{
  ℕ, ◌≡◌, refl, sym, ap, ◌∙◌, subst, Bool, true, false, ◌++◌, if◌then◌else◌, take,
}
use proxy_pulse_crunchyroll.Net.Stream.{
  Bytes, StreamBuffer, ErrorCode, Reply, done, fail, Io, after, ◌>>=◌, ◌>>◌, return, throw, check,
  write, read, peek,
}
use proxy_pulse_crunchyroll.Net.Stream.Chunks.{total, Alike, wait_result}
use proxy_pulse_crunchyroll.Net.Stream.Reads.{
  ReadFacts, read_facts, peek_facts, replace, left_after,
}

abbrev pub SameEnd {ℓ} : {A : Type ℓ} → Reply A × StreamBuffer → Reply A × StreamBuffer → Type ℓ
SameEnd p q = (p.0 ≡ q.0) × Alike p.1 q.1

abbrev pub Agrees {ℓ} : {A : Type ℓ} → Io A → Type ℓ
Agrees m = (s t : StreamBuffer) → Alike s t → SameEnd (m s) (m t)

pub return-Agrees {ℓ} : {A : Type ℓ} (a : A) → Agrees (return a)
return-Agrees a s t h = (refl, h)

pub throw-Agrees {ℓ} : {A : Type ℓ} (e : ErrorCode) → Agrees (throw {A = A} e)
throw-Agrees e s t h = (refl, h)

pub check-Agrees : (b : Bool) (e : ErrorCode) → Agrees (check b e)
check-Agrees true e s t h = (refl, h)
check-Agrees false e s t h = (refl, h)

pub write-Agrees : (bytes : Bytes) → Agrees (write bytes)
unfolding write
write-Agrees bytes s t h = (
  refl,
  record {
    bytes = h.bytes;
    finish = h.finish;
    written = ap (λ w. w ++ bytes) h.written;
    left = h.left;
    right = h.right;
  },
)

reads_agree :
    (n : ℕ) (s t : StreamBuffer) (ls lt : Bytes) (p q : Reply Bytes × StreamBuffer)
    → Alike s t
    → ls ≡ lt
    → ReadFacts n s ls p
    → ReadFacts n t lt q
    → SameEnd p q
reads_agree n s t ls lt p q h l f g = (
  f.result
      ∙ ap (λ b. replace (take n b) (wait_result n b s.finish)) h.bytes
      ∙ ap (λ e. replace (take n (total t)) (wait_result n (total t) e)) h.finish
      ∙ sym g.result,
  record {
    bytes = f.kept ∙ l ∙ sym g.kept;
    finish = f.finish ∙ h.finish ∙ sym g.finish;
    written = f.written ∙ h.written ∙ sym g.written;
    left = f.valid;
    right = g.valid;
  },
)

pub read-Agrees : (n : ℕ) → Agrees (read n)
read-Agrees n s t h =
    reads_agree n s t _ _ (read n s) (read n t) h
      (ap (λ b. left_after (wait_result n b s.finish) n b) h.bytes
        ∙ ap (λ e. left_after (wait_result n (total t) e) n (total t)) h.finish)
      (read_facts n s h.left) (read_facts n t h.right)

pub peek-Agrees : (n : ℕ) → Agrees (peek n)
peek-Agrees n s t h =
    reads_agree n s t _ _ (peek n s) (peek n t) h h.bytes (peek_facts n s h.left)
      (peek_facts n t h.right)

after-SameEnd {ℓ κ} :
    {A : Type ℓ} {B : Type κ} (f : A → Io B) (p q : Reply A × StreamBuffer)
    → ((a : A) → Agrees (f a))
    → SameEnd p q
    → SameEnd (after f p) (after f q)
after-SameEnd f (done a, s) (done b, t) h (e, al) =
    let same : a ≡ b = cc in subst (λ c. SameEnd (f a s) (f c t)) same (h a s t al)
after-SameEnd f (done a, s) (fail c, t) h (e, al) = absurd (cc)
after-SameEnd f (fail c, s) (done a, t) h (e, al) = absurd (cc)
after-SameEnd f (fail c, s) (fail d, t) h (e, al) = let same : c ≡ d = cc in (ap fail same, al)

pub bind-Agrees {ℓ κ} :
    {A : Type ℓ} {B : Type κ} (m : Io A) (f : A → Io B)
    → Agrees m
    → ((a : A) → Agrees (f a))
    → Agrees (m >>= f)
bind-Agrees m f h k s t al = after-SameEnd f (m s) (m t) k (h s t al)

pub then-Agrees {ℓ κ} :
    {A : Type ℓ} {B : Type κ} (m : Io A) (k : Io B) → Agrees m → Agrees k → Agrees (m >> k)
then-Agrees m k h g = bind-Agrees m (λ _. k) h (λ _. g)

pub if-Agrees {ℓ} :
    {A : Type ℓ} (b : Bool) (m k : Io A) → Agrees m → Agrees k → Agrees (if b then m else k)
if-Agrees true m k h g = h
if-Agrees false m k h g = g
