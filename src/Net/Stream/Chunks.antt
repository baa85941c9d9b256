-- ===== src/Net/Stream/Chunks.antt =====
-- How the bytes of a stream are cut into data events does not matter to the reads.
use proxy_pulse_crunchyroll.Prelude.{
  ℕ, ◌≤◌, ◌≡◌, refl, sym, ap, ◌∙◌, ◌⊎◌, inl, inr, true, false, ◌||◌, List, [], ◌∷◌, ◌++◌,
  append_assoc, arith, leb, if◌then◌else◌, leb→le, le→leb, Bool-cases, if-cases, or-eq-true,
  or-eq-false, length, all, length-append,
}
use proxy_pulse_crunchyroll.Net.Stream.{
  Bytes, Finish, closes, breaks, stalls, StreamBuffer, ErrorCode, Reply, done, fail, receive,
  resolve, fill, wait,
}

abbrev pub concat : List Bytes → Bytes
concat [] = []
concat (c ∷ cs) = c ++ concat cs

-- Every byte that is buffered or still comes.
abbrev pub total : StreamBuffer → Bytes
total s = s.buffer ++ concat s.incoming

-- Two streams that deliver the same bytes, end the same way, and have been sent the same. An ended one has
-- nothing to come.
pub record Alike (s t : StreamBuffer) : Type 0 where
  pub bytes : total s ≡ total t
  pub finish : s.finish ≡ t.finish
  pub written : s.written ≡ t.written
  pub left : (s.ended ≡ false) ⊎ ((s.incoming ≡ []) × (s.finish ≡ closes))
  pub right : (t.ended ≡ false) ⊎ ((t.incoming ≡ []) × (t.finish ≡ closes))

receive-bytes :
    (n : ℕ) (b : Bytes) (cs : List Bytes)
    → let r = receive n b cs in r.0 ++ concat r.1 ≡ b ++ concat cs
unfolding receive
receive-bytes n b [] = refl
receive-bytes n b (c ∷ cs) = elim (Bool-cases (leb n (length b))) [
  | inl enough ↦ rw enough refl
  | inr short ↦ rw short (receive-bytes n (b ++ c) cs ∙ append_assoc b c (concat cs))
]

-- Either enough has been received, or all of it.
receive_ends :
    (n : ℕ) (b : Bytes) (cs : List Bytes) → let r = receive n b cs in (n ≤ length r.0) ⊎ (r.1 ≡ [])
unfolding receive
receive_ends n b [] = inr refl
receive_ends n b (c ∷ cs) = elim (Bool-cases (leb n (length b))) [
  | inl enough ↦ rw enough (inl (leb→le n (length b) enough))
  | inr short ↦ rw short (receive_ends n (b ++ c) cs)
]

abbrev pub IsStream : StreamBuffer → Type 0
IsStream s = (s.ended ≡ false) ⊎ ((s.incoming ≡ []) × (s.finish ≡ closes))

-- What awaiting `n` bytes gives, by all the bytes that there are and what follows them.
abbrev pub short_result : Finish → Reply (Unit {0})
short_result closes = done tt
short_result breaks = fail ErrorCode.socket_error
short_result stalls = fail ErrorCode.timeout

abbrev pub wait_result : ℕ → Bytes → Finish → Reply (Unit {0})
wait_result n all finish = if leb n (length all) then done tt else short_result finish

pub record WaitFacts (n : ℕ) (s : StreamBuffer) (r : Reply (Unit {0}) × StreamBuffer) : Type 0 where
  pub result : r.0 ≡ wait_result n (total s) s.finish
  pub kept : total r.1 ≡ total s
  pub finish : (r.1).finish ≡ s.finish
  pub written : (r.1).written ≡ s.written
  pub valid : IsStream r.1
  pub enough : (n ≤ length (r.1).buffer) ⊎ (concat (r.1).incoming ≡ [])

le-total : (n : ℕ) (s : StreamBuffer) → n ≤ length s.buffer → leb n (length (total s)) ≡ true
le-total n s h = let e = length-append s.buffer (concat s.incoming) in ground (arith, h, e)

short-total :
    (n : ℕ) (s t : StreamBuffer)
    → leb n (length t.buffer) ≡ false
    → t.incoming ≡ []
    → total t ≡ total s
    → leb n (length (total s)) ≡ false
short-total n s t few none_left bytes =
    let e = length-append t.buffer (concat t.incoming) in
    let z : length (concat t.incoming) ≡ 0 = ap (λ cs. length (concat cs)) none_left in
    let f = ap length bytes in ground (arith, few, e, z, f)

wait_short :
    (n : ℕ) (s t : StreamBuffer) (f : Finish)
    → leb n (length t.buffer) ≡ false
    → t.incoming ≡ []
    → total t ≡ total s
    → t.finish ≡ s.finish
    → t.written ≡ s.written
    → t.ended ≡ false
    → f ≡ s.finish
    → WaitFacts n s (resolve f t)
wait_short n s t closes few none_left bytes fin wr open_ e =
    let short = short-total n s t few none_left bytes in
    record {
      result = rw short (ap short_result e);
      kept = bytes;
      finish = fin;
      written = wr;
      valid = inr (none_left, fin ∙ sym e);
      enough = inr (ap concat none_left);
    }
wait_short n s t breaks few none_left bytes fin wr open_ e =
    let short = short-total n s t few none_left bytes in
    record {
      result = rw short (ap short_result e);
      kept = bytes;
      finish = fin;
      written = wr;
      valid = inl open_;
      enough = inr (ap concat none_left);
    }
wait_short n s t stalls few none_left bytes fin wr open_ e =
    let short = short-total n s t few none_left bytes in
    record {
      result = rw short (ap short_result e);
      kept = bytes;
      finish = fin;
      written = wr;
      valid = inl open_;
      enough = inr (ap concat none_left);
    }

wait_full :
    (n : ℕ) (s t : StreamBuffer)
    → n ≤ length t.buffer
    → total t ≡ total s
    → t.finish ≡ s.finish
    → t.written ≡ s.written
    → IsStream t
    → WaitFacts n s (done tt, t)
wait_full n s t enough bytes fin wr valid = record {
  result = rw (ap (λ b. leb n (length b)) (sym bytes) ∙ le-total n t enough) refl;
  kept = bytes;
  finish = fin;
  written = wr;
  valid = valid;
  enough = inl enough;
}

wait_ended :
    (n : ℕ) (s : StreamBuffer) → s.incoming ≡ [] → s.finish ≡ closes → WaitFacts n s (done tt, s)
wait_ended n s nothing closed = record {
  result = elim (Bool-cases (leb n (length (total s)))) [
    | inl enough ↦ rw enough refl
    | inr few ↦ rw few (ap short_result (sym closed))
  ];
  kept = refl;
  finish = refl;
  written = refl;
  valid = inr (nothing, closed);
  enough = inr (ap concat nothing);
}

wait_received :
    (n : ℕ) (s t : StreamBuffer)
    → (n ≤ length t.buffer) ⊎ (t.incoming ≡ [])
    → total t ≡ total s
    → t.finish ≡ s.finish
    → t.written ≡ s.written
    → t.ended ≡ false
    → WaitFacts n s (if leb n (length t.buffer) then (done tt, t) else resolve t.finish t)
wait_received n s t ends bytes fin wr open_ =
    if-cases (WaitFacts n s) (leb n (length t.buffer)) _ _
      (λ enough. wait_full n s t (leb→le n (length t.buffer) enough) bytes fin wr (inl open_))
      (λ few. elim ends [
        | inl h ↦ let e = le→leb n (length t.buffer) h in absurd (ground (arith, e, few))
        | inr h ↦ wait_short n s t t.finish few h bytes fin wr open_ fin
      ])

pub wait_facts : (n : ℕ) (s : StreamBuffer) → IsStream s → WaitFacts n s (wait n s)
unfolding wait
wait_facts n s v =
    if-cases (WaitFacts n s) (leb n (length s.buffer) || s.ended) _ _
      (λ ready. elim (or-eq-true (leb n (length s.buffer)) s.ended ready) [
        | inl enough ↦ wait_full n s s (leb→le n (length s.buffer) enough) refl refl refl v
        | inr over ↦ elim v [
          | inl open_ ↦ absurd (ground (arith, over, open_))
          | inr (nothing, closed) ↦ wait_ended n s nothing closed
        ]
      ])
      (λ waiting.
        let t = fill s (receive n s.buffer s.incoming) in
        wait_received n s t (receive_ends n s.buffer s.incoming)
          (receive-bytes n s.buffer s.incoming) refl refl
          (or-eq-false (leb n (length s.buffer)) s.ended waiting).1)
