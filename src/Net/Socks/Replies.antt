-- ===== src/Net/Socks/Replies.antt =====
-- Which answers of a SOCKS4 proxy are taken for a granted request.
use proxy_pulse_crunchyroll.Prelude.{
  ◌≡◌, refl, sym, ap, ◌∙◌, ◌≢◌, ◌↔◌, inl, inr, Bool, true, false, ◌&&◌, ◌||◌, ◌++◌, Option, none,
  some, if◌then◌else◌, Bool-cases, is_some, take,
}
use proxy_pulse_crunchyroll.Text.{Text}
use proxy_pulse_crunchyroll.Net.Stream.{
  Bytes, StreamBuffer, ErrorCode, protocol_error, Reply, done, fail, Io, after, ◌>>◌, throw, check,
  write, read, is_byte,
}
use proxy_pulse_crunchyroll.Net.Stream.Chunks.{total, IsStream, wait_result}
use proxy_pulse_crunchyroll.Net.Stream.Reads.{read_facts, replace}
use proxy_pulse_crunchyroll.Net.Socks.{
  SocksTarget, socks4_packet, socks4_result, socks4_exchange, socks4_connect,
}

abbrev pub is_granted : Bytes → Bool
is_granted reply = is_byte reply 0 0 && is_byte reply 1 0x5a

abbrev pub granted_in : Reply Bytes → Bool
granted_in (done reply) = is_granted reply
granted_in (fail e) = false

throws :
    (b c : Bool) (d e f : ErrorCode) (s : StreamBuffer)
    → (let m : Io (Unit {0}) = if b then throw d else if c then throw e else throw f in (m s).0)
      ≢ done tt
throws true c d e f s h = absurd (cc)
throws false true d e f s h = absurd (cc)
throws false false d e f s h = absurd (cc)

module _ (utf8 : Text → Bytes) where
  abbrev verdict : Bytes → Io (Unit {0})
  verdict reply = check (is_byte reply 0 0) protocol_error >> socks4_result utf8 reply

  verdict-done :
      (reply : Bytes) (s : StreamBuffer)
      → ((verdict reply s).0 ≡ done tt) ↔ (is_granted reply ≡ true)
  verdict-done reply s = elim (Bool-cases (is_byte reply 0 0)) [
    | inr bad ↦ rw bad (λ h. absurd (cc), λ h. absurd (cc))
    | inl good ↦ rw good (elim (Bool-cases (is_byte reply 1 0x5a)) [
      | inl ok ↦ rw ok (λ h. refl, λ h. refl)
      | inr refused ↦ rw refused (
        λ h. absurd (
            throws (is_byte reply 1 0x5b) (is_byte reply 1 0x5c || is_byte reply 1 0x5d) _ _ _ s h),
        λ h. absurd (cc),
      )
    ])
  ]

  after-verdict :
      (r : Reply Bytes × StreamBuffer) → ((after verdict r).0 ≡ done tt) ↔ (granted_in r.0 ≡ true)
  after-verdict (done reply, s) = verdict-done reply s
  after-verdict (fail e, s) = (λ h. absurd (cc), λ h. absurd (cc))

  exchange_done :
      (packet : Option Bytes) (s : StreamBuffer)
      → IsStream s
      → ((socks4_exchange utf8 packet s).0 ≡ done tt) ↔ (
          (is_some packet ≡ true)
          × (granted_in (replace (take 8 (total s)) (wait_result 8 (total s) s.finish)) ≡ true))
  unfolding write
  exchange_done none s v = (λ h. absurd (cc), λ (h, k). absurd (cc))
  exchange_done (some packet) s v =
      let t = record s { written = s.written ++ packet } in
      let f = (read_facts 8 t v).result in
      let a = after-verdict (read 8 t) in
      (λ h. (refl, ap granted_in (sym f) ∙ a.0 h), λ (h, k). a.1 (ap granted_in f ∙ k))

  -- A SOCKS4 handshake succeeds exactly when the target fits a request, eight bytes come or the stream closes
  -- before that, and the first byte of what has come is 0 and the second 0x5a.
  pub socks4_connect-done :
      (target : SocksTarget) (s : StreamBuffer)
      → IsStream s
      → ((socks4_connect utf8 target s).0 ≡ done tt) ↔ (
          (is_some (socks4_packet utf8 target) ≡ true)
          × (granted_in (replace (take 8 (total s)) (wait_result 8 (total s) s.finish)) ≡ true))
  unfolding socks4_connect
  socks4_connect-done target s v = exchange_done (socks4_packet utf8 target) s v
