-- ===== src/Net/Socks/Chunking.antt =====
-- A handshake does not depend on how the proxy's answers are cut into data events.
use proxy_pulse_crunchyroll.Prelude.{ℕ, Option, none, some}
use proxy_pulse_crunchyroll.Text.{Text}
use proxy_pulse_crunchyroll.Net.Stream.{Bytes, ErrorCode, protocol_error, proxy_auth_failed}
use proxy_pulse_crunchyroll.Net.Stream.Agreement.{
  Agrees, return-Agrees, throw-Agrees, check-Agrees, write-Agrees, read-Agrees, peek-Agrees,
  bind-Agrees, then-Agrees, if-Agrees,
}
use proxy_pulse_crunchyroll.Net.Socks.{
  SocksTarget, authenticate, choose_method, send_request, read_reply, reply_of, socks5_connect,
  encode_address, socks4_packet, socks4_result, socks4_exchange, socks4_connect, socks5_error,
  byte_or,
}

module _ (utf8 : Text → Bytes) where
  authenticate-Agrees : (target : SocksTarget) → Agrees (authenticate utf8 target)
  unfolding authenticate
  authenticate-Agrees target = then-Agrees _ _ (check-Agrees _ _) (
      then-Agrees _ _ (write-Agrees _) (
        bind-Agrees _ _ (read-Agrees 2)
          (λ auth. then-Agrees _ _ (check-Agrees _ _) (check-Agrees _ _))))

  choose_method-Agrees :
      (target : SocksTarget) (greeting : Bytes) → Agrees (choose_method utf8 target greeting)
  choose_method-Agrees target greeting =
      if-Agrees _ _ _ (throw-Agrees proxy_auth_failed)
        (if-Agrees _ _ _ (authenticate-Agrees target) (check-Agrees _ _))

  send_request-Agrees :
      (target : SocksTarget) (address : Option (ℕ × Bytes))
      → Agrees (send_request utf8 target address)
  send_request-Agrees target none = throw-Agrees protocol_error
  send_request-Agrees target (some (atyp, bytes)) = write-Agrees _

  read_reply-Agrees : (size : ℕ) → Agrees (read_reply utf8 size)
  unfolding read_reply
  read_reply-Agrees size = bind-Agrees _ _ (read-Agrees size) (λ reply.
      if-Agrees _ _ _ (return-Agrees tt) (throw-Agrees (socks5_error (byte_or 256 reply 1))))

  reply_of-Agrees : (head : Bytes) → Agrees (reply_of utf8 head)
  reply_of-Agrees head = if-Agrees _ _ _ (read_reply-Agrees 10) (
      if-Agrees _ _ _ (read_reply-Agrees 22) (
        if-Agrees _ _ _
          (bind-Agrees _ _ (peek-Agrees 5) (λ named.
            if-Agrees _ _ _ (read_reply-Agrees _) (throw-Agrees ErrorCode.proxy_bad_gateway)))
          (read_reply-Agrees 4)))

  -- On streams that deliver the same bytes and end the same way, however these are cut into data events and
  -- buffered, the SOCKS5 handshake has the same outcome, sends the same, and leaves the same bytes.
  pub socks5_connect-Agrees : (target : SocksTarget) → Agrees (socks5_connect utf8 target)
  unfolding socks5_connect
  socks5_connect-Agrees target = then-Agrees _ _ (write-Agrees _) (
      bind-Agrees _ _ (read-Agrees 2) (λ greeting. then-Agrees _ _ (check-Agrees _ _) (
        then-Agrees _ _ (choose_method-Agrees target greeting) (
          then-Agrees _ _ (send_request-Agrees target (encode_address utf8 target.host)) (
            bind-Agrees _ _ (peek-Agrees 4)
              (λ head. then-Agrees _ _ (check-Agrees _ _) (reply_of-Agrees head)))))))

  socks4_result-Agrees : (reply : Bytes) → Agrees (socks4_result utf8 reply)
  socks4_result-Agrees reply = if-Agrees _ _ _ (return-Agrees tt) (
      if-Agrees _ _ _ (throw-Agrees ErrorCode.connect_refused) (
        if-Agrees _ _ _ (throw-Agrees proxy_auth_failed)
          (throw-Agrees ErrorCode.proxy_bad_gateway)))

  socks4_exchange-Agrees : (packet : Option Bytes) → Agrees (socks4_exchange utf8 packet)
  socks4_exchange-Agrees none = throw-Agrees protocol_error
  socks4_exchange-Agrees (some packet) = then-Agrees _ _ (write-Agrees _) (
      bind-Agrees _ _ (read-Agrees 8)
        (λ reply. then-Agrees _ _ (check-Agrees _ _) (socks4_result-Agrees reply)))

  -- So it is with the SOCKS4 handshake.
  pub socks4_connect-Agrees : (target : SocksTarget) → Agrees (socks4_connect utf8 target)
  unfolding socks4_connect
  socks4_connect-Agrees target = socks4_exchange-Agrees (socks4_packet utf8 target)
