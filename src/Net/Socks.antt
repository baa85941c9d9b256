-- ===== src/Net/Socks.antt =====
-- worker/src/net/socks.ts: the SOCKS4, SOCKS4a and SOCKS5 handshakes. The UTF-8 encoding of the runtime
-- is a parameter, and a port is a number below 65536. One deadline holds for a whole handshake, so a
-- stream that stalls fails it with `timeout`.
pub mod Chunking
pub mod Replies
pub mod Requests
use proxy_pulse_crunchyroll.Prelude.{
  ℕ, ◌+◌, ◌/◌, ◌%◌, Bool, false, ◌||◌, [], ◌∷◌, ◌++◌, Option, none, some, ltb, ◌==◌, if◌then◌else◌,
  is_some, or_default, length, get_or, take,
}
use proxy_pulse_crunchyroll.Text.{Text, codes}
use proxy_pulse_crunchyroll.Ip.Ipv4.{Ipv4, parse_ipv4}
use proxy_pulse_crunchyroll.Ip.Ipv6.{parse_ipv6}
use proxy_pulse_crunchyroll.Net.Stream.{
  Bytes, ErrorCode, protocol_error, proxy_auth_failed, proxy_bad_gateway, connect_refused, timeout,
  Io, ◌>>=◌, ◌>>◌, return, throw, check, write, read, peek, is_byte,
}

pub record SocksTarget : Type 0 where
  pub host : Text
  pub port : ℕ
  pub username : Option Text
  pub password : Option Text

-- `writeUInt16BE`
abbrev pub port_bytes : ℕ → Bytes
port_bytes port = port / 256 ∷ port % 256 ∷ []

abbrev pub ipv4_bytes : Ipv4 → Bytes
ipv4_bytes q = q.a ∷ q.b ∷ q.c ∷ q.d ∷ []

-- The CONNECT request; what stands for the address is put in as it is.
abbrev pub connect_request : ℕ → Bytes → ℕ → Bytes
connect_request atyp bytes port = 5 ∷ 1 ∷ 0 ∷ atyp ∷ (bytes ++ port_bytes port)

-- `bytes[i]`, where it is there.
abbrev pub byte_or : ℕ → Bytes → ℕ → ℕ
byte_or d bytes i = get_or bytes i d

-- `username && password !== undefined`
abbrev pub uses_auth : SocksTarget → Bool
uses_auth target = elim target.username [
  | none ↦ false
  | some [] ↦ false
  | some (c ∷ s) ↦ is_some target.password
]

-- SOCKS5_ERRORS, and what stands for a code that is not in it.
abbrev pub socks5_error : ℕ → ErrorCode
socks5_error rep =
    if rep == 5
    then connect_refused
    else if rep == 6 || rep == 7
    then timeout
    else if rep == 8 || rep == 9
    then protocol_error
    else proxy_bad_gateway

module _ (utf8 : Text → Bytes) where
  -- The address type and the bytes of a host, which are too many or not.
  abbrev pub encoded_name : Text → Option (ℕ × Bytes)
  encoded_name host = if ltb 255 (length (utf8 host)) then none else some (3, utf8 host)

  abbrev pub encoded_v6 : Text → Option Bytes → Option (ℕ × Bytes)
  encoded_v6 host (some v6) = some (4, v6)
  encoded_v6 host none = encoded_name host

  abbrev pub encoded_v4 : Text → Option Ipv4 → Option (ℕ × Bytes)
  encoded_v4 host (some v4) = some (1, ipv4_bytes v4)
  encoded_v4 host none = encoded_v6 host (parse_ipv6 host)

  unfoldable pub encode_address : Text → Option (ℕ × Bytes)
  encode_address host = encoded_v4 host (parse_ipv4 host)

  -- RFC 1929. A length byte holds the length modulo 256.
  unfoldable pub authenticate : SocksTarget → Io (Unit {0})
  authenticate target = do
    check (uses_auth target) proxy_auth_failed
    let user = utf8 (or_default target.username [])
    let pass = utf8 (or_default target.password [])
    write (1 ∷ (length user % 256) ∷ (user ++ ((length pass % 256) ∷ pass)))
    auth ← read 2
    check (is_byte auth 0 1) protocol_error
    check (is_byte auth 1 0) proxy_auth_failed

  -- The method that the server has chosen.
  abbrev pub choose_method : SocksTarget → Bytes → Io (Unit {0})
  choose_method target greeting =
      if is_byte greeting 1 0xff
      then throw proxy_auth_failed
      else if is_byte greeting 1 2
      then authenticate target
      else check (is_byte greeting 1 0) protocol_error

  abbrev pub send_request : SocksTarget → Option (ℕ × Bytes) → Io (Unit {0})
  send_request target none = throw protocol_error
  send_request target (some (atyp, bytes)) = write (connect_request atyp bytes target.port)

  -- The reply; a byte that is not there is no `undefined` code, but the code of an unknown error.
  unfoldable pub read_reply : ℕ → Io (Unit {0})
  read_reply size = do
    reply ← read size
    if is_byte reply 1 0 then return tt else throw (socks5_error (byte_or 256 reply 1))

  -- A length byte that is not there leaves the length of the reply undefined (`NaN`): `take` then takes
  -- nothing, and the code that is not in it is an unknown error.
  abbrev pub named_reply : Bytes → Io (Unit {0})
  named_reply named =
      if ltb 4 (length named)
      then read_reply (5 + byte_or 0 named 4 + 2)
      else throw proxy_bad_gateway

  -- The length of the reply depends on its address type.
  abbrev pub reply_of : Bytes → Io (Unit {0})
  reply_of head =
      if is_byte head 3 1
      then read_reply 10
      else if is_byte head 3 4
      then read_reply 22
      else if is_byte head 3 3
      then peek 5 >>= named_reply
      else read_reply 4

  unfoldable pub socks5_connect : SocksTarget → Io (Unit {0})
  unfolding encode_address authenticate read_reply
  socks5_connect target = do
    write (if uses_auth target then 5 ∷ 2 ∷ 0 ∷ 2 ∷ [] else 5 ∷ 1 ∷ 0 ∷ [])
    greeting ← read 2
    check (is_byte greeting 0 5) protocol_error
    choose_method target greeting
    send_request target (encode_address target.host)
    head ← peek 4
    check (is_byte head 0 5) protocol_error
    reply_of head

  abbrev pub user_id : SocksTarget → Bytes
  user_id target = utf8 (take 255 (or_default target.username (codes "proxypulse")))

  abbrev pub named_packet : SocksTarget → Option Bytes → Option Bytes
  named_packet target (some v6) = none
  named_packet target none =
      if ltb 255 (length (utf8 target.host))
      then none
      else some (
          4
          ∷ 1
          ∷ (port_bytes target.port
              ++ (0 ∷ 0 ∷ 0 ∷ 1 ∷ (user_id target ++ (0 ∷ (utf8 target.host ++ (0 ∷ [])))))))

  abbrev pub packet_for : SocksTarget → Option Ipv4 → Option Bytes
  packet_for target (some v4) =
      some (4 ∷ 1 ∷ (port_bytes target.port ++ (ipv4_bytes v4 ++ (user_id target ++ (0 ∷ [])))))
  packet_for target none = named_packet target (parse_ipv6 target.host)

  -- The request, if the target can be put into one.
  unfoldable pub socks4_packet : SocksTarget → Option Bytes
  socks4_packet target = packet_for target (parse_ipv4 target.host)

  -- A code that is not there is unknown.
  abbrev pub socks4_result : Bytes → Io (Unit {0})
  socks4_result reply =
      if is_byte reply 1 0x5a
      then return tt
      else if is_byte reply 1 0x5b
      then throw connect_refused
      else if is_byte reply 1 0x5c || is_byte reply 1 0x5d
      then throw proxy_auth_failed
      else throw proxy_bad_gateway

  abbrev pub socks4_exchange : Option Bytes → Io (Unit {0})
  socks4_exchange none = throw protocol_error
  socks4_exchange (some packet) = do
    write packet
    reply ← read 8
    check (is_byte reply 0 0) protocol_error
    socks4_result reply

  unfoldable pub socks4_connect : SocksTarget → Io (Unit {0})
  unfolding socks4_packet
  socks4_connect target = socks4_exchange (socks4_packet target)
