-- ===== src/Net/Tests.antt =====
-- Runs of the handshakes, and the theorems on them at concrete inputs.
use proxy_pulse_crunchyroll.Prelude.{
  ◌≡◌, refl, ◌↔◌, inl, true, false, List, [], ◌∷◌, none, some, arith, is_some, take, All,
}
use proxy_pulse_crunchyroll.Text.{Text, codes, split, decimal_from}
use proxy_pulse_crunchyroll.Ip.Ipv4.{parse_ipv4, parse_octet}
use proxy_pulse_crunchyroll.Net.Lookup.{
  SafeResolveOptions, Event, starts, goes_on, clears, run_events,
}
use proxy_pulse_crunchyroll.Net.Lookup.Safety.{IsSafeCall, run_events-IsSafe}
use proxy_pulse_crunchyroll.Net.Stream.{
  Bytes, closes, StreamBuffer, done, write, wait, receive, take_bytes, read, peek,
}
use proxy_pulse_crunchyroll.Net.Stream.Chunks.{total, Alike, wait_result}
use proxy_pulse_crunchyroll.Net.Stream.Reads.{replace}
use proxy_pulse_crunchyroll.Net.Stream.Agreement.{SameEnd}
use proxy_pulse_crunchyroll.Net.Socks.{
  SocksTarget, encode_address, connect_request, socks4_packet, socks4_connect, socks5_connect,
  authenticate, read_reply,
}
use proxy_pulse_crunchyroll.Net.Socks.Chunking.{socks5_connect-Agrees}
use proxy_pulse_crunchyroll.Net.Socks.Replies.{granted_in, socks4_connect-done}
use proxy_pulse_crunchyroll.Net.Socks.Requests.{
  decode_request, IsAddress, connect_request-roundtrip,
}

abbrev ascii : Text → Bytes
ascii s = s

abbrev target : SocksTarget
target = record { host = codes "1.2.3.4"; port = 8080; username = none; password = none }

abbrev stream : List Bytes → StreamBuffer
stream incoming = record {
  buffer = [];
  ended = false;
  incoming = incoming;
  finish = closes;
  written = [];
}

abbrev at_once : StreamBuffer
at_once = stream ((5 ∷ 0 ∷ 5 ∷ 0 ∷ 0 ∷ 1 ∷ 0 ∷ 0 ∷ 0 ∷ 0 ∷ 0 ∷ 0 ∷ []) ∷ [])

abbrev in_pieces : StreamBuffer
in_pieces = stream ((5 ∷ []) ∷ (0 ∷ 5 ∷ 0 ∷ []) ∷ (0 ∷ 1 ∷ 0 ∷ 0 ∷ 0 ∷ 0 ∷ 0 ∷ 0 ∷ []) ∷ [])

handshake_done : (socks5_connect ascii target in_pieces).0 ≡ done tt
unfolding socks5_connect write read wait receive take_bytes peek encode_address parse_ipv4
    authenticate read_reply split parse_octet decimal_from
handshake_done = refl

streams-Alike : Alike at_once in_pieces
streams-Alike = record {
  bytes = refl;
  finish = refl;
  written = refl;
  left = inl refl;
  right = inl refl;
}

socks5_connect-Agrees_example :
    SameEnd (socks5_connect ascii target at_once) (socks5_connect ascii target in_pieces)
socks5_connect-Agrees_example = socks5_connect-Agrees ascii target at_once in_pieces streams-Alike

-- Two bytes and the end of the stream are taken for a granted SOCKS4 request.
abbrev cut_short : StreamBuffer
cut_short = stream ((0 ∷ 0x5a ∷ []) ∷ [])

cut_short_granted : (socks4_connect ascii target cut_short).0 ≡ done tt
unfolding socks4_connect socks4_packet parse_ipv4 write read wait receive take_bytes split
    parse_octet decimal_from
cut_short_granted = refl

socks4_connect-done_example : ((socks4_connect ascii target cut_short).0 ≡ done tt) ↔ (
    (is_some (socks4_packet ascii target) ≡ true)
    × (granted_in (replace (take 8 (total cut_short)) (wait_result 8 (total cut_short) closes))
        ≡ true))
socks4_connect-done_example = socks4_connect-done ascii target cut_short (inl refl)

target_encoded : encode_address ascii (codes "1.2.3.4") ≡ some (1, 1 ∷ 2 ∷ 3 ∷ 4 ∷ [])
unfolding encode_address parse_ipv4 split parse_octet decimal_from
target_encoded = refl

connect_request-roundtrip_example :
    (decode_request (connect_request 1 (1 ∷ 2 ∷ 3 ∷ 4 ∷ []) 8080)
      ≡ some (1, 1 ∷ 2 ∷ 3 ∷ 4 ∷ [], 8080))
    × IsAddress (codes "1.2.3.4") 1 (1 ∷ 2 ∷ 3 ∷ 4 ∷ [])
connect_request-roundtrip_example =
    connect_request-roundtrip ascii (codes "1.2.3.4") 1 (1 ∷ 2 ∷ 3 ∷ 4 ∷ []) 8080 target_encoded
      (omega arith)

abbrev lookup_options : SafeResolveOptions
lookup_options = record { allow_private = false; cache_ttl_ms = none }

-- A name that resolves to a private and a public address is looked up twice.
abbrev lookups : List Event
lookups =
    starts lookup_options (codes "proxy.example") 0
    ∷ goes_on lookup_options (codes "proxy.example") 5
        (record { resolve4 = some (codes "10.0.0.1" ∷ codes "8.8.8.8" ∷ []); resolve6 = none })
    ∷ starts lookup_options (codes "PROXY.example") 10
    ∷ clears
    ∷ []

run_events-IsSafe_example : All IsSafeCall (run_events lookups [])
run_events-IsSafe_example = run_events-IsSafe lookups
