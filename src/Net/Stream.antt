-- ===== src/Net/Stream.antt =====
-- worker/src/net/stream-buffer.ts: StreamBuffer. The socket is given by what it will still deliver:
-- its data events, and then how it goes on. Each read awaits the events that it needs.
pub mod Chunks
pub mod Reads
pub mod Agreement
use proxy_pulse_crunchyroll.Prelude.{
  ℕ, zero, suc, Bool, true, false, ◌||◌, List, [], ◌∷◌, ◌++◌, leb, ◌==◌, if◌then◌else◌, length,
  take, drop,
}

abbrev pub Bytes : Type 0
Bytes = List ℕ

-- After the last data event: the end of the stream, an error, or nothing until a deadline.
pub data Finish : Type 0 where
  closes breaks stalls : Finish

pub record StreamBuffer : Type 0 where
  pub buffer : Bytes
  pub ended : Bool
  pub incoming : List Bytes
  pub finish : Finish
  pub written : Bytes

-- The codes of ProxyHandshakeError and HttpProtocolError, and of the errors that a read passes on.
pub data ErrorCode : Type 0 where
  protocol_error proxy_auth_failed proxy_bad_gateway connect_refused timeout : ErrorCode
  connection_closed socket_error : ErrorCode

pub data Reply {ℓ} (A : Type ℓ) : Type ℓ where
  done : A → Reply A
  fail : ErrorCode → Reply A

abbrev pub Io {ℓ} : Type ℓ → Type ℓ
Io A = StreamBuffer → Reply A × StreamBuffer

-- What follows a step that has ended.
abbrev pub after {ℓ κ} :
    {A : Type ℓ} {B : Type κ} → (A → Io B) → Reply A × StreamBuffer → Reply B × StreamBuffer
after f (done a, s) = f a s
after f (fail e, s) = (fail e, s)

infixl 5 ◌>>=◌ ◌>>◌
abbrev pub ◌>>=◌ {ℓ κ} : {A : Type ℓ} {B : Type κ} → Io A → (A → Io B) → Io B
◌>>=◌ m f s = after f (m s)

abbrev pub ◌>>◌ {ℓ κ} : {A : Type ℓ} {B : Type κ} → Io A → Io B → Io B
m >> k = m >>= λ _. k

abbrev pub return {ℓ} : {A : Type ℓ} → A → Io A
return a s = (done a, s)

abbrev pub throw {ℓ} : {A : Type ℓ} → ErrorCode → Io A
throw e s = (fail e, s)

-- `if (!test) throw …`
abbrev pub check : Bool → ErrorCode → Io (Unit {0})
check true e = return tt
check false e = throw e

unfoldable pub write : Bytes → Io (Unit {0})
write bytes s = (done tt, record s { written = s.written ++ bytes })

-- The data events that arrive until `n` bytes are buffered.
unfoldable pub receive : ℕ → Bytes → List Bytes → Bytes × List Bytes
receive n buffer [] = (buffer, [])
receive n buffer (c ∷ cs) =
    let more = receive n (buffer ++ c) cs in
    if leb n (length buffer) then (buffer, c ∷ cs) else more

-- What the waiter gets when the events that came are not enough.
abbrev pub resolve : Finish → StreamBuffer → Reply (Unit {0}) × StreamBuffer
resolve closes s = (done tt, record s { ended = true })
resolve breaks s = (fail socket_error, s)
resolve stalls s = (fail timeout, s)

abbrev pub fill : StreamBuffer → Bytes × List Bytes → StreamBuffer
fill s (buffer, incoming) = record s { buffer = buffer; incoming = incoming }

unfoldable pub wait : ℕ → Io (Unit {0})
unfolding receive
wait n s =
    if leb n (length s.buffer) || s.ended
    then (done tt, s)
    else (let t = fill s (receive n s.buffer s.incoming) in
        if leb n (length t.buffer) then (done tt, t) else resolve t.finish t)

-- `take`; `Math.min` is that of `subarray`.
unfoldable pub take_bytes : ℕ → Io Bytes
take_bytes n s = (done (take n s.buffer), record s { buffer = drop n s.buffer })

-- `wait` and then `take`; and `wait` and then a view of the first bytes of `buffered`.
unfoldable pub read : ℕ → Io Bytes
unfolding wait take_bytes
read n = wait n >> take_bytes n

unfoldable pub peek : ℕ → Io Bytes
unfolding wait
peek n = wait n >> λ s. (done (take n s.buffer), s)

-- `bytes[i]`, and whether it is there and is `b`.
abbrev pub is_byte : Bytes → ℕ → ℕ → Bool
is_byte [] i b = false
is_byte (x ∷ xs) zero b = x == b
is_byte (x ∷ xs) (suc i) b = is_byte xs i b
