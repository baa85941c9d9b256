-- ===== src/Net.antt =====
-- worker/src/net: what is read from and written to the socket of a proxy. Stream.antt models
-- stream-buffer.ts and Socks.antt socks.ts.
pub mod Stream
pub mod Lookup
pub mod Socks
mod Tests
