-- ===== src/Ip.antt =====
-- shared/src/ip.ts: the address policy. The children read IPv4 and IPv6 literals, classify
-- addresses and decide whether an endpoint may be dialled.
pub mod Ipv4
pub mod Ipv6
pub mod Classify
pub mod Inspect
mod Tests
