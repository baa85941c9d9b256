-- ===== src/Db.antt =====
-- db/src: the rows of the `proxies` table.
pub mod Sweeps
pub mod Writes
pub mod Queries
use proxy_pulse_crunchyroll.Prelude.{ℕ, Option}
use proxy_pulse_crunchyroll.Text.{Text}
use proxy_pulse_crunchyroll.Numbers.{Number}
use proxy_pulse_crunchyroll.Types.{
  ProxyProtocol, ProxyStatus, ValidationStatus, ServiceStatus, AnonymityLevel,
}

-- What a note on a row says.
pub data Note (N : Number) : Type 0 where
  low_score : N.Num → Note N
  failures transient_failure : ℕ → Note N
  unrecoverable expired consecutive_failures pool_capacity : Note N

-- ProxyRow, with time stamps in milliseconds, less the columns that no modelled operation reads or writes: the address, the
-- credentials, the source, the country, and the columns on first and last sight.
pub record ProxyRow (N : Number) : Type 0 where
  pub id : ℕ
  pub dedupe_key : Text
  pub protocol : ProxyProtocol
  pub status : ProxyStatus
  pub validation_status : ValidationStatus
  pub service_status : ServiceStatus
  pub score : N.Num
  pub latency_ms : Option N.Num
  pub service_latency_ms : Option N.Num
  pub service_checked_at : Option ℕ
  pub service_fail_reason : Option Text
  pub last_error_code : Option Text
  pub anonymity : AnonymityLevel
  pub last_cycle_id : Option Text
  pub last_checked_at : Option ℕ
  pub last_passed_at : Option ℕ
  pub consecutive_failures : ℕ
  pub check_count : ℕ
  pub pass_count : ℕ
  pub notes : Option (Note N)
