-- ===== src/Types.antt =====
-- shared/src/types.ts: the life cycle of a proxy, and time stamps.
use proxy_pulse_crunchyroll.Prelude.{ℕ, Bool, true, false, Option, none, some}

pub data ProxyProtocol : Type 0 where
  http https socks4 socks5 : ProxyProtocol

pub data ProxyStatus : Type 0 where
  new pending active quarantined dead : ProxyStatus

pub data ValidationStatus : Type 0 where
  unchecked passed failed : ValidationStatus

pub data ServiceStatus : Type 0 where
  untested passed failed blocked skipped : ServiceStatus

pub data AnonymityLevel : Type 0 where
  elite anonymous transparent unknown : AnonymityLevel

-- A time stamp, by what `Date.parse` makes of it: milliseconds, or NaN.
pub data Stamp : Type 0 where
  valid : ℕ → Stamp
  malformed : Stamp

-- The stamps that the program writes are valid.
abbrev pub stamp_of : Option ℕ → Option Stamp
stamp_of none = none
stamp_of (some ms) = some (valid ms)

abbrev pub is_active : ProxyStatus → Bool
is_active active = true
is_active new = false
is_active pending = false
is_active quarantined = false
is_active dead = false

abbrev pub is_quarantined : ProxyStatus → Bool
is_quarantined quarantined = true
is_quarantined new = false
is_quarantined pending = false
is_quarantined active = false
is_quarantined dead = false

abbrev pub is_service_blocked : ServiceStatus → Bool
is_service_blocked ServiceStatus.blocked = true
is_service_blocked ServiceStatus.untested = false
is_service_blocked ServiceStatus.passed = false
is_service_blocked ServiceStatus.failed = false
is_service_blocked ServiceStatus.skipped = false

abbrev pub is_service_passed : ServiceStatus → Bool
is_service_passed ServiceStatus.passed = true
is_service_passed ServiceStatus.untested = false
is_service_passed ServiceStatus.failed = false
is_service_passed ServiceStatus.blocked = false
is_service_passed ServiceStatus.skipped = false
