-- ===== src/Crunchyroll/Rules.antt =====
-- services/crunchyroll/src/rules.ts: the verdict on a probed response. `Number` and `Date.parse` of the
-- JavaScript runtime are parameters, `none` where they are not finite.
pub mod Verdicts
use proxy_pulse_crunchyroll.Prelude.{
  ℕ, Bool, true, false, not, ◌||◌, List, [], ◌∷◌, Option, none, some, ltb, leb, ◌==◌, if◌then◌else◌,
  is_some, or_default, length, take, any,
}
use proxy_pulse_crunchyroll.Text.{Text, codes, text_eq, trim, to_lower}
use proxy_pulse_crunchyroll.Numbers.{Number}
use proxy_pulse_crunchyroll.Robots.{includes_text}

-- services/crunchyroll/src/types.ts: CrunchyrollVerdict
pub data Verdict : Type 0 where
  passed failed blocked skipped : Verdict

-- The reasons, with what the source puts after the colon.
pub data RuleReason : Type 0 where
  robots_disallowed proxy_error transport_error : Text → RuleReason
  rate_limited denied service_error unexpected_status : ℕ → RuleReason
  blocked_by_policy bot_challenge unexpected_content : RuleReason

pub record Details : Type 0 where
  pub transport : Text
  pub body_bytes : ℕ
  pub truncated : Bool
  pub http_status : Option ℕ
  pub block_marker : Option Text
  pub cf_mitigated : Bool

-- shared/src/http.ts: what the rules read of a ProxyResponse.
pub record ProxyResponse : Type 0 where
  pub status : ℕ
  pub headers : Text → Option Text
  pub body_bytes : ℕ
  pub body_text : Text
  pub truncated : Bool
  pub error_code : Option Text
  pub transport : Option Text

-- `expectedHost` is not read.
pub record EvaluateInput : Type 0 where
  pub response : ProxyResponse
  pub check_path : Text
  pub robots_allowed : Bool
  pub robots_reason : Text

pub record RuleOutcome (N : Number) : Type 0 where
  pub verdict : Verdict
  pub reason : Option RuleReason
  pub retry_after_ms : Option N.Num
  pub details : Details

abbrev pub block_markers : List Text
block_markers =
    codes "just a moment"
    ∷ codes "cf-browser-verification"
    ∷ codes "cf_chl_opt"
    ∷ codes "attention required"
    ∷ codes "pardon our interruption"
    ∷ codes "access denied"
    ∷ codes "request blocked"
    ∷ codes "enable javascript and cookies"
    ∷ codes "captcha"
    ∷ codes "akamai edge"
    ∷ codes "reference #"
    ∷ []

abbrev pub robots_markers : List Text
robots_markers = codes "user-agent" ∷ codes "disallow" ∷ codes "sitemap" ∷ codes "allow" ∷ []

abbrev pub is_rate_limit_status : ℕ → Bool
is_rate_limit_status status = status == 429 || status == 503

abbrev pub is_deny_status : ℕ → Bool
is_deny_status status =
    status == 401 || status == 403 || status == 406 || status == 407 || status == 451

-- `value` is a string with something in it.
abbrev pub is_truthy : Option Text → Bool
is_truthy none = false
is_truthy (some []) = false
is_truthy (some (c ∷ s)) = true

abbrev first_included : List Text → Text → Option Text
first_included [] haystack = none
first_included (m ∷ ms) haystack =
    if includes_text m haystack then some m else first_included ms haystack

unfoldable pub contains_block_marker : Text → Option Text
unfolding to_lower
contains_block_marker body_text = first_included block_markers (to_lower (take 8000 body_text))

-- `s.endsWith(e)`
abbrev has_suffix : Text → Text → Bool
has_suffix e [] = text_eq e []
has_suffix e (c ∷ s) = text_eq e (c ∷ s) || has_suffix e s

unfoldable pub body_looks_expected : Text → Text → ℕ → Bool
unfolding to_lower trim
body_looks_expected body_text check_path status =
    if status == 204 || length body_text == 0
    then true
    else if has_suffix (codes "robots.txt") check_path
    then any (λ m. includes_text m (to_lower (take 4000 body_text))) robots_markers
    else ltb 0 (length (trim body_text))

module _ (N : Number) (number date_parse : Text → Option N.Num) (now : N.Num) where
  open N use {Num, ratio, mul, sub, maximum, round}

  unfoldable pub parse_retry_after_ms : Option Text → Option Num
  parse_retry_after_ms none = none
  parse_retry_after_ms (some []) = none
  parse_retry_after_ms (some (c ∷ s)) = elim (number (c ∷ s)) [
    | some seconds ↦ some (maximum (ratio 0 1) (round (mul seconds (ratio 1000 1))))
    | none ↦ elim (date_parse (c ∷ s)) [
      | none ↦ none
      | some date_ms ↦ some (maximum (ratio 0 1) (sub date_ms now))
    ]
  ]

  abbrev outcome : Verdict → Option RuleReason → Option Num → Details → RuleOutcome N
  outcome verdict reason retry_after_ms details = record {
    verdict = verdict;
    reason = reason;
    retry_after_ms = retry_after_ms;
    details = details;
  }

  -- A response that never came: the proxy is to blame, or policy, or the transport.
  unfoldable pub evaluate_error : Text → Details → RuleOutcome N
  evaluate_error code details =
      if text_eq code (codes "proxy_auth_failed")
        || text_eq code (codes "proxy_bad_gateway")
        || text_eq code (codes "connect_refused")
      then outcome failed (some (proxy_error code)) none details
      else if text_eq code (codes "blocked_by_policy")
      then outcome skipped (some blocked_by_policy) none details
      else outcome failed (some (transport_error code)) none details

  abbrev base_details : ProxyResponse → Details
  base_details response = record {
    transport = or_default response.transport (codes "unknown");
    body_bytes = response.body_bytes;
    truncated = response.truncated;
    http_status = none;
    block_marker = none;
    cf_mitigated = false;
  }

  -- A response that came.
  unfoldable pub evaluate_response : ProxyResponse → Text → RuleOutcome N
  unfolding contains_block_marker body_looks_expected parse_retry_after_ms
  evaluate_response response check_path =
      let status = response.status in
      let retry_after_ms = parse_retry_after_ms (response.headers (codes "retry-after")) in
      let marker = contains_block_marker response.body_text in
      let mitigated = is_truthy (response.headers (codes "cf-mitigated")) in
      let details = record (base_details response) {
        http_status = some status;
        block_marker = marker;
        cf_mitigated = mitigated;
      } in
      if is_rate_limit_status status
      then outcome blocked (some (rate_limited status)) retry_after_ms details
      else if is_deny_status status
      then outcome blocked (some (denied status)) retry_after_ms details
      else if leb 500 status
      then outcome failed (some (service_error status))
          (some (or_default retry_after_ms (ratio 5000 1))) details
      else if ltb status 200 || ltb 399 status
      then outcome failed (some (unexpected_status status)) retry_after_ms details
      else if is_some marker || mitigated
      then outcome blocked (some bot_challenge) retry_after_ms details
      else if not (body_looks_expected response.body_text check_path status)
      then outcome failed (some unexpected_content) retry_after_ms details
      else outcome passed none none details

  unfoldable pub evaluate_probed_response : EvaluateInput → RuleOutcome N
  unfolding evaluate_response evaluate_error
  evaluate_probed_response input =
      if not input.robots_allowed
      then outcome skipped (some (robots_disallowed input.robots_reason)) none
          (base_details input.response)
      else elim input.response.error_code [
        | some code ↦ evaluate_error code (base_details input.response)
        | none ↦ evaluate_response input.response input.check_path
      ]
