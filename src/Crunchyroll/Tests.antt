-- ===== src/Crunchyroll/Tests.antt =====
-- Runs of the service adapter, and its theorems at concrete inputs.
use proxy_pulse_crunchyroll.Prelude.{
  ℕ, ◌≡◌, refl, ◌↔◌, true, false, not, ◌&&◌, Option, none, length,
}
use proxy_pulse_crunchyroll.Text.{Text, codes, to_lower, lower}
use proxy_pulse_crunchyroll.Numbers.Thousandths.{thousandths}
use proxy_pulse_crunchyroll.Crunchyroll.Rules.{
  EvaluateInput, passed, blocked, evaluate_probed_response, evaluate_response,
  contains_block_marker, body_looks_expected,
}
use proxy_pulse_crunchyroll.Crunchyroll.Rules.Verdicts.{
  is_challenge, in_success_range, evaluate_probed_response-passed,
}

abbrev no_value : Text → Option ℕ
no_value s = none

abbrev probe : ℕ → Text → EvaluateInput
probe status body = record {
  response = record {
    status = status;
    headers = no_header;
    body_bytes = length body;
    body_text = body;
    truncated = false;
    error_code = none;
    transport = none;
  };
  check_path = codes "/robots.txt";
  robots_allowed = true;
  robots_reason = codes "no_rules";
}
  where
    no_header : Text → Option Text
    no_header name = none

abbrev plain : EvaluateInput
plain = probe 200 (codes "User-agent: *")

abbrev challenge : EvaluateInput
challenge = probe 200 (codes "Just a moment...")

plain_passes : (evaluate_probed_response thousandths no_value no_value 0 plain).verdict ≡ passed
unfolding evaluate_probed_response evaluate_response contains_block_marker body_looks_expected
    to_lower lower
plain_passes = refl

challenge_is_blocked :
    (evaluate_probed_response thousandths no_value no_value 0 challenge).verdict ≡ blocked
unfolding evaluate_probed_response evaluate_response contains_block_marker body_looks_expected
    to_lower lower
challenge_is_blocked = refl

evaluate_probed_response-passed_example :
    let r = plain.response in
    ((evaluate_probed_response thousandths no_value no_value 0 plain).verdict ≡ passed) ↔ (
      (plain.robots_allowed ≡ true)
      × ((r.error_code ≡ none)
          × ((in_success_range r.status
                && not (is_challenge r)
                && body_looks_expected r.body_text plain.check_path r.status)
              ≡ true)))
evaluate_probed_response-passed_example =
    evaluate_probed_response-passed thousandths no_value no_value 0 plain
