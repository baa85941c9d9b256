-- ===== src/Crunchyroll/Rules/Verdicts.antt =====
-- Which verdict a probed response gets.
use proxy_pulse_crunchyroll.Prelude.{
  ℕ, ◌≡◌, refl, sym, ◌∙◌, ◌≢◌, ◌↔◌, inl, inr, Bool, true, false, not, ◌&&◌, ◌||◌, Option, none,
  arith, ltb, leb, if◌then◌else◌, Bool-cases, Option-cases, is_some,
}
use proxy_pulse_crunchyroll.Text.{Text, codes}
use proxy_pulse_crunchyroll.Numbers.{Number}
use proxy_pulse_crunchyroll.Crunchyroll.Rules.{
  Verdict, Details, RuleOutcome, failed, passed, blocked, ProxyResponse, EvaluateInput,
  is_rate_limit_status, is_deny_status, is_truthy, contains_block_marker, body_looks_expected,
  evaluate_response, evaluate_error, evaluate_probed_response,
}

-- A marker of a challenge in the body, or a `cf-mitigated` header.
abbrev pub is_challenge : ProxyResponse → Bool
is_challenge response =
    is_some (contains_block_marker response.body_text)
    || is_truthy (response.headers (codes "cf-mitigated"))

abbrev pub in_success_range : ℕ → Bool
in_success_range status = leb 200 status && leb status 399

abbrev pub is_refusal : ℕ → Bool
is_refusal status = is_rate_limit_status status || is_deny_status status

-- The verdict on a response, by what the rules test in turn.
abbrev chain : Bool → Bool → Bool → Bool → Bool → Bool → Verdict
chain limited denied broken odd challenge expected =
    if limited
    then blocked
    else if denied
    then blocked
    else if broken
    then failed
    else if odd
    then failed
    else if challenge
    then blocked
    else if not expected
    then failed
    else passed

chain-passed :
    (l d b o c e : Bool)
    → (chain l d b o c e ≡ passed) ↔ ((not l && not d && not b && not o && not c && e) ≡ true)
chain-passed l d b o c e = ground arith

chain-blocked :
    (l d b o c e : Bool)
    → (chain l d b o c e ≡ blocked) ↔ ((l || d || (not b && not o && c)) ≡ true)
chain-blocked l d b o c e = ground arith

range-passed :
    (n : ℕ) (c e : Bool)
    → (not (is_rate_limit_status n)
        && not (is_deny_status n)
        && not (leb 500 n)
        && not (ltb n 200 || ltb 399 n)
        && not c
        && e)
      ≡ (in_success_range n && not c && e)
range-passed n c e = ground arith

range-blocked :
    (n : ℕ) (c : Bool)
    → (is_rate_limit_status n
        || is_deny_status n
        || (not (leb 500 n) && not (ltb n 200 || ltb 399 n) && c))
      ≡ (is_refusal n || (in_success_range n && c))
range-blocked n c = ground arith

if-verdict :
    {N : Number} (b : Bool) (x y : RuleOutcome N)
    → (if b then x else y).verdict ≡ (if b then x.verdict else y.verdict)
if-verdict true x y = refl
if-verdict false x y = refl

module _ (N : Number) (number date_parse : Text → Option N.Num) (now : N.Num) where
  evaluate_error-verdict :
      (code : Text) (base : Details)
      → ((evaluate_error N number date_parse now code base).verdict ≢ passed)
        × ((evaluate_error N number date_parse now code base).verdict ≢ blocked)
  unfolding evaluate_error
  evaluate_error-verdict code base = ground arith

  evaluate_response-verdict :
      (response : ProxyResponse) (check_path : Text)
      → (evaluate_response N number date_parse now response check_path).verdict
        ≡ chain
            (is_rate_limit_status response.status)
            (is_deny_status response.status)
            (leb 500 response.status)
            (ltb response.status 200 || ltb 399 response.status)
            (is_challenge response)
            (body_looks_expected response.body_text check_path response.status)
  unfolding evaluate_response
  evaluate_response-verdict response check_path = simp if-verdict refl

  evaluate_response-passed :
      (response : ProxyResponse) (check_path : Text)
      → ((evaluate_response N number date_parse now response check_path).verdict ≡ passed) ↔ (
          (in_success_range response.status
            && not (is_challenge response)
            && body_looks_expected response.body_text check_path response.status)
          ≡ true)
  evaluate_response-passed response check_path =
      let n = response.status in
      let c = is_challenge response in
      let e = body_looks_expected response.body_text check_path n in
      let v = evaluate_response-verdict response check_path in
      let p =
        chain-passed (is_rate_limit_status n) (is_deny_status n) (leb 500 n)
          (ltb n 200 || ltb 399 n) c e in
      (λ h. sym (range-passed n c e) ∙ p.0 (sym v ∙ h), λ h. v ∙ p.1 (range-passed n c e ∙ h))

  evaluate_response-blocked :
      (response : ProxyResponse) (check_path : Text)
      → ((evaluate_response N number date_parse now response check_path).verdict ≡ blocked) ↔ (
          (is_refusal response.status
            || (in_success_range response.status && is_challenge response))
          ≡ true)
  evaluate_response-blocked response check_path =
      let n = response.status in
      let c = is_challenge response in
      let v = evaluate_response-verdict response check_path in
      let p =
        chain-blocked (is_rate_limit_status n) (is_deny_status n) (leb 500 n)
          (ltb n 200 || ltb 399 n) c (body_looks_expected response.body_text check_path n) in
      (λ h. sym (range-blocked n c) ∙ p.0 (sym v ∙ h), λ h. v ∙ p.1 (range-blocked n c ∙ h))

  -- A probe passes exactly when robots.txt permits it, the transport succeeded, the status is from 200
  -- to 399, neither the body nor a header shows a challenge, and the body is one that the path may give.
  pub evaluate_probed_response-passed :
      (input : EvaluateInput)
      → let r = input.response in
        ((evaluate_probed_response N number date_parse now input).verdict ≡ passed) ↔ (
          (input.robots_allowed ≡ true)
          × ((r.error_code ≡ none)
              × ((in_success_range r.status
                    && not (is_challenge r)
                    && body_looks_expected r.body_text input.check_path r.status)
                  ≡ true)))
  unfolding evaluate_probed_response
  evaluate_probed_response-passed input =
      let r = input.response in
      let v = evaluate_response-passed r input.check_path in
      elim (Bool-cases input.robots_allowed) [
        | inr banned ↦ rw banned (λ h. absurd cc, λ h. absurd cc)
        | inl free ↦ elim (Option-cases r.error_code) [
          | inl good ↦ rw (free, good) (λ h. (refl, (refl, v.0 h)), λ h. v.1 (h.1.1))
          | inr (code, bad) ↦
              rw (free, bad) (λ h. absurd ((evaluate_error-verdict code _).0 h), λ h. absurd cc)
        ]
      ]

  -- A probe counts as blocked exactly when robots.txt permits it, the transport succeeded, and the
  -- status is one of throttling or refusal, or it is from 200 to 399 and shows a challenge.
  pub evaluate_probed_response-blocked :
      (input : EvaluateInput)
      → let r = input.response in
        ((evaluate_probed_response N number date_parse now input).verdict ≡ blocked) ↔ (
          (input.robots_allowed ≡ true)
          × ((r.error_code ≡ none)
              × ((is_refusal r.status || (in_success_range r.status && is_challenge r)) ≡ true)))
  unfolding evaluate_probed_response
  evaluate_probed_response-blocked input =
      let r = input.response in
      let v = evaluate_response-blocked r input.check_path in
      elim (Bool-cases input.robots_allowed) [
        | inr banned ↦ rw banned (λ h. absurd cc, λ h. absurd cc)
        | inl free ↦ elim (Option-cases r.error_code) [
          | inl good ↦ rw (free, good) (λ h. (refl, (refl, v.0 h)), λ h. v.1 (h.1.1))
          | inr (code, bad) ↦
              rw (free, bad) (λ h. absurd ((evaluate_error-verdict code _).1 h), λ h. absurd cc)
        ]
      ]
