-- ===== src/Robots/Tests.antt =====
-- Runs of the robots.txt parser, and its theorems at concrete inputs.
use proxy_pulse_crunchyroll.Prelude.{
  ℕ, ◌<◌, ◌≤◌, ◌≡◌, refl, ◌↔◌, ◌⊎◌, true, false, [], ◌∷◌, Option, none, arith,
}
use proxy_pulse_crunchyroll.Text.{Text, codes, split, trim, trim_start, is_space, to_lower, lower}
use proxy_pulse_crunchyroll.Text.Splitting.{NoUnit}
use proxy_pulse_crunchyroll.Robots.{
  RobotsRules, answer, lines, strip_comment, cut, agent_line, add_rule, rule_line, parse_line,
  parse_lines, choose_group, parse_robots, evaluate_robots,
}
use proxy_pulse_crunchyroll.Robots.Patterns.{matches_from, path_matches_pattern}
use proxy_pulse_crunchyroll.Robots.Decision.{longest, evaluate_robots_iff}

abbrev no_number : Text → Option ℕ
no_number s = none

abbrev file : Text
file =
    codes
      "# us\nUser-agent: *\nDisallow: /private # all\nAllow: /private/open$\nUser-agent: ProxyPulse\nDisallow: /*.json"

abbrev everyone : RobotsRules ℕ
everyone = record {
  user_agent = codes "*";
  allow = codes "/private/open$" ∷ [];
  disallow = codes "/private" ∷ [];
  crawl_delay_seconds = none;
}

abbrev ours : RobotsRules ℕ
ours = record {
  user_agent = codes "proxypulse";
  allow = [];
  disallow = codes "/*.json" ∷ [];
  crawl_delay_seconds = none;
}

parsed_for_others : parse_robots no_number file (codes "curl") ≡ everyone
unfolding parse_robots lines split parse_lines parse_line strip_comment trim trim_start is_space cut
    to_lower lower agent_line add_rule rule_line choose_group
parsed_for_others = refl

parsed_for_us : parse_robots no_number file (codes "ProxyPulseBot/1.0") ≡ ours
unfolding parse_robots lines split parse_lines parse_line strip_comment trim trim_start is_space cut
    to_lower lower agent_line add_rule rule_line choose_group
parsed_for_us = refl

-- A `$` inside a pattern leaves nothing to match, and an answer of 503 lets every path be probed.
odd_patterns :
    (path_matches_pattern (codes "/a/b.json") (codes "/*.json$") ≡ true)
    × (path_matches_pattern (codes "/a$b") (codes "/a$b") ≡ false)
unfolding path_matches_pattern matches_from
odd_patterns = (refl, refl)

unavailable :
    (evaluate_robots no_number (codes "/private") (codes "curl") (answer 503 file)).allowed ≡ true
unfolding evaluate_robots
unavailable = refl

abbrev ok_status : ℕ
ok_status = 200

evaluate_robots_iff_example :
    let rules = parse_robots no_number file (codes "curl") in
    ((evaluate_robots no_number (codes "/x") (codes "curl") (answer ok_status file)).allowed ≡ true)
    ↔ ((ok_status ≡ 404)
        ⊎ ((ok_status ≡ 410)
            ⊎ ((500 ≤ ok_status)
                ⊎ ((200 ≤ ok_status)
                    × ((ok_status < 400)
                        × ((longest (codes "/x") rules.disallow ≡ 0)
                            ⊎ (longest (codes "/x") rules.disallow
                                < longest (codes "/x") rules.allow)))))))
evaluate_robots_iff_example =
    evaluate_robots_iff no_number (codes "/x") (codes "curl") ok_status file

slash_p-plain : NoUnit b'*' (codes "/p") × NoUnit b'$' (codes "/p")
slash_p-plain = ground arith
