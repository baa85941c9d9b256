-- ===== src/Robots.antt =====
-- shared/src/robots.ts: robots.txt, parsed and applied to a path.
pub mod Decision
mod Tests
pub mod Patterns
use proxy_pulse_crunchyroll.Prelude.{
  ℕ, max, Bool, true, false, not, ◌&&◌, ◌||◌, List, [], ◌∷◌, ◌++◌, Option, none, some, ltb, leb,
  ◌==◌, if◌then◌else◌, ◌>>=◌, is_some, or_default, length, get_or, any,
}
use proxy_pulse_crunchyroll.Text.{
  Text, codes, text_eq, trim, to_lower, split, starts_with, ends_with, drop_last, includes,
}
use proxy_pulse_crunchyroll.Robots.Patterns.{is_empty, is_line_end, path_matches_pattern}

abbrev drop_return : Text → Text
drop_return s = if ends_with 13 s then drop_last s else s

-- Every line but the last loses one carriage return at its end.
abbrev drop_returns : List Text → List Text
drop_returns [] = []
drop_returns (l ∷ []) = l ∷ []
drop_returns (l ∷ m ∷ ls) = drop_return l ∷ drop_returns (m ∷ ls)

-- `text.split(/\r?\n/)`
unfoldable pub lines : Text → List Text
unfolding split
lines text = drop_returns (split 10 text)

-- `line.replace(/#.*$/, '')`
unfoldable pub strip_comment : Text → Text
strip_comment [] = []
strip_comment (c ∷ s) = if c == b'#' && not (any is_line_end s) then [] else c ∷ strip_comment s

-- `s.indexOf(d)` with the parts before and after it.
unfoldable pub cut : ℕ → Text → Option (Text × Text)
cut d [] = none
cut d (c ∷ s) = if c == d then some ([], s) else (cut d s >>= λ p. some (c ∷ p.0, p.1))

-- `s.startsWith(p)`, and `s.includes(p)`.
abbrev pub has_prefix : Text → Text → Bool
has_prefix [] s = true
has_prefix (c ∷ p) [] = false
has_prefix (c ∷ p) (d ∷ s) = c == d && has_prefix p s

abbrev pub includes_text : Text → Text → Bool
includes_text p [] = has_prefix p []
includes_text p (d ∷ s) = has_prefix p (d ∷ s) || includes_text p s

abbrev pub find {ℓ} : {A : Type ℓ} → (A → Bool) → List A → Option A
find p [] = none
find p (x ∷ xs) = if p x then some x else find p xs

-- Delays are numbers of JavaScript.
pub record RobotsGroup (D : Type 0) : Type 0 where
  pub agents : List Text
  pub allow : List Text
  pub disallow : List Text
  pub crawl_delay : Option D
  pub saw_rule : Bool

pub record RobotsRules (D : Type 0) : Type 0 where
  pub user_agent : Text
  pub allow : List Text
  pub disallow : List Text
  pub crawl_delay_seconds : Option D

pub data RobotsReason : Type 0 where
  no_robots disallow allow no_rules fetch_failed : RobotsReason

pub record RobotsDecision (D : Type 0) : Type 0 where
  pub allowed : Bool
  pub reason : RobotsReason
  pub crawl_delay_seconds : Option D

-- What fetching robots.txt gave.
pub data RobotsFetch : Type 0 where
  answer : (status : ℕ) (text : Text) → RobotsFetch
  fetch_error : RobotsFetch

-- The longest matching pattern; `none` stands for -1.
abbrev longer : Option ℕ → ℕ → ℕ
longer none n = n
longer (some m) n = max m n

unfoldable pub best_match : Text → Option ℕ → List Text → Option ℕ
unfolding path_matches_pattern
best_match path best [] = best
best_match path best (p ∷ ps) =
    best_match path (if path_matches_pattern path p then some (longer best (length p)) else best) ps

abbrev above : Option ℕ → Option ℕ → Bool
above none d = false
above (some a) none = true
above (some a) (some d) = ltb d a

module _ {D : Type 0} where
  abbrev pub empty_robots : RobotsRules D
  empty_robots = record {
    user_agent = codes "*";
    allow = [];
    disallow = [];
    crawl_delay_seconds = none;
  }

  unfoldable pub decide_path : Text → RobotsRules D → Bool × RobotsReason
  unfolding best_match
  decide_path path rules =
      let best_allow = best_match path none rules.allow in
      let best_disallow = best_match path none rules.disallow in
      if not (is_some best_allow) && not (is_some best_disallow)
      then (true, no_rules)
      else if above best_allow best_disallow
      then (true, RobotsReason.allow)
      else (false, RobotsReason.disallow)

-- `finite_number` is `Number(s)` where that is finite.
module _ {D : Type 0} (finite_number : Text → Option D) where
  -- The groups that are complete, and the one that lines still go to.
  pub record ParseState : Type 0 where
    pub complete : List (RobotsGroup D)
    pub current : Option (RobotsGroup D)

  abbrev all_groups : ParseState → List (RobotsGroup D)
  all_groups st = elim st.current [ none ↦ st.complete | some g ↦ st.complete ++ (g ∷ []) ]

  abbrev new_group : List Text → RobotsGroup D
  new_group agents = record {
    agents = agents;
    allow = [];
    disallow = [];
    crawl_delay = none;
    saw_rule = false;
  }

  abbrev add_agent : Text → RobotsGroup D → RobotsGroup D
  add_agent [] g = g
  add_agent (c ∷ v) g = record g { agents = g.agents ++ (to_lower (c ∷ v) ∷ []) }

  -- A user-agent line after rules starts a new group.
  unfoldable pub agent_line : Text → ParseState → ParseState
  unfolding to_lower
  agent_line value st = elim st.current [
    | none ↦ record st { current = some (add_agent value (new_group [])) }
    | some g ↦
        if g.saw_rule
        then record {
          complete = st.complete ++ (g ∷ []);
          current = some (add_agent value (new_group []));
        }
        else record st { current = some (add_agent value g) }
  ]

  unfoldable pub add_rule : Text → Text → RobotsGroup D → RobotsGroup D
  add_rule field value g =
      if text_eq field (codes "disallow")
      then record g { saw_rule = true; disallow = g.disallow ++ (value ∷ []) }
      else if text_eq field (codes "allow")
      then record g { saw_rule = true; allow = g.allow ++ (value ∷ []) }
      else if text_eq field (codes "crawl-delay") && is_some (finite_number value)
      then record g { saw_rule = true; crawl_delay = finite_number value }
      else record g { saw_rule = true }

  unfoldable pub rule_line : Text → Text → ParseState → ParseState
  unfolding add_rule
  rule_line field value st =
      if is_empty value && not (text_eq field (codes "disallow")) then st else record st {
        current = some (add_rule field value (or_default st.current (new_group (codes "*" ∷ []))));
      }

  unfoldable pub parse_line : ParseState → Text → ParseState
  unfolding strip_comment trim cut agent_line rule_line to_lower
  parse_line st raw_line =
      let line = trim (strip_comment raw_line) in
      elim (cut b':' line) [
        | none ↦ st
        | some (before, after) ↦
            let field = to_lower (trim before) in
            let value = trim after in
            if text_eq field (codes "user-agent")
            then agent_line value st
            else rule_line field value st
      ]

  unfoldable pub parse_lines : ParseState → List Text → ParseState
  unfolding parse_line
  parse_lines st [] = st
  parse_lines st (l ∷ ls) = parse_lines (parse_line st l) ls

  abbrev is_wildcard : RobotsGroup D → Bool
  is_wildcard g = any (text_eq (codes "*")) g.agents

  abbrev names_agent : Text → RobotsGroup D → Bool
  names_agent agent g = any (λ a. not (text_eq a (codes "*")) && includes_text a agent) g.agents

  abbrev rules_of : Text → RobotsGroup D → RobotsRules D
  rules_of agent g = record {
    user_agent = agent;
    allow = g.allow;
    disallow = g.disallow;
    crawl_delay_seconds = g.crawl_delay;
  }

  unfoldable pub choose_group : Text → List (RobotsGroup D) → RobotsRules D
  choose_group agent groups = elim (find (names_agent agent) groups) [
    | some g ↦ rules_of (get_or g.agents 0 []) g
    | none ↦ elim (find is_wildcard groups) [
      | some g ↦ rules_of (codes "*") g
      | none ↦ record empty_robots { user_agent = agent }
    ]
  ]

  unfoldable pub parse_robots : Text → Text → RobotsRules D
  unfolding lines parse_lines choose_group to_lower
  parse_robots text user_agent =
      choose_group (to_lower user_agent)
        (all_groups (parse_lines (record { complete = []; current = none }) (lines text)))

  unfoldable pub evaluate_robots : Text → Text → RobotsFetch → RobotsDecision D
  unfolding parse_robots decide_path
  evaluate_robots path user_agent fetch_error = record {
    allowed = false;
    reason = fetch_failed;
    crawl_delay_seconds = none;
  }
  evaluate_robots path user_agent (answer status text) =
      if status == 404 || status == 410 || leb 500 status
      then record { allowed = true; reason = no_robots; crawl_delay_seconds = none }
      else if ltb status 200 || leb 400 status
      then record { allowed = false; reason = fetch_failed; crawl_delay_seconds = none }
      else let rules = parse_robots text user_agent in
        let decision = decide_path path rules in
        record {
          allowed = decision.0;
          reason = decision.1;
          crawl_delay_seconds = rules.crawl_delay_seconds;
        }
