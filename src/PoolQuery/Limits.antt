-- ===== src/PoolQuery/Limits.antt =====
-- The bounds of every query that is parsed.
use proxy_pulse_crunchyroll.Prelude.{
  ℕ, ◌≤◌, ◌≡◌, Bool, true, false, ◌&&◌, [], ◌∷◌, Option, none, some, arith, ltb, ◌==◌, if-cases,
  is_some, or_default, length,
}
use proxy_pulse_crunchyroll.Text.{Text, codes, trim}
use proxy_pulse_crunchyroll.PoolQuery.{
  Whole, natural, negative, ServiceFilter, PoolQuery, ParsedPoolQuery, QueryError, invalid_protocol,
  invalid_country, invalid_service, between, filled, is_refused, is_protocol, is_country,
  service_of, failed_query, clamp_int, filters_of, checked_query, parse_pool_query,
}

between-bounds :
    (o : Option Whole) (fallback least most : ℕ)
    → least ≤ fallback
    → fallback ≤ most
    → (least ≤ between o fallback least most) × (between o fallback least most ≤ most)
between-bounds none fallback least most h k = (h, k)
between-bounds (some (natural n)) fallback least most h k = omega arith
between-bounds (some (negative n)) fallback least most h k = omega arith

abbrev pub IsAtMost : ℕ → Option ℕ → Type 0
IsAtMost most none = Unit
IsAtMost most (some n) = n ≤ most

pub record IsBounded (q : PoolQuery) : Type 0 where
  pub limit : (1 ≤ q.limit) × (q.limit ≤ 500)
  pub offset : q.offset ≤ 100000
  pub min_score : q.min_score ≤ 100
  pub max_latency_ms : IsAtMost 600000 q.max_latency_ms

module _ (number : Text → Option Whole) where
  clamp_int-bounds :
      (o : Option Text) (fallback least most : ℕ)
      → least ≤ fallback
      → fallback ≤ most
      → (least ≤ clamp_int number o fallback least most)
        × (clamp_int number o fallback least most ≤ most)
  unfolding clamp_int
  clamp_int-bounds none fallback least most h k = (h, k)
  clamp_int-bounds (some raw) fallback least most h k =
      if-cases (λ (n : ℕ). (least ≤ n) × (n ≤ most)) (length (trim raw) == 0) _ _ (λ blank. (h, k))
        (λ something. between-bounds (number raw) fallback least most h k)

  failed_query-IsBounded :
      (limit : ℕ) (is_clamped : Bool) (error : QueryError)
      → (1 ≤ limit) × (limit ≤ 500)
      → IsBounded (failed_query number limit is_clamped error).query
  failed_query-IsBounded limit is_clamped error h = record {
    limit = h;
    offset = omega arith;
    min_score = omega arith;
    max_latency_ms = tt;
  }

  filters_of-IsBounded :
      (get : Text → Option Text) (limit : ℕ) (is_clamped : Bool) (service : Option ServiceFilter)
      → (1 ≤ limit) × (limit ≤ 500)
      → IsBounded (filters_of number get limit is_clamped service).query
  filters_of-IsBounded get limit is_clamped none h =
      failed_query-IsBounded limit is_clamped invalid_service h
  filters_of-IsBounded get limit is_clamped (some service) h = record {
    limit = h;
    offset = (clamp_int-bounds (get (codes "offset")) 0 0 100000 (omega arith) (omega arith)).1;
    min_score = (clamp_int-bounds (get (codes "min_score")) 0 0 100 (omega arith) (omega arith)).1;
    max_latency_ms = latency (get (codes "max_latency_ms"));
  }
    where
      latency :
          (o : Option Text)
          → IsAtMost 600000 (elim (filled o) [
            | none ↦ none
            | some s ↦ some (clamp_int number (some s) 0 0 600000)
          ])
      latency none = tt
      latency (some []) = tt
      latency (some (c ∷ s)) =
          (clamp_int-bounds (some (c ∷ s)) 0 0 600000 (omega arith) (omega arith)).1

  checked_query-IsBounded :
      (get : Text → Option Text) (limit : ℕ) (is_clamped : Bool)
      → (1 ≤ limit) × (limit ≤ 500)
      → IsBounded (checked_query number get limit is_clamped).query
  checked_query-IsBounded get limit is_clamped h =
      if-cases (λ (r : ParsedPoolQuery). IsBounded r.query)
        (is_refused is_protocol (get (codes "protocol")))
        (failed_query number limit is_clamped invalid_protocol) _
        (λ protocol. failed_query-IsBounded limit is_clamped invalid_protocol h)
        (λ fine.
          if-cases (λ (r : ParsedPoolQuery). IsBounded r.query)
            (is_refused is_country (filled (get (codes "country"))))
            (failed_query number limit is_clamped invalid_country) _
            (λ country. failed_query-IsBounded limit is_clamped invalid_country h)
            (λ well.
              filters_of-IsBounded get limit is_clamped
                (service_of (or_default (get (codes "service")) (codes "required"))) h))

  -- Whatever its parameters, a query that is parsed asks for 1 to 500 entries, with an offset of at most 100000,
  -- a score of at most 100 and a latency of at most 600000, also where it is reported as an error.
  pub parse_pool_query-IsBounded :
      (get : Text → Option Text) → IsBounded (parse_pool_query number get).query
  unfolding parse_pool_query
  parse_pool_query-IsBounded get =
      let asked = get (codes "limit") in
      let limit = clamp_int number asked 50 1 5000 in
      let b = clamp_int-bounds asked 50 1 5000 (omega arith) (omega arith) in
      if-cases (λ (r : ParsedPoolQuery). IsBounded r.query) (is_some asked && ltb 500 limit) _ _
        (λ clamped. checked_query-IsBounded get 500 true (omega arith, omega arith))
        (λ kept. checked_query-IsBounded get limit false (b.0, unclamped asked kept))
    where
      unclamped :
          (o : Option Text)
          → (is_some o && ltb 500 (clamp_int number o 50 1 5000)) ≡ false
          → clamp_int number o 50 1 5000 ≤ 500
      unclamped none h = omega arith
      unclamped (some s) h = ground arith
