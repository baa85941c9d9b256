-- ===== src/Proxy/Lists/Batch.antt =====
-- The account of a batch: no proxy twice, and each line counted at most once.
use proxy_pulse_crunchyroll.Prelude.{
  ℕ, suc, ◌+◌, ◌<◌, ◌≤◌, max, ◌≡◌, refl, sym, ap, ◌∙◌, subst, false, not, List, [], ◌∷◌, ◌++◌, map,
  append-nil, append_assoc, Option, none, some, arith, ltb, ◌==◌, if-cases, length, take, any,
  length-append,
}
use proxy_pulse_crunchyroll.Text.{Text, text_eq, trim, includes}
use proxy_pulse_crunchyroll.Types.{ProxyProtocol}
use proxy_pulse_crunchyroll.Robots.{lines}
use proxy_pulse_crunchyroll.Proxy.{
  ParseFailureReason, too_long, not_an_entry, Checked, fine, refused, looks_like_markup,
}
use proxy_pulse_crunchyroll.Proxy.Entry.{ProtocolSource, ParseOptions, NormalizedProxy}
use proxy_pulse_crunchyroll.Proxy.Lists.{
  dedupe_key, Listing, reject, skip_line, add_proxy, parsed_entry, plain_line, list_line, is_full,
  list_lines, start_listing, parse_proxy_list, is_comment, is_bare_host, detect_protocol_from_label,
}

-- No key is among those before it.
abbrev pub AreDistinct : List Text → List Text → Type 0
AreDistinct before [] = Unit
AreDistinct before (key ∷ keys) =
    (any (text_eq key) before ≡ false) × AreDistinct (before ++ (key ∷ [])) keys

snoc-AreDistinct :
    (before keys : List Text) (key : Text)
    → AreDistinct before keys
    → any (text_eq key) (before ++ keys) ≡ false
    → AreDistinct before (keys ++ (key ∷ []))
snoc-AreDistinct before [] key d h =
    (subst (λ ks. any (text_eq key) ks ≡ false) (append-nil before) h, tt)
snoc-AreDistinct before (k ∷ keys) key (n, d) h = (
  n,
  snoc-AreDistinct (before ++ (k ∷ [])) keys key d
      (subst (λ ks. any (text_eq key) ks ≡ false) (sym (append_assoc before (k ∷ []) keys)) h),
)

-- The lines that a listing has come to, at most.
abbrev pub counted : Listing → ℕ
counted l = length l.proxies + length l.rejected + l.duplicates + l.skipped_lines

pub record Accounted (total : ℕ) (l : Listing) : Type 0 where
  pub keys : map dedupe_key l.proxies ≡ l.seen
  pub distinct : AreDistinct [] (map dedupe_key l.proxies)
  pub lines : counted l ≤ total

map-snoc {ℓ κ} :
    {A : Type ℓ} {B : Type κ} (f : A → B) (xs : List A) (x : A)
    → map f (xs ++ (x ∷ [])) ≡ map f xs ++ (f x ∷ [])
map-snoc f [] x = refl
map-snoc f (y ∷ xs) x = ap (λ zs. f y ∷ zs) (map-snoc f xs x)

module _ (total : ℕ) where
  skip_line-Accounted : (l : Listing) → Accounted total l → Accounted (total + 1) (skip_line l)
  skip_line-Accounted l a = record {
    keys = a.keys;
    distinct = a.distinct;
    lines = omega (arith, a.lines);
  }

  reject-Accounted :
      (line : Text) (reason : ParseFailureReason) (l : Listing)
      → Accounted total l
      → Accounted (total + 1) (reject line reason l)
  reject-Accounted line reason l a = record {
    keys = a.keys;
    distinct = a.distinct;
    lines = omega (arith, a.lines, length-append l.rejected ((take 48 line, reason) ∷ []));
  }

  add_proxy-Accounted :
      (p : NormalizedProxy) (l : Listing)
      → Accounted total l
      → Accounted (total + 1) (add_proxy p l)
  unfolding add_proxy
  add_proxy-Accounted p l a =
      if-cases (Accounted (total + 1)) (any (text_eq (dedupe_key p)) l.seen) _ _
        (λ known. record { keys = a.keys; distinct = a.distinct; lines = omega (arith, a.lines) })
        (λ fresh. record {
          keys = map-snoc dedupe_key l.proxies p ∙ ap (λ ks. ks ++ (dedupe_key p ∷ [])) a.keys;
          distinct = subst (AreDistinct []) (sym (map-snoc dedupe_key l.proxies p)) (
              snoc-AreDistinct [] (map dedupe_key l.proxies) (dedupe_key p) a.distinct
                (ap (any (text_eq (dedupe_key p))) a.keys ∙ fresh));
          lines = omega (arith, a.lines, length-append l.proxies (p ∷ []));
        })

-- One line: it is counted at most once, and adds at most one proxy.
abbrev Stepped : ℕ → Listing → Listing → Type 0
Stepped total l next = Accounted (total + 1) next × (length next.proxies ≤ length l.proxies + 1)

module _ (total : ℕ) where
  add_proxy-Stepped :
      (p : NormalizedProxy) (l : Listing) → Accounted total l → Stepped total l (add_proxy p l)
  unfolding add_proxy
  add_proxy-Stepped p l a = (
    add_proxy-Accounted total p l a,
    if-cases (λ (next : Listing). length next.proxies ≤ length l.proxies + 1)
        (any (text_eq (dedupe_key p)) l.seen) _ _ (λ known. omega arith)
        (λ fresh. omega (arith, length-append l.proxies (p ∷ []))),
  )

  skip_line-Stepped : (l : Listing) → Accounted total l → Stepped total l (skip_line l)
  skip_line-Stepped l a = (skip_line-Accounted total l a, omega arith)

  reject-Stepped :
      (line : Text) (reason : ParseFailureReason) (l : Listing)
      → Accounted total l
      → Stepped total l (reject line reason l)
  reject-Stepped line reason l a = (reject-Accounted total line reason l a, omega arith)

  module _ (decode : Text → Option Text) (options : ParseOptions) where
    parsed_entry-Stepped :
        (line : Text) (l : Listing) (r : Checked (NormalizedProxy × ProtocolSource))
        → Accounted total l
        → Stepped total l (parsed_entry decode options line l r)
    parsed_entry-Stepped line l (fine (p, s)) a = add_proxy-Stepped p l a
    parsed_entry-Stepped line l (refused reason) a = reject-Stepped line reason l a

    plain_line-Stepped :
        (line : Text) (l : Listing) (o : Option ProxyProtocol)
        → Accounted total l
        → Stepped total l (plain_line decode options line l o)
    plain_line-Stepped line l (some p) a =
        skip_line-Stepped (record l { hint = some p })
          (record { keys = a.keys; distinct = a.distinct; lines = a.lines })
    plain_line-Stepped line l none a =
        if-cases (Stepped total l) (not (is_bare_host line)) _ _ (λ prose. skip_line-Stepped l a)
          (λ host. parsed_entry-Stepped line l _ a)

    list_line-Stepped :
        (raw_line : Text) (l : Listing)
        → Accounted total l
        → Stepped total l (list_line decode options raw_line l)
    unfolding list_line
    list_line-Stepped raw_line l a =
        let line = trim raw_line in
        if-cases (Stepped total l) (length line == 0) _ _
          (λ blank. (
            record { keys = a.keys; distinct = a.distinct; lines = let c = a.lines in omega arith },
            omega arith,
          ))
          (λ something.
            if-cases (Stepped total l) (is_comment line) _ _ (λ note. skip_line-Stepped l a)
              (λ entry.
                if-cases (Stepped total l) (ltb 256 (length line)) _ _
                  (λ long. reject-Stepped line too_long l a)
                  (λ short.
                    if-cases (Stepped total l) (looks_like_markup line) _ _
                      (λ markup. reject-Stepped line not_an_entry l a)
                      (λ plain.
                        if-cases (Stepped total l) (not (includes b':' line)) _ _
                          (λ label. plain_line-Stepped line l (detect_protocol_from_label line) a)
                          (λ pair. parsed_entry-Stepped line l _ a)))))

-- At most as many proxies as asked for, but one where none is asked for.
abbrev pub IsWithin : Option ℕ → ℕ → Type 0
IsWithin none n = Unit
IsWithin (some max_entries) n = n ≤ max 1 max_entries

abbrev IsBelow : Option ℕ → ℕ → Type 0
IsBelow none n = Unit
IsBelow (some max_entries) n = n < max 1 max_entries

IsWithin-full :
    (max_entries : Option ℕ) (n m : ℕ) → m ≤ n + 1 → IsBelow max_entries n → IsWithin max_entries m
IsWithin-full none n m h b = tt
IsWithin-full (some max_entries) n m h b = omega arith

IsBelow-more :
    (max_entries : Option ℕ) (l next : Listing)
    → is_full max_entries l next ≡ false
    → length next.proxies ≤ length l.proxies + 1
    → IsBelow max_entries (length l.proxies)
    → IsBelow max_entries (length next.proxies)
IsBelow-more none l next f h b = tt
IsBelow-more (some max_entries) l next f h b = ground (arith, f, h, b)

IsBelow-IsWithin : (max_entries : Option ℕ) (n : ℕ) → IsBelow max_entries n → IsWithin max_entries n
IsBelow-IsWithin none n b = tt
IsBelow-IsWithin (some max_entries) n b = omega arith

module _ (decode : Text → Option Text) (options : ParseOptions) (max_entries : Option ℕ) where
  abbrev Listed : ℕ → Listing → Type 0
  Listed total l = Accounted total l × IsWithin max_entries (length l.proxies)

  more_lines : (total more : ℕ) (l : Listing) → total ≤ more → Listed total l → Listed more l
  more_lines total more l h (a, w) =
      (record { keys = a.keys; distinct = a.distinct; lines = let c = a.lines in omega arith }, w)

  list_lines-Listed :
      (total : ℕ) (rest : List Text) (l : Listing)
      → Accounted total l
      → IsBelow max_entries (length l.proxies)
      → Listed (total + length rest) (list_lines decode options max_entries rest l)
  unfolding list_lines
  list_lines-Listed total [] l a b =
      more_lines total (total + 0) l (omega arith)
        (a, IsBelow-IsWithin max_entries (length l.proxies) b)
  list_lines-Listed total (line ∷ rest) l a b =
      let next = list_line decode options line l in
      let (c, g) = list_line-Stepped total decode options line l a in
      if-cases (Listed (total + suc (length rest))) (is_full max_entries l next) _ _
        (λ full.
          more_lines (total + 1) (total + suc (length rest)) next (omega arith)
            (c, IsWithin-full max_entries (length l.proxies) (length next.proxies) g b))
        (λ open_still.
          more_lines (total + 1 + length rest) (total + suc (length rest)) _ (omega arith) (
            list_lines-Listed (total + 1) rest next c
              (IsBelow-more max_entries l next open_still g b)))

  empty-IsBelow : (o : Option ℕ) → IsBelow o 0
  empty-IsBelow none = tt
  empty-IsBelow (some n) = omega arith

  -- A batch has no two proxies with the same key; the proxies, the rejected lines, the duplicates and the
  -- skipped lines are together no more than the lines; and the proxies are no more than asked for, where at
  -- least one is.
  pub parse_proxy_list-Listed :
      (text : Text)
      → let (l, total) = parse_proxy_list decode options max_entries text in
        AreDistinct [] (map dedupe_key l.proxies)
        × (counted l ≤ total)
        × IsWithin max_entries (length l.proxies)
  unfolding parse_proxy_list
  parse_proxy_list-Listed text =
      let (a, w) =
        list_lines-Listed 0 (lines text) (start_listing decode options)
          (record { keys = refl; distinct = tt; lines = omega arith })
          (empty-IsBelow max_entries) in
      (a.distinct, (let c = a.lines in omega arith), w)
