-- ===== src/Routing/Conditions/Hosts.antt =====
-- What the host patterns of a rule match (routing.go, hostMatches and hostOnly).
use l7_proxy.Prelude.{
  ℕ, zero, suc, ◌-◌, ◌≤◌, ◌<◌, ◌≡◌, ◌≢◌, ◌↔◌, refl, sym, ap, ◌∙◌, inl, inr, true, false, ◌&&◌, List,
  [], ◌∷◌, ◌++◌, none, some, ltb, length, take, drop, all, any, arith, Bool-cases, and_true,
  length-append, lt→ltb,
}
use l7_proxy.Text.{Str, codes, has_suffix, contains_byte, to_lower, trim_prefix, trim_suffix}
use l7_proxy.Text.Laws.{eq_str_iff, has_suffix-append, has_suffix_cut}
use l7_proxy.Net.{is_digit, cut_last, no_brackets, split_host_port}
use l7_proxy.Routing.Conditions.{host_only, host_pattern_matches, host_matches}

length-take : (n : ℕ) (s : Str) → n ≤ length s → length (take n s) ≡ n
length-take zero s h = refl
length-take (suc n) [] h = absurd (omega arith)
length-take (suc n) (c ∷ s) h = ap suc (length-take n s (omega arith))

not_empty : {t : Str} {n m : ℕ} → t ≡ [] → length t ≡ n - m → m < n → ⊥
not_empty {t} e f g = let k : length t ≡ 0 = ap length e in omega arith

-- A pattern that begins with `*.` matches a host exactly if the host is something, a dot, and the rest
-- of the pattern in lower case: any number of labels at least one stands for the star.
pub host_pattern_matches-wildcard :
    (h rest : Str)
    → (host_pattern_matches h (b'*' ∷ b'.' ∷ rest) ≡ true)
      ↔ ((front : Str) × (front ≢ []) × (h ≡ front ++ b'.' ∷ to_lower rest))
unfolding host_pattern_matches to_lower
host_pattern_matches-wildcard h rest = (to, from)
  where
    tail : Str
    tail = b'.' ∷ to_lower rest

    to :
        (has_suffix h tail && ltb (length (b'*' ∷ tail) - 1) (length h)) ≡ true
        → (front : Str) × (front ≢ []) × (h ≡ front ++ tail)
    to e =
        let (a, b) = and_true _ _ e in
        let cut = has_suffix_cut h tail a in
        let long : length tail < length h = ground arith in
        let size = length-take (length h - length tail) h (omega arith) in
        (take (length h - length tail) h, (λ none_left. not_empty none_left size long), cut)

    from :
        ((front : Str) × (front ≢ []) × (h ≡ front ++ tail))
        → (has_suffix h tail && ltb (length (b'*' ∷ tail) - 1) (length h)) ≡ true
    from ([], some_front, same) = absurd (some_front refl)
    from (c ∷ front, some_front, same) =
        rw (same, has_suffix-append (c ∷ front) tail)
          (lt→ltb (length (b'*' ∷ tail) - 1) (length (c ∷ front ++ tail)) longer)
      where
        longer : length (b'*' ∷ tail) - 1 < length (c ∷ front ++ tail)
        longer = omega (arith, length-append front tail)

-- The last colon of a host with a port stands before the digits.
cut_last-none : (s : Str) → contains_byte s b':' ≡ false → cut_last b':' s ≡ none
cut_last-none [] h = refl
cut_last-none (c ∷ s) h = ground (arith, cut_last-none s)

digits-plain :
    (p : Str) → all is_digit p ≡ true → (contains_byte p b':' ≡ false) × (no_brackets p ≡ true)
digits-plain [] h = (refl, refl)
digits-plain (c ∷ p) h = ground (arith, digits-plain p)

cut_last-append :
    (s p : Str) → contains_byte p b':' ≡ false → cut_last b':' (s ++ b':' ∷ p) ≡ some (s, p)
cut_last-append [] p h = ground (arith, cut_last-none p h)
cut_last-append (c ∷ s) p h = ground (arith, cut_last-append s p h)

split_host_port-plain :
    (s p : Str)
    → contains_byte s b':' ≡ false
    → no_brackets s ≡ true
    → all is_digit p ≡ true
    → split_host_port (s ++ b':' ∷ p) ≡ some (s, p)
unfolding split_host_port
split_host_port-plain [] p colon plain digits =
    let (a, b) = digits-plain p digits in ground (arith, cut_last-append [] p a)
split_host_port-plain (c ∷ s) p colon plain digits =
    let (a, b) = digits-plain p digits in ground (arith, cut_last-append (c ∷ s) p a)

split_host_port-none :
    (s : Str) → contains_byte s b':' ≡ false → no_brackets s ≡ true → split_host_port s ≡ none
unfolding split_host_port
split_host_port-none [] colon plain = refl
split_host_port-none (c ∷ s) colon plain = ground (arith, cut_last-none (c ∷ s) colon)

drop-contains_byte :
    (n c : ℕ) (s : Str) → contains_byte s c ≡ false → contains_byte (drop n s) c ≡ false
drop-contains_byte zero c s h = h
drop-contains_byte (suc n) c [] h = refl
drop-contains_byte (suc n) c (x ∷ s) h = drop-contains_byte n c s (ground arith)

-- Without brackets there is none to trim.
trim_prefix-plain : (s : Str) → no_brackets s ≡ true → trim_prefix s (codes "[") ≡ s
trim_prefix-plain [] h = refl
trim_prefix-plain (c ∷ s) h = ground arith

trim_suffix-plain : (s : Str) → no_brackets s ≡ true → trim_suffix s (codes "]") ≡ s
trim_suffix-plain s h = elim (Bool-cases (has_suffix s (codes "]"))) [
  | inr e ↦ rw e refl
  | inl e ↦
      let (_, b) = and_true _ _ e in
      let last = (eq_str_iff (drop (length s - 1) s) (codes "]")).0 b in
      let clean : contains_byte s b']' ≡ false = ground arith in
      let none_there = drop-contains_byte (length s - 1) b']' s clean in
      let there = ap (λ t. contains_byte t b']') last in absurd (ground arith)
]

host_only-port :
    (s p : Str)
    → contains_byte s b':' ≡ false
    → no_brackets s ≡ true
    → all is_digit p ≡ true
    → host_only (s ++ b':' ∷ p) ≡ to_lower s
unfolding host_only
host_only-port s p colon plain digits =
    let e = split_host_port-plain s p colon plain digits in ground arith

host_only-plain :
    (s : Str) → contains_byte s b':' ≡ false → no_brackets s ≡ true → host_only s ≡ to_lower s
unfolding host_only
host_only-plain s colon plain =
    let e = split_host_port-none s colon plain in
    let f =
      ap (λ t. trim_suffix t (codes "]")) (trim_prefix-plain s plain) ∙ trim_suffix-plain s plain in
    ground (arith, e, ap to_lower f)

-- A port of the request's host makes no difference: a host without colons and brackets is matched as
-- the same host with a colon and digits behind it.
pub host_matches-port :
    (hosts : List Str) (s p : Str)
    → contains_byte s b':' ≡ false
    → no_brackets s ≡ true
    → all is_digit p ≡ true
    → host_matches hosts (s ++ b':' ∷ p) ≡ host_matches hosts s
unfolding host_matches
host_matches-port hosts s p colon plain digits =
    ap (λ h. any (host_pattern_matches h) hosts)
      (host_only-port s p colon plain digits ∙ sym (host_only-plain s colon plain))
