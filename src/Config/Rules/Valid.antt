-- ===== src/Config/Rules/Valid.antt =====
-- What validateRule (config.go) accepts.
use l7_proxy.Prelude.{
  ℕ, ◌+◌, ◌≡◌, ◌↔◌, ◌⊎◌, inl, inr, refl, sym, Bool, true, false, not, List, [], ◌∷◌, ◌++◌, none,
  arith, All, Bool-cases, is_some, subst, all-Memᴰ,
}
use l7_proxy.Text.{Str, is_empty, eq_str, to_upper}
use l7_proxy.Text.Laws.{eq_str_iff}
use l7_proxy.Dict.{lookup, member, member_iff}
use l7_proxy.Net.{Platform}
use l7_proxy.Config.{Rule, ConfigError, report_if}
use l7_proxy.Config.Reports.{append_nil, report_nil}
use l7_proxy.Config.Rules.{
  matchers, http_methods, validate_path_like, validate_rewrite, validate_host_pattern,
  validate_hosts, validate_client_cidrs, check_matchers, check_regex, check_rewrite, check_method,
  validate_rule,
}
use l7_proxy.Config.Rules.Headers.{IsValidHeader, AreDistinct, validate_headers_nil}

validate_hosts_nil :
    (i j : ℕ) (hs : List Str)
    → (validate_hosts i j hs ≡ []) ↔ All (λ h. validate_host_pattern h ≡ none) hs
unfolding validate_hosts
validate_hosts_nil i j [] = (λ _. tt, λ _. refl)
validate_hosts_nil i j (h ∷ hs) = ground (arith, validate_hosts_nil i (j + 1) hs)

-- Each known method is in upper case.
to_upper-method : (m : Str) → member m http_methods ≡ true → m ≡ to_upper m
unfolding to_upper
to_upper-method m h = (eq_str_iff m _).0 (
    all-Memᴰ (λ k. eq_str k (to_upper k)) http_methods {a = m} refl
      ((member_iff m http_methods).0 h))

both_hold :
    (a b : Bool) (x y : ConfigError)
    → (report_if (not a) x ++ report_if (not b) y ≡ []) ↔ ((a ≡ true) × (b ≡ true))
both_hold a b x y = ground arith

check_method_nil :
    (i : ℕ) (r : Rule)
    → (check_method i r ≡ []) ↔ ((is_empty r.method ≡ true) ⊎ (member r.method http_methods ≡ true))
unfolding check_method
check_method_nil i r = elim (Bool-cases (is_empty r.method)) [
  | inl e ↦ (λ h. inl e, λ v. rw e refl)
  | inr e ↦ (
    λ h.
        let (a, known) = (both_hold _ _ _ _).0 (rw e at h) in
        let same = (eq_str_iff r.method (to_upper r.method)).0 a in
        inr (subst (λ m. member m http_methods ≡ true) (sym same) known),
    λ v. rw e ((both_hold _ _ _ _).1 (method_ok (not_left e v))),
  )
]
  where
    not_left : {P : Type 0} → is_empty r.method ≡ false → (is_empty r.method ≡ true) ⊎ P → P
    not_left e (inl t) = absurd (cc)
    not_left e (inr p) = p

    method_ok :
        member r.method http_methods ≡ true
        → (eq_str r.method (to_upper r.method) ≡ true)
          × (member (to_upper r.method) http_methods ≡ true)
    method_ok known =
        let same = to_upper-method r.method known in
        (
          (eq_str_iff r.method (to_upper r.method)).1 same,
          subst (λ m. member m http_methods ≡ true) same known,
        )

check_matchers_nil : (i : ℕ) (r : Rule) → (check_matchers i r ≡ []) ↔ (matchers r ≡ 1)
unfolding check_matchers
check_matchers_nil i r = ground arith

check_rewrite_nil :
    (i : ℕ) (r : Rule)
    → (check_rewrite i r ≡ []) ↔ (
        ((is_empty r.rewrite ≡ true) × (is_empty r.regex ≡ true))
        ⊎ ((is_empty r.rewrite ≡ false) × (validate_rewrite r.rewrite ≡ none)))
unfolding check_rewrite
check_rewrite_nil i r = ground arith

module _ (os : Platform) where
  check_regex_nil :
      (i : ℕ) (r : Rule)
      → (check_regex os i r ≡ [])
        ↔ ((is_empty r.regex ≡ true) ⊎ (is_some (os.compile_regex r.regex) ≡ true))
  unfolding check_regex
  check_regex_nil i r = ground arith

  validate_client_cidrs_nil :
      (i j : ℕ) (cs : List Str)
      → (validate_client_cidrs os i j cs ≡ []) ↔ All (λ c. is_some (os.parse_cidr c) ≡ true) cs
  unfolding validate_client_cidrs
  validate_client_cidrs_nil i j [] = (λ _. tt, λ _. refl)
  validate_client_cidrs_nil i j (c ∷ cs) = ground (arith, validate_client_cidrs_nil i (j + 1) cs)

  -- A valid rule.
  pub record IsValidRule (r : Rule) : Type 0 where
    pub one_matcher : matchers r ≡ 1
    pub path : validate_path_like r.path ≡ none
    pub path_prefix : validate_path_like r.path_prefix ≡ none
    pub regex : (is_empty r.regex ≡ true) ⊎ (is_some (os.compile_regex r.regex) ≡ true)
    pub rewrite :
        ((is_empty r.rewrite ≡ true) × (is_empty r.regex ≡ true))
        ⊎ ((is_empty r.rewrite ≡ false) × (validate_rewrite r.rewrite ≡ none))
    pub method : (is_empty r.method ≡ true) ⊎ (member r.method http_methods ≡ true)
    pub headers : All IsValidHeader r.headers
    pub distinct : AreDistinct (λ k. false) r.headers
    pub hosts : All (λ h. validate_host_pattern h ≡ none) r.hosts
    pub cidrs : All (λ c. is_some (os.parse_cidr c) ≡ true) r.client_cidrs

  -- validateRule reports nothing exactly for a rule that sets one of path, prefix and regex, whose
  -- path, prefix and rewrite are well formed, whose regex compiles and has a rewrite, whose method is
  -- known, and whose headers, hosts and ranges are each accepted, the header names all different.
  pub validate_rule_nil : (i : ℕ) (r : Rule) → (validate_rule os i r ≡ []) ↔ IsValidRule r
  unfolding validate_rule lookup
  validate_rule_nil i r = (
    λ h.
        let (a, h1) = (append_nil _ _).0 h in
        let (b, h2) = (append_nil _ _).0 h1 in
        let (c, h3) = (append_nil _ _).0 h2 in
        let (d, h4) = (append_nil _ _).0 h3 in
        let (e, h5) = (append_nil _ _).0 h4 in
        let (f, h6) = (append_nil _ _).0 h5 in
        let (g, h7) = (append_nil _ _).0 h6 in
        let (k, l) = (append_nil _ _).0 h7 in
        let hs = (validate_headers_nil i 0 [] r.headers).0 g in
        record {
          one_matcher = (check_matchers_nil i r).0 a;
          path = (report_nil _ _).0 b;
          path_prefix = (report_nil _ _).0 c;
          regex = (check_regex_nil i r).0 d;
          rewrite = (check_rewrite_nil i r).0 e;
          method = (check_method_nil i r).0 f;
          headers = hs.0;
          distinct = hs.1;
          hosts = (validate_hosts_nil i 0 r.hosts).0 k;
          cidrs = (validate_client_cidrs_nil i 0 r.client_cidrs).0 l;
        },
    λ v. (append_nil _ _).1 (
      (check_matchers_nil i r).1 v.one_matcher,
      (append_nil _ _).1 (
        (report_nil _ _).1 v.path,
        (append_nil _ _).1 (
          (report_nil _ _).1 v.path_prefix,
          (append_nil _ _).1 (
            (check_regex_nil i r).1 v.regex,
            (append_nil _ _).1 (
              (check_rewrite_nil i r).1 v.rewrite,
              (append_nil _ _).1 (
                (check_method_nil i r).1 v.method,
                (append_nil _ _).1 (
                  (validate_headers_nil i 0 [] r.headers).1 (v.headers, v.distinct),
                  (append_nil _ _).1 (
                    (validate_hosts_nil i 0 r.hosts).1 v.hosts,
                    (validate_client_cidrs_nil i 0 r.client_cidrs).1 v.cidrs,
                  ),
                ),
              ),
            ),
          ),
        ),
      ),
    ),
  )
