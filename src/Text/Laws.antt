-- ===== src/Text/Laws.antt =====
-- Laws of the functions on strings.
use l7_proxy.Prelude.{
  ◌-◌, ◌≡◌, refl, sym, ap, ap₂, ◌∙◌, ◌↔◌, ◌≢◌, ◌⊎◌, inl, inr, true, false, [], ◌∷◌, ◌++◌, arith,
  leb, length, drop, take, Bool-cases, length-append, drop-append, take-append-drop, and_true,
}
use l7_proxy.Text.{is_empty, Str, eq_str, has_prefix, has_suffix, to_lower, lower_byte}

pub eq_str_iff : (s t : Str) → (eq_str s t ≡ true) ↔ (s ≡ t)
eq_str_iff [] [] = (λ _. refl, λ _. refl)
eq_str_iff [] (y ∷ t) = (λ h. cc, λ h. cc)
eq_str_iff (x ∷ s) [] = (λ h. cc, λ h. cc)
eq_str_iff (x ∷ s) (y ∷ t) = ground (arith, eq_str_iff s t)

pub eq_str_refl : (s : Str) → eq_str s s ≡ true
eq_str_refl s = (eq_str_iff s s).1 refl

pub eq_str_comm : (s t : Str) → eq_str s t ≡ eq_str t s
eq_str_comm s t = ground (arith, eq_str_iff s t, eq_str_iff t s)

-- A string compared with a fixed one equals it or differs from it.
pub eq_str_cases : (s t : Str) → (s ≡ t) ⊎ ((s ≢ t) × (eq_str s t ≡ false))
eq_str_cases s t = elim (Bool-cases (eq_str s t)) [
  | inl e ↦ inl ((eq_str_iff s t).0 e)
  | inr e ↦ inr (λ h. cc ((eq_str_iff s t).1 h), e)
]

-- p is a prefix of s exactly when s is p and what follows it.
pub has_prefix_iff : (s p : Str) → (has_prefix s p ≡ true) ↔ (s ≡ p ++ drop (length p) s)
has_prefix_iff s [] = (λ _. refl, λ _. refl)
has_prefix_iff [] (y ∷ p) = (λ h. cc, λ h. cc)
has_prefix_iff (x ∷ s) (y ∷ p) = ground (arith, has_prefix_iff s p)

pub has_prefix-append : (p t : Str) → has_prefix (p ++ t) p ≡ true
has_prefix-append [] t = refl
has_prefix-append (x ∷ p) t = ground (arith, has_prefix-append p t)

pub has_suffix-append : (s t : Str) → has_suffix (s ++ t) t ≡ true
has_suffix-append s t =
    let e : length (s ++ t) - length t ≡ length s = omega (arith, length-append {0} s t) in
    let l : leb (length t) (length (s ++ t)) ≡ true = ground (arith, length-append {0} s t) in
    rw (l, e) (rw (drop-append s t) (eq_str_refl t))

-- t is a suffix of s exactly when s is some string and then t.
pub has_suffix_cut : (s t : Str) → has_suffix s t ≡ true → s ≡ take (length s - length t) s ++ t
has_suffix_cut s t h =
    let (_, same) = and_true _ _ h in
    let e = (eq_str_iff _ _).0 same in
    let n = length s - length t in sym (ap (λ u. take n s ++ u) (sym e) ∙ take-append-drop n s)

pub to_lower_idempotent : (s : Str) → to_lower (to_lower s) ≡ to_lower s
unfolding to_lower
to_lower_idempotent [] = refl
to_lower_idempotent (c ∷ s) =
    let e : lower_byte (lower_byte c) ≡ lower_byte c = ground arith in
    ap₂ (λ d t. d ∷ t) e (to_lower_idempotent s)

pub is_empty_iff : (s : Str) → (is_empty s ≡ true) ↔ (s ≡ [])
is_empty_iff [] = (λ _. refl, λ _. refl)
is_empty_iff (c ∷ s) = (λ h. cc, λ h. cc)
