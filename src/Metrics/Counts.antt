-- ===== src/Metrics/Counts.antt =====
-- What the request metrics (metrics.go) rely on, and that their labels keep statuses apart.
use l7_proxy.Prelude.{
  ℕ, zero, suc, ◌+◌, ◌*◌, ◌-◌, ◌/◌, ◌%◌, ◌<◌, ◌≡◌, ◌≢◌, sym, ap, ◌∙◌, inl, inr, [], ◌∷◌, ltb, arith,
  Bool-cases,
}
use l7_proxy.Text.{Str}
use l7_proxy.Net.{digits_value}
use l7_proxy.Metrics.{itoa_from, itoa, Labels, Vectors, request_labels}

-- A decimal is read back as its number, whatever stands behind it.
digits_value-itoa_from :
    (fuel n : ℕ) (acc : Str) → n < fuel → digits_value 0 (itoa_from fuel n acc) ≡ digits_value n acc
unfolding itoa_from
digits_value-itoa_from zero n acc h = absurd (omega arith)
digits_value-itoa_from (suc fuel) n acc h = elim (Bool-cases (ltb n 10)) [
  | inl small ↦
      let e : 0 + (b'0' + n % 10 - b'0') ≡ n = ground arith in
      rw small (ap (λ k. digits_value k acc) e)
  | inr large ↦
      let e : n / 10 * 10 + (b'0' + n % 10 - b'0') ≡ n = omega arith in
      let ih = digits_value-itoa_from fuel (n / 10) ((b'0' + n % 10) ∷ acc) (ground arith) in
      rw large (ih ∙ ap (λ k. digits_value k acc) e)
]

pub digits_value-itoa : (n : ℕ) → digits_value 0 (itoa n) ≡ n
unfolding itoa
digits_value-itoa n = digits_value-itoa_from (suc n) n [] (omega arith)

-- What Prometheus documents of a vector of counters: Inc adds 1 to the counter of its labels and
-- leaves the others as they are.
pub record CountsUp {C H : Type 0} (vectors : Vectors C H) : Type 0 where
  pub value_same :
      (a : Labels) (vec : C) → vectors.value a (vectors.inc a vec) ≡ vectors.value a vec + 1
  pub value_other :
      (a b : Labels) (vec : C) → a ≢ b → vectors.value b (vectors.inc a vec) ≡ vectors.value b vec
  pub total_inc : (a : Labels) (vec : C) → vectors.total (vectors.inc a vec) ≡ vectors.total vec + 1

-- The status that request labels show.
abbrev status_of : Labels → ℕ
status_of (_ ∷ _ ∷ s ∷ _) = digits_value 0 s
status_of _ = 0

-- Requests with different statuses are counted under different labels.
pub request_labels-other :
    (method upstream other_method other_upstream : Str) (status other : ℕ)
    → status ≢ other
    → request_labels method upstream status ≢ request_labels other_method other_upstream other
request_labels-other method upstream other_method other_upstream status other h same =
    h (sym (digits_value-itoa status) ∙ ap status_of same ∙ digits_value-itoa other)
