-- ===== src/Tests/Metering.antt =====
-- Vectors of counters and histograms as association lists, which count as Prometheus documents.
use l7_proxy.Prelude.{
  ℕ, ◌+◌, ◌≡◌, ◌≢◌, ◌↔◌, refl, Bool, true, false, ◌&&◌, List, [], ◌∷◌, if◌then◌else◌, arith,
}
use l7_proxy.Prelude.Int.{ℤ}
use l7_proxy.Text.{eq_str}
use l7_proxy.Text.Laws.{eq_str_iff}
use l7_proxy.Metrics.{Labels, Vectors}
use l7_proxy.Metrics.Counts.{CountsUp}

abbrev eq_labels : Labels → Labels → Bool
eq_labels [] [] = true
eq_labels (a ∷ as') (b ∷ bs) = eq_str a b && eq_labels as' bs
eq_labels _ _ = false

eq_labels_iff : (a b : Labels) → (eq_labels a b ≡ true) ↔ (a ≡ b)
eq_labels_iff [] [] = (λ _. refl, λ _. refl)
eq_labels_iff [] (y ∷ b) = (λ h. cc, λ h. cc)
eq_labels_iff (x ∷ a) [] = (λ h. cc, λ h. cc)
eq_labels_iff (x ∷ a) (y ∷ b) = ground (arith, eq_str_iff x y, eq_labels_iff a b)

abbrev pub Counts : Type 0
Counts = List (Labels × ℕ)

abbrev pub Durations : Type 0
Durations = List (Labels × ℤ)

abbrev increment : Labels → Counts → Counts
increment labels [] = (labels, 1) ∷ []
increment labels ((k, n) ∷ vec) =
    if eq_labels k labels then (k, n + 1) ∷ vec else (k, n) ∷ increment labels vec

abbrev count_of : Labels → Counts → ℕ
count_of labels [] = 0
count_of labels ((k, n) ∷ vec) = if eq_labels k labels then n else count_of labels vec

abbrev sum : Counts → ℕ
sum [] = 0
sum ((k, n) ∷ vec) = n + sum vec

abbrev pub vectors : Vectors Counts Durations
vectors = record {
  inc = increment;
  observe_seconds = λ labels d vec. (labels, d) ∷ vec;
  value = count_of;
  total = sum;
}

count_of-increment : (a : Labels) (vec : Counts) → count_of a (increment a vec) ≡ count_of a vec + 1
count_of-increment a [] = ground (arith, eq_labels_iff a a)
count_of-increment a ((k, n) ∷ vec) = ground (arith, count_of-increment a vec)

count_of-other :
    (a b : Labels) (vec : Counts) → a ≢ b → count_of b (increment a vec) ≡ count_of b vec
count_of-other a b [] h = ground (arith, eq_labels_iff a b, h)
count_of-other a b ((k, n) ∷ vec) h =
    ground (arith, eq_labels_iff k a, eq_labels_iff k b, count_of-other a b vec h, h)

sum-increment : (a : Labels) (vec : Counts) → sum (increment a vec) ≡ sum vec + 1
sum-increment a [] = omega arith
sum-increment a ((k, n) ∷ vec) = ground (arith, sum-increment a vec)

pub vectors-CountsUp : CountsUp vectors
vectors-CountsUp = record {
  value_same = count_of-increment;
  value_other = count_of-other;
  total_inc = sum-increment;
}
