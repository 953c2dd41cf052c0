-- ===== src/Prelude/Lists.antt =====
-- Lists measured and indexed by native numbers, tests of their items, and predicates on them.
use Prim.Native.Nat.{ℕ, zero, suc, ◌+◌}
use mathlib.Core.Path.{◌≡◌, refl, ap}
use mathlib.Core.Logic.{◌⊎◌, inl, inr, ◌↔◌, ⊎_elim}
use mathlib.Core.Bool.{Bool, true, false, ◌&&◌, ◌||◌}
use mathlib.Core.List.{List, [], ◌∷◌, ◌++◌, Memᴰ}
use mathlib.Core.List.Memᴰ
use mathlib.Core.Option.{Option, none, some}
use native.Mathlib.Omega.{arith}
use l7_proxy.Prelude.Tests.{Bool-cases}

module _ {ℓ} {A : Type ℓ} where
  abbrev pub length : List A → ℕ
  length [] = 0
  length (x ∷ xs) = suc (length xs)

  abbrev pub get_elem? : List A → ℕ → Option A
  get_elem? [] i = none
  get_elem? (x ∷ xs) zero = some x
  get_elem? (x ∷ xs) (suc i) = get_elem? xs i

  abbrev pub get_or : List A → ℕ → A → A
  get_or [] i d = d
  get_or (x ∷ xs) zero d = x
  get_or (x ∷ xs) (suc i) d = get_or xs i d

  abbrev pub take : ℕ → List A → List A
  take zero xs = []
  take (suc n) [] = []
  take (suc n) (x ∷ xs) = x ∷ take n xs

  abbrev pub drop : ℕ → List A → List A
  drop zero xs = xs
  drop (suc n) [] = []
  drop (suc n) (x ∷ xs) = drop n xs

  -- Whether some item, or every item, passes the test.
  abbrev pub any : (A → Bool) → List A → Bool
  any p [] = false
  any p (x ∷ xs) = p x || any p xs

  abbrev pub all : (A → Bool) → List A → Bool
  all p [] = true
  all p (x ∷ xs) = p x && all p xs

  -- The items that pass the test, in order.
  abbrev pub filter : (A → Bool) → List A → List A
  filter p [] = []
  filter p (x ∷ xs) = elim (p x) [ true ↦ x ∷ filter p xs | false ↦ filter p xs ]

  -- The first item that passes the test.
  abbrev pub find : (A → Bool) → List A → Option A
  find p [] = none
  find p (x ∷ xs) = elim (p x) [ true ↦ some x | false ↦ find p xs ]

  pub length-append : (xs ys : List A) → length (xs ++ ys) ≡ length xs + length ys
  length-append [] ys = omega arith
  length-append (x ∷ xs) ys = omega (arith, length-append xs ys)

module _ {ℓ} {A : Type ℓ} where
  pub drop-append : (xs ys : List A) → drop (length xs) (xs ++ ys) ≡ ys
  drop-append [] ys = refl
  drop-append (x ∷ xs) ys = drop-append xs ys

  pub take-append : (xs ys : List A) → take (length xs) (xs ++ ys) ≡ xs
  take-append [] ys = refl
  take-append (x ∷ xs) ys = ap (λ zs. x ∷ zs) (take-append xs ys)

  pub take-append-drop : (n : ℕ) (xs : List A) → take n xs ++ drop n xs ≡ xs
  take-append-drop zero xs = refl
  take-append-drop (suc n) [] = refl
  take-append-drop (suc n) (x ∷ xs) = ap (λ zs. x ∷ zs) (take-append-drop n xs)

  pub Memᴰ-cons : (a x : A) (xs : List A) → Memᴰ a (x ∷ xs) ↔ ((a ≡ x) ⊎ Memᴰ a xs)
  Memᴰ-cons a x xs = (Memᴰ.cases_cons, ⊎_elim Memᴰ.head Memᴰ.tail)

  pub Memᴰ-append : (a : A) (xs ys : List A) → Memᴰ a (xs ++ ys) ↔ (Memᴰ a xs ⊎ Memᴰ a ys)
  Memᴰ-append a xs ys = (Memᴰ.append_cases xs, ⊎_elim (Memᴰ.append_left ys) (Memᴰ.append_right xs))

  -- `all` reads as: every item passes.
  pub all-Memᴰ : (p : A → Bool) (xs : List A) {a : A} → all p xs ≡ true → Memᴰ a xs → p a ≡ true
  all-Memᴰ p [] h m = absurd (Memᴰ.not-nil m)
  all-Memᴰ p (x ∷ xs) {a} h m =
      ground
        (arith, (Memᴰ-cons a x xs).0 m, λ (k : Memᴰ a xs). all-Memᴰ p xs {a = a} (ground arith) k)

  pub all_of_Memᴰ :
      (p : A → Bool) (xs : List A) → ((a : A) → Memᴰ a xs → p a ≡ true) → all p xs ≡ true
  all_of_Memᴰ p [] h = refl
  all_of_Memᴰ p (x ∷ xs) h =
      ground (arith, h x (Memᴰ.head refl), all_of_Memᴰ p xs (λ a m. h a (Memᴰ.tail m)))

  -- `any` reads as: some item passes.
  pub any-Memᴰ : (p : A → Bool) (xs : List A) → any p xs ≡ true → (a : A) × Memᴰ a xs × (p a ≡ true)
  any-Memᴰ p [] h = cc
  any-Memᴰ p (x ∷ xs) h = elim (Bool-cases (p x)) [
    | inl e ↦ (x, Memᴰ.head refl, e)
    | inr e ↦ let (a, m, q) = any-Memᴰ p xs (rw e at h) in (a, Memᴰ.tail m, q)
  ]

  pub any_of_Memᴰ : (p : A → Bool) (xs : List A) {a : A} → Memᴰ a xs → p a ≡ true → any p xs ≡ true
  any_of_Memᴰ p [] m h = absurd (Memᴰ.not-nil m)
  any_of_Memᴰ p (x ∷ xs) {a} m h = elim (Memᴰ.cases_cons m) [
    | inl e ↦ let e' : p x ≡ true = cc in ground arith
    | inr k ↦ ground (arith, any_of_Memᴰ p xs {a = a} k h)
  ]

module _ {ℓ} {A : Type ℓ} where
  -- What is found is an item that passes; nothing is found only if none does.
  pub find-some :
      (p : A → Bool) (xs : List A) (a : A) → find p xs ≡ some a → Memᴰ a xs × (p a ≡ true)
  find-some p [] a h = cc
  find-some p (x ∷ xs) a h = elim (Bool-cases (p x)) [
    | inl e ↦ let same : a ≡ x = ground arith in (Memᴰ.head same, rw same e)
    | inr e ↦ let (m, q) = find-some p xs a (ground arith) in (Memᴰ.tail m, q)
  ]

  pub find-none : (p : A → Bool) (xs : List A) {a : A} → find p xs ≡ none → Memᴰ a xs → p a ≡ false
  find-none p [] h m = absurd (Memᴰ.not-nil m)
  find-none p (x ∷ xs) {a} h m = elim (Memᴰ.cases_cons m) [
    | inl e ↦ rw e (ground arith)
    | inr k ↦ find-none p xs {a = a} (ground arith) k
  ]

  pub List-cases : (xs : List A) → (xs ≡ []) ⊎ ((x : A) × (rest : List A) × (xs ≡ x ∷ rest))
  List-cases [] = inl refl
  List-cases (x ∷ xs) = inr (x, xs, refl)

  pub find_of_none :
      (p : A → Bool) (xs : List A) → ((a : A) → Memᴰ a xs → p a ≡ false) → find p xs ≡ none
  find_of_none p [] h = refl
  find_of_none p (x ∷ xs) h =
      ground (arith, h x (Memᴰ.head refl), find_of_none p xs (λ a m. h a (Memᴰ.tail m)))

module _ {ℓ κ} {A : Type ℓ} (P : A → Type κ) where
  abbrev pub All : List A → Type κ
  All [] = Unit
  All (x ∷ xs) = P x × All xs

  pub All-Memᴰ : (xs : List A) {a : A} → All xs → Memᴰ a xs → P a
  All-Memᴰ (x ∷ xs) (p, h) (Memᴰ.head e) = rw e p
  All-Memᴰ (x ∷ xs) (p, h) (Memᴰ.tail m) = All-Memᴰ xs h m
  All-Memᴰ [] h m = absurd (Memᴰ.not-nil m)

-- The item is there, and the test fails for all that stand before it.
module _ {ℓ} {A : Type ℓ} where
  abbrev pub IsFirst : (A → Bool) → A → List A → Type ℓ
  IsFirst p a xs =
      (before : List A) × (after : List A) × (xs ≡ before ++ a ∷ after)
      × All (λ x. p x ≡ false) before

  pub IsFirst-cons :
      {p : A → Bool} {a : A} {xs : List A} (x : A)
      → p x ≡ false
      → IsFirst p a xs
      → IsFirst p a (x ∷ xs)
  IsFirst-cons x h (before, after, e, all) = (x ∷ before, after, ap (λ ys. x ∷ ys) e, (h, all))

  pub find-IsFirst : (p : A → Bool) (xs : List A) (a : A) → find p xs ≡ some a → IsFirst p a xs
  find-IsFirst p [] a h = cc
  find-IsFirst p (x ∷ xs) a h = elim (Bool-cases (p x)) [
    | inl e ↦ ([], xs, ground arith, tt)
    | inr e ↦ IsFirst-cons x e (find-IsFirst p xs a (ground arith))
  ]
