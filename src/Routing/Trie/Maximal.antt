-- ===== src/Routing/Trie/Maximal.antt =====
-- What the scan of the prefixes finds (trie.go, through Longest).
use l7_proxy.Prelude.{
  ℕ, ◌+◌, ◌≤◌, ◌≡◌, Bool, true, false, ◌&&◌, List, [], ◌∷◌, none, some, leb, length, arith,
  Option-cases, Bool-cases, inl, inr, Memᴰ, All,
}
use l7_proxy.Text.{Str, has_prefix}
use l7_proxy.Routing.Trie.Longest.{longest}

module _ {A : Type 0} (test : A → Bool) where
  abbrev pub entry_fits : Str → Str × A → Bool
  entry_fits path (p, a) = has_prefix path p && test a

  pub longest-none :
      (rs : List (Str × A)) (path : Str) (depth : ℕ)
      → longest test rs path depth ≡ none
      → All (λ e. entry_fits path e ≡ false) rs
  longest-none [] path depth h = tt
  longest-none ((p, a) ∷ rs) path depth h = elim (Option-cases (longest test rs path depth)) [
    | inl e ↦ (ground arith, longest-none rs path depth e)
    | inr (w, e) ↦ absurd (ground arith)
  ]

  pub longest-max :
      (rs : List (Str × A)) (path : Str) (depth n : ℕ) (a : A)
      → longest test rs path depth ≡ some (a, n)
      → All (λ e. entry_fits path e ≡ true → depth + length e.0 ≤ n) rs
  longest-max [] path depth n a h = tt
  longest-max ((p, x) ∷ rs) path depth n a h = elim (Option-cases (longest test rs path depth)) [
    | inl e ↦ (λ f. ground arith, max_of_none rs path depth n (longest-none rs path depth e))
    | inr ((y, m), e) ↦
        let le : m ≤ n = ground arith in
        (λ f. ground arith, max_mono rs path depth m n le (longest-max rs path depth m y e))
  ]
    where
      max_of_none :
          (rs : List (Str × A)) (path : Str) (depth n : ℕ)
          → All (λ e. entry_fits path e ≡ false) rs
          → All (λ e. entry_fits path e ≡ true → depth + length e.0 ≤ n) rs
      max_of_none [] path depth n h = tt
      max_of_none (e ∷ rs) path depth n (h, hs) = (λ f. absurd (cc), max_of_none rs path depth n hs)

      max_mono :
          (rs : List (Str × A)) (path : Str) (depth m n : ℕ)
          → m ≤ n
          → All (λ e. entry_fits path e ≡ true → depth + length e.0 ≤ m) rs
          → All (λ e. entry_fits path e ≡ true → depth + length e.0 ≤ n) rs
      max_mono [] path depth m n le h = tt
      max_mono (e ∷ rs) path depth m n le (h, hs) =
          (λ f. let k = h f in omega arith, max_mono rs path depth m n le hs)

  pub longest-Memᴰ :
      (rs : List (Str × A)) (path : Str) (depth n : ℕ) (a : A)
      → longest test rs path depth ≡ some (a, n)
      → (p : Str) × Memᴰ (p, a) rs × (entry_fits path (p, a) ≡ true) × (n ≡ depth + length p)
  longest-Memᴰ [] path depth n a h = cc
  longest-Memᴰ ((p, x) ∷ rs) path depth n a h = elim (Bool-cases (has_prefix path p && test x)) [
    | inl f ↦ elim (Option-cases (longest test rs path depth)) [
      | inl e ↦
          let same : x ≡ a = ground arith in
          (p, Memᴰ.head (ground arith), rw (← same) f, ground arith)
      | inr ((y, m), e) ↦ elim (Bool-cases (leb m (depth + length p))) [
        | inl le ↦
            let same : x ≡ a = ground arith in
            (p, Memᴰ.head (ground arith), rw (← same) f, ground arith)
        | inr gt ↦
            let (q, mem, g, k) = longest-Memᴰ rs path depth n a (ground arith) in
            (q, Memᴰ.tail mem, g, k)
      ]
    ]
    | inr f ↦
        let (q, mem, g, k) = longest-Memᴰ rs path depth n a (ground arith) in
        (q, Memᴰ.tail mem, g, k)
  ]
