-- ===== src/Config/Cycles/Searched.antt =====
-- The colours of findCycle (config.go): what a search that finds nothing leaves behind.
use mathlib.Core.List.Memᴰ
use l7_proxy.Prelude.{
  ℕ, zero, suc, ◌≡◌, ◌≢◌, refl, sym, ◌⊎◌, inl, inr, false, List, [], ◌∷◌, ◌++◌, none, if◌then◌else◌,
  arith, Memᴰ, All, All-Memᴰ, Bool-cases, Option-cases,
}
use l7_proxy.Text.{Str, eq_str}
use l7_proxy.Text.Laws.{eq_str_iff, eq_str_refl}
use l7_proxy.Dict.{Dict, insert, lookup-insert}
use l7_proxy.Config.Cycles.{
  Graph, successors, Colour, white, gray, black, colour, Search, closed, clear, exhausted,
  suffix_from, visit, dfs,
}

pub colour-insert :
    (n x : Str) (c : Colour) (state : Dict Colour)
    → colour (insert n c state) x ≡ (if eq_str n x then c else colour state x)
unfolding colour
colour-insert n x c state = ground (arith, lookup-insert n x c state)

pub Colour-cases : (c : Colour) → (c ≡ white) ⊎ ((c ≡ gray) ⊎ (c ≡ black))
Colour-cases white = inl refl
Colour-cases gray = inr (inl refl)
Colour-cases black = inr (inr refl)

pub Search-cases :
    (s : Search)
    → ((c : List Str) × (s ≡ closed c))
      ⊎ (((state : Dict Colour) × (s ≡ clear state)) ⊎ (s ≡ exhausted))
Search-cases (closed c) = inl (c, refl)
Search-cases (clear state) = inr (inl (state, refl))
Search-cases exhausted = inr (inr refl)

suffix_from-Memᴰ : (m : Str) (stack : List Str) → Memᴰ m stack → suffix_from m stack ≢ none
unfolding suffix_from
suffix_from-Memᴰ m [] mem = absurd (Memᴰ.not-nil mem)
suffix_from-Memᴰ m (s ∷ stack) mem = elim (Memᴰ.cases_cons mem) [
  | inl e ↦ let same = (eq_str_iff s m).1 (sym e) in rw same (λ h. cc)
  | inr k ↦ let rest = suffix_from-Memᴰ m stack k in ground arith
]

pub Memᴰ-snoc : (x n : Str) (xs : List Str) → Memᴰ x (xs ++ n ∷ []) → Memᴰ x xs ⊎ (x ≡ n)
Memᴰ-snoc x n [] mem = elim (Memᴰ.cases_cons mem) [
  | inl e ↦ inr e
  | inr k ↦ absurd (Memᴰ.not-nil k)
]
Memᴰ-snoc x n (y ∷ xs) mem = elim (Memᴰ.cases_cons mem) [
  | inl e ↦ inl (Memᴰ.head e)
  | inr k ↦ elim (Memᴰ-snoc x n xs k) [ inl l ↦ inl (Memᴰ.tail l) | inr e ↦ inr e ]
]

pub snoc-Memᴰ : (x n : Str) (xs : List Str) → Memᴰ x xs ⊎ (x ≡ n) → Memᴰ x (xs ++ n ∷ [])
snoc-Memᴰ x n [] (inl k) = absurd (Memᴰ.not-nil k)
snoc-Memᴰ x n [] (inr e) = Memᴰ.head e
snoc-Memᴰ x n (y ∷ xs) (inl k) = elim (Memᴰ.cases_cons k) [
  | inl e ↦ Memᴰ.head e
  | inr l ↦ Memᴰ.tail (snoc-Memᴰ x n xs (inl l))
]
snoc-Memᴰ x n (y ∷ xs) (inr e) = Memᴰ.tail (snoc-Memᴰ x n xs (inr e))

module _ (adj : Graph) where
  -- From a safe node no path goes on for ever.
  pub data Safe : Str → Type 0 where
    safe : {n : Str} → ((m : Str) → Memᴰ m (successors adj n) → Safe m) → Safe n

  -- Black nodes are safe, and gray ones stand on the stack.
  pub record Good (stack : List Str) (state : Dict Colour) : Type 0 where
    pub blacks : (x : Str) → colour state x ≡ black → Safe x
    pub grays : (x : Str) → colour state x ≡ gray → Memᴰ x stack

  -- A search keeps black what is black, and makes nothing white.
  pub record Done (stack : List Str) (before after : Dict Colour) : Type 0 where
    pub good : Good stack after
    pub keeps : (x : Str) → colour before x ≡ black → colour after x ≡ black
    pub fewer : (x : Str) → colour after x ≡ white → colour before x ≡ white

  pub Done-refl :
      {stack : List Str} {state : Dict Colour} → Good stack state → Done stack state state
  Done-refl good = record { good = good; keeps = λ x e. e; fewer = λ x e. e }

  pub Done-trans :
      {stack : List Str} {a b c : Dict Colour} → Done stack a b → Done stack b c → Done stack a c
  Done-trans d e = record {
    good = e.good;
    keeps = λ x h. e.keeps x (d.keeps x h);
    fewer = λ x h. d.fewer x (e.fewer x h);
  }

  -- What a search from a white node does when it finds nothing.
  abbrev pub Searches : List Str → (Str → Dict Colour → Search) → Type 0
  Searches stack search =
      (m : Str) (state after : Dict Colour)
      → Good stack state
      → colour state m ≡ white
      → search m state ≡ clear after
      → Done stack state after × (colour after m ≡ black)

  module _ (stack : List Str) (search : Str → Dict Colour → Search)
      (searches : Searches stack search) where
    pub visit-Done :
        (ms : List Str) (state after : Dict Colour)
        → Good stack state
        → visit search stack ms state ≡ clear after
        → Done stack state after × All (λ m. colour after m ≡ black) ms
    unfolding visit
    visit-Done [] state after good h = let e : state ≡ after = cc in rw (← e) (Done-refl good, tt)
    visit-Done (m ∷ ms) state after good h = elim (Colour-cases (colour state m)) [
      | inr (inr e) ↦
          let later : visit search stack ms state ≡ clear after = ground arith in
          let (d, all) = visit-Done ms state after good later in (d, (d.keeps m e, all))
      | inr (inl e) ↦ elim (Option-cases (suffix_from m stack)) [
        | inl f ↦ absurd (suffix_from-Memᴰ m stack (good.grays m e) f)
        | inr (cycle, f) ↦ absurd (ground arith)
      ]
      | inl e ↦ elim (Search-cases (search m state)) [
        | inl (c, f) ↦ absurd (ground arith)
        | inr (inr f) ↦ absurd (ground arith)
        | inr (inl (mid, f)) ↦
            let (d, dark) = searches m state mid good e f in
            let later : visit search stack ms mid ≡ clear after = ground arith in
            let (d', all) = visit-Done ms mid after d.good later in
            (Done-trans d d', (d'.keeps m dark, all))
      ]
    ]

  pub entered :
      (stack : List Str) (n : Str) (state : Dict Colour)
      → Good stack state
      → Good (stack ++ n ∷ []) (insert n gray state)
  entered stack n state good = record {
    blacks = λ x h. good.blacks x (ground (arith, colour-insert n x gray state));
    grays = λ x h. snoc-Memᴰ x n stack (on_stack x h);
  }
    where
      on_stack : (x : Str) → colour (insert n gray state) x ≡ gray → Memᴰ x stack ⊎ (x ≡ n)
      on_stack x h = elim (Bool-cases (eq_str n x)) [
        | inl e ↦ inr (sym ((eq_str_iff n x).0 e))
        | inr e ↦ inl (good.grays x (ground (arith, colour-insert n x gray state)))
      ]

  -- When all successors of a node are black, the node can be.
  left :
      (stack : List Str) (n : Str) (state after : Dict Colour)
      → colour state n ≡ white
      → Good stack state
      → Done (stack ++ n ∷ []) (insert n gray state) after
      → All (λ m. colour after m ≡ black) (successors adj n)
      → Done stack state (insert n black after)
  left stack n state after unseen good done dark = record {
    good = record { blacks = λ x h. is_safe x h; grays = λ x h. on_stack x h };
    keeps = λ x h. kept x h;
    fewer = λ x h. whites x h;
  }
    where
      is_safe : (x : Str) → colour (insert n black after) x ≡ black → Safe x
      is_safe x h = elim (Bool-cases (eq_str n x)) [
        | inl e ↦
            rw (← (eq_str_iff n x).0 e)
              (safe (λ m mem. done.good.blacks m (All-Memᴰ _ (successors adj n) dark mem)))
        | inr e ↦ done.good.blacks x (ground (arith, colour-insert n x black after))
      ]

      on_stack : (x : Str) → colour (insert n black after) x ≡ gray → Memᴰ x stack
      on_stack x h =
          let other : eq_str n x ≡ false = ground (arith, colour-insert n x black after) in
          elim (Memᴰ-snoc x n stack
            (done.good.grays x (ground (arith, colour-insert n x black after)))) [
              | inl k ↦ k
              | inr e ↦ let same = (eq_str_iff n x).1 (sym e) in absurd (ground arith)
            ]

      kept : (x : Str) → colour state x ≡ black → colour (insert n black after) x ≡ black
      kept x h = elim (Bool-cases (eq_str n x)) [
        | inl e ↦ ground (arith, colour-insert n x black after)
        | inr e ↦
            let before : colour (insert n gray state) x ≡ black =
              ground (arith, colour-insert n x gray state) in
            let k = done.keeps x before in ground (arith, colour-insert n x black after)
      ]

      whites : (x : Str) → colour (insert n black after) x ≡ white → colour state x ≡ white
      whites x h = elim (Bool-cases (eq_str n x)) [
        | inl e ↦ absurd (ground (arith, colour-insert n x black after))
        | inr e ↦
            let now : colour after x ≡ white = ground (arith, colour-insert n x black after) in
            let k = done.fewer x now in ground (arith, colour-insert n x gray state)
      ]

  pub dfs-Done :
      (fuel : ℕ) (stack : List Str) (n : Str) (state after : Dict Colour)
      → Good stack state
      → colour state n ≡ white
      → dfs adj fuel stack n state ≡ clear after
      → Done stack state after × (colour after n ≡ black)
  unfolding dfs
  dfs-Done zero stack n state after good unseen h = absurd (ground arith)
  dfs-Done (suc fuel) stack n state after good unseen h = elim (Search-cases inner) [
    | inl (c, f) ↦ absurd (ground arith)
    | inr (inr f) ↦ absurd (ground arith)
    | inr (inl (mid, f)) ↦
        let (d, dark) =
          visit-Done (stack ++ n ∷ []) (dfs adj fuel (stack ++ n ∷ []))
            (dfs-Done fuel (stack ++ n ∷ [])) (successors adj n) (insert n gray state) mid
            (entered stack n state good) f in
        let same : insert n black mid ≡ after = ground arith in
        rw (← same) (left stack n state mid unseen good d dark, done_black mid)
  ]
    where
      inner : Search
      inner =
          visit (dfs adj fuel (stack ++ n ∷ [])) (stack ++ n ∷ []) (successors adj n)
            (insert n gray state)

      done_black : (mid : Dict Colour) → colour (insert n black mid) n ≡ black
      done_black mid = let e = eq_str_refl n in ground (arith, colour-insert n n black mid)
