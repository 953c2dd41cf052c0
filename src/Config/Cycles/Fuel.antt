-- ===== src/Config/Cycles/Fuel.antt =====
-- The fuel of the search of findCycle (config.go).
use mathlib.Core.List.Memᴰ
use l7_proxy.Prelude.{
  ℕ, zero, suc, ◌+◌, ◌≤◌, ◌≡◌, ◌≢◌, refl, inl, inr, List, [], ◌∷◌, ◌++◌, arith, Memᴰ, Bool-cases,
  length,
}
use l7_proxy.Text.{Str, eq_str}
use l7_proxy.Text.Laws.{eq_str_iff}
use l7_proxy.Dict.{Dict, lookup, insert}
use l7_proxy.Config.Cycles.{
  Graph, successors, keys, nodes, Colour, white, gray, black, colour, Search, closed, clear,
  exhausted, visit, finish, dfs,
}
use l7_proxy.Config.Cycles.Searched.{
  colour-insert, Colour-cases, Search-cases, Good, Searches, entered, dfs-Done,
}

abbrev pub one_if_white : Colour → ℕ
one_if_white white = 1
one_if_white gray = 0
one_if_white black = 0

-- How many of some nodes are white.
abbrev pub whites : Dict Colour → List Str → ℕ
whites state [] = 0
whites state (x ∷ xs) = one_if_white (colour state x) + whites state xs

pub whites_bound :
    (state : Dict Colour) (xs : List Str) (fuel : ℕ) → length xs ≤ fuel → whites state xs ≤ fuel
whites_bound state [] fuel h = omega arith
whites_bound state (x ∷ xs) (suc fuel) h =
    let rest = whites_bound state xs fuel (omega arith) in
    elim (Colour-cases (colour state x)) [
      | inl e ↦ rw e (omega arith)
      | inr (inl e) ↦ rw e (omega arith)
      | inr (inr e) ↦ rw e (omega arith)
    ]
whites_bound state (x ∷ xs) zero h = absurd (omega arith)

pub keys-nodes : (g : Graph) (n : Str) → Memᴰ n (keys g) → Memᴰ n (nodes g)
keys-nodes [] n mem = mem
keys-nodes ((k, ms) ∷ g) n mem = elim (Memᴰ.cases_cons mem) [
  | inl e ↦ Memᴰ.head e
  | inr l ↦ Memᴰ.tail (behind ms g n (keys-nodes g n l))
]
  where
    behind : (xs : List Str) (h : Graph) (x : Str) → Memᴰ x (nodes h) → Memᴰ x (xs ++ nodes h)
    behind [] h x k = k
    behind (y ∷ xs) h x k = Memᴰ.tail (behind xs h x k)

whites_mono :
    (a b : Dict Colour) (xs : List Str)
    → ((x : Str) → colour b x ≡ white → colour a x ≡ white)
    → whites b xs ≤ whites a xs
whites_mono a b [] h = omega arith
whites_mono a b (x ∷ xs) h =
    let rest = whites_mono a b xs h in
    let here : one_if_white (colour b x) ≤ one_if_white (colour a x) =
      elim (Colour-cases (colour b x)) [
        | inl e ↦ let f = h x e in rw (e, f) (omega arith)
        | inr (inl e) ↦ rw e (omega arith)
        | inr (inr e) ↦ rw e (omega arith)
      ] in
    omega arith

grayed :
    (n x : Str) (state : Dict Colour)
    → colour (insert n gray state) x ≡ white
    → colour state x ≡ white
grayed n x state h = ground (arith, colour-insert n x gray state)

-- Colouring a white node leaves fewer.
whites-insert :
    (n : Str) (state : Dict Colour) (xs : List Str)
    → colour state n ≡ white
    → Memᴰ n xs
    → whites (insert n gray state) xs + 1 ≤ whites state xs
whites-insert n state [] e mem = absurd (Memᴰ.not-nil mem)
whites-insert n state (x ∷ xs) e mem = elim (Memᴰ.cases_cons mem) [
  | inl same ↦
      let rest = whites_mono state (insert n gray state) xs (λ y. grayed n y state) in
      let f : colour state x ≡ white = rw (← same) e in
      let eq = (eq_str_iff n x).1 same in
      let g : colour (insert n gray state) x ≡ gray =
        ground (arith, colour-insert n x gray state) in
      rw (f, g) (omega arith)
  | inr k ↦
      let rest = whites-insert n state xs e k in
      let here = whites_mono state (insert n gray state) (x ∷ []) (λ y. grayed n y state) in
      omega arith
]

module _ (adj : Graph) where
  pub successors-nodes : (g : Graph) (n m : Str) → Memᴰ m (successors g n) → Memᴰ m (nodes g)
  unfolding successors lookup
  successors-nodes [] n m mem = absurd (Memᴰ.not-nil mem)
  successors-nodes ((k, ms) ∷ g) n m mem = elim (Bool-cases (eq_str k n)) [
    | inl e ↦ Memᴰ.tail (in_front ms (rw e at mem))
    | inr e ↦ Memᴰ.tail (behind ms (successors-nodes g n m (rw e at mem)))
  ]
    where
      in_front : (xs : List Str) → Memᴰ m xs → Memᴰ m (xs ++ nodes g)
      in_front [] k = absurd (Memᴰ.not-nil k)
      in_front (x ∷ xs) k = elim (Memᴰ.cases_cons k) [
        | inl e ↦ Memᴰ.head e
        | inr l ↦ Memᴰ.tail (in_front xs l)
      ]

      behind : (xs : List Str) → Memᴰ m (nodes g) → Memᴰ m (xs ++ nodes g)
      behind [] k = k
      behind (x ∷ xs) k = Memᴰ.tail (behind xs k)

  -- A search from a white node that comes to an end, where so many nodes are white.
  abbrev Ends : ℕ → List Str → (Str → Dict Colour → Search) → Type 0
  Ends fuel stack search =
      (m : Str) (state : Dict Colour)
      → Good adj stack state
      → colour state m ≡ white
      → Memᴰ m (nodes adj)
      → whites state (nodes adj) ≤ fuel
      → search m state ≢ exhausted

  visit-Ends :
      (fuel : ℕ) (stack : List Str) (search : Str → Dict Colour → Search)
      → Searches adj stack search
      → Ends fuel stack search
      → (ms : List Str) (state : Dict Colour) → ((m : Str) → Memᴰ m ms → Memᴰ m (nodes adj))
      → Good adj stack state
      → whites state (nodes adj) ≤ fuel
      → visit search stack ms state ≢ exhausted
  unfolding visit
  visit-Ends fuel stack search searches ends [] state within good few = λ h. cc
  visit-Ends fuel stack search searches ends (m ∷ ms) state within good few =
      let within' = λ (x : Str) (mem : Memᴰ x ms). within x (Memᴰ.tail mem) in
      elim (Colour-cases (colour state m)) [
        | inr (inr e) ↦
            let k = visit-Ends fuel stack search searches ends ms state within' good few in
            ground arith
        | inr (inl e) ↦
            let k = visit-Ends fuel stack search searches ends ms state within' good few in
            ground arith
        | inl e ↦ elim (Search-cases (search m state)) [
          | inl (c, f) ↦ ground arith
          | inr (inr f) ↦ absurd (ends m state good e (within m (Memᴰ.head refl)) few f)
          | inr (inl (mid, f)) ↦
              let (d, _) = searches m state mid good e f in
              let less = whites_mono state mid (nodes adj) d.fewer in
              let k =
                visit-Ends fuel stack search searches ends ms mid within' d.good (omega arith) in
              ground arith
        ]
      ]

  finish-exhausted : (n : Str) (s : Search) → finish n s ≡ exhausted → s ≡ exhausted
  finish-exhausted n (closed c) h = cc
  finish-exhausted n (clear state) h = cc
  finish-exhausted n exhausted h = refl

  -- A search with so much fuel comes to an end.
  pub dfs-Ends : (fuel : ℕ) (stack : List Str) → Ends fuel stack (dfs adj fuel stack)
  unfolding dfs
  dfs-Ends zero stack n state good unseen mem few =
      let k = whites-insert n state (nodes adj) unseen mem in absurd (omega arith)
  dfs-Ends (suc fuel) stack n state good unseen mem few = λ h.
      let k = whites-insert n state (nodes adj) unseen mem in
      visit-Ends fuel (stack ++ n ∷ []) (dfs adj fuel (stack ++ n ∷ []))
        (dfs-Done adj fuel (stack ++ n ∷ [])) (dfs-Ends fuel (stack ++ n ∷ [])) (successors adj n)
        (insert n gray state) (λ m. successors-nodes adj n m) (entered adj stack n state good)
        (omega arith) (finish-exhausted n _ h)
