-- ===== src/Config/Cycles/Found.antt =====
-- What findCycle (config.go) returns.
use mathlib.Core.List.Memᴰ
use l7_proxy.Prelude.{
  ℕ, zero, suc, ◌≤◌, ◌≡◌, ◌↔◌, refl, sym, ap, inl, inr, List, [], ◌∷◌, ◌++◌, none, some, arith,
  Memᴰ, All, All-Memᴰ, subst, Bool-cases, Option-cases, length,
}
use l7_proxy.Text.{Str, eq_str}
use l7_proxy.Text.Laws.{eq_str_iff}
use l7_proxy.Dict.{Dict, lookup, insert}
use l7_proxy.Config.Cycles.{
  Graph, successors, keys, nodes, Colour, gray, colour, Search, closed, clear, exhausted,
  suffix_from, visit, finish, dfs, search_from, closed_path, find_cycle,
}
use l7_proxy.Config.Cycles.Searched.{Colour-cases, Search-cases, Safe, safe, Good, dfs-Done}
use l7_proxy.Config.Cycles.Fuel.{whites_bound, keys-nodes, dfs-Ends}

module _ (adj : Graph) where
  -- Each node of the list is a neighbour of the one before it.
  abbrev pub IsWalk : List Str → Type 0
  IsWalk [] = Unit
  IsWalk (x ∷ []) = Unit
  IsWalk (x ∷ y ∷ zs) = Memᴰ y (successors adj x) × IsWalk (y ∷ zs)

  -- A closed path: a walk that ends where it begins, with at least one step.
  pub record IsCycle (c : List Str) : Type 0 where
    pub start : Str
    pub rest : List Str
    pub closes : c ≡ start ∷ (rest ++ start ∷ [])
    pub walks : IsWalk c

  IsWalk-snoc :
      (xs : List Str) (n m : Str)
      → IsWalk (xs ++ n ∷ [])
      → Memᴰ m (successors adj n)
      → IsWalk ((xs ++ n ∷ []) ++ m ∷ [])
  IsWalk-snoc [] n m w mem = (mem, tt)
  IsWalk-snoc (x ∷ []) n m (e, w) mem = (e, (mem, tt))
  IsWalk-snoc (x ∷ y ∷ xs) n m (e, w) mem = (e, IsWalk-snoc (y ∷ xs) n m w mem)

  IsWalk-tail : (x : Str) (xs : List Str) → IsWalk (x ∷ xs) → IsWalk xs
  IsWalk-tail x [] w = tt
  IsWalk-tail x (y ∷ xs) w = w.1

  suffix_from-IsWalk :
      (m : Str) (xs ys c : List Str)
      → suffix_from m xs ≡ some c
      → IsWalk (xs ++ ys)
      → IsWalk (c ++ ys) × ((rest : List Str) × (c ≡ m ∷ rest))
  unfolding suffix_from
  suffix_from-IsWalk m [] ys c h w = absurd (ground arith)
  suffix_from-IsWalk m (s ∷ xs) ys c h w = elim (Bool-cases (eq_str s m)) [
    | inl e ↦
        let same : s ∷ xs ≡ c = ground arith in
        rw (← same) (w, (xs, ap (λ t. t ∷ xs) ((eq_str_iff s m).0 e)))
    | inr e ↦ suffix_from-IsWalk m xs ys c (ground arith) (IsWalk-tail s (xs ++ ys) w)
  ]

  -- What a search along a walk closes is a closed path.
  abbrev Closes : List Str → (Str → Dict Colour → Search) → Type 0
  Closes stack search =
      (m : Str) (state : Dict Colour) (c : List Str)
      → IsWalk (stack ++ m ∷ [])
      → search m state ≡ closed c
      → IsCycle c

  visit-IsCycle :
      (stack : List Str) (search : Str → Dict Colour → Search)
      → Closes stack search
      → (ms : List Str) (state : Dict Colour) (c : List Str)
      → ((m : Str) → Memᴰ m ms → IsWalk (stack ++ m ∷ []))
      → visit search stack ms state ≡ closed c
      → IsCycle c
  unfolding visit
  visit-IsCycle stack search closes [] state c walks h = absurd (ground arith)
  visit-IsCycle stack search closes (m ∷ ms) state c walks h =
      let walks' = λ (x : Str) (mem : Memᴰ x ms). walks x (Memᴰ.tail mem) in
      elim (Colour-cases (colour state m)) [
        | inr (inr e) ↦ visit-IsCycle stack search closes ms state c walks' (ground arith)
        | inr (inl e) ↦ elim (Option-cases (suffix_from m stack)) [
          | inl f ↦ visit-IsCycle stack search closes ms state c walks' (ground arith)
          | inr (cycle, f) ↦
              let (w, tail) =
                suffix_from-IsWalk m stack (m ∷ []) cycle f (walks m (Memᴰ.head refl)) in
              let same : cycle ++ m ∷ [] ≡ c = ground arith in
              rw (← same) (record {
                start = m;
                rest = tail.0;
                closes = ap (λ (xs : List Str). xs ++ m ∷ []) tail.1;
                walks = w;
              })
        ]
        | inl e ↦ elim (Search-cases (search m state)) [
          | inl (c', f) ↦
              let same : c' ≡ c = ground arith in
              closes m state c (walks m (Memᴰ.head refl)) (rw (← same) f)
          | inr (inr f) ↦ absurd (ground arith)
          | inr (inl (mid, f)) ↦ visit-IsCycle stack search closes ms mid c walks' (ground arith)
        ]
      ]

  finish-closed : (n : Str) (s : Search) (c : List Str) → finish n s ≡ closed c → s ≡ closed c
  finish-closed n (closed c') c h = h
  finish-closed n (clear state) c h = cc
  finish-closed n exhausted c h = cc

  dfs-IsCycle : (fuel : ℕ) (stack : List Str) → Closes stack (dfs adj fuel stack)
  unfolding dfs
  dfs-IsCycle zero stack n state c w h = absurd (ground arith)
  dfs-IsCycle (suc fuel) stack n state c w h =
      visit-IsCycle (stack ++ n ∷ []) (dfs adj fuel (stack ++ n ∷ []))
        (dfs-IsCycle fuel (stack ++ n ∷ [])) (successors adj n) (insert n gray state) c
        (λ m mem. IsWalk-snoc stack n m w mem) (finish-closed n _ c h)

  search_from-IsCycle :
      (fuel : ℕ) (ns : List Str) (state : Dict Colour) (c : List Str)
      → search_from adj fuel ns state ≡ closed c
      → IsCycle c
  unfolding search_from
  search_from-IsCycle fuel [] state c h = absurd (ground arith)
  search_from-IsCycle fuel (n ∷ ns) state c h = elim (Colour-cases (colour state n)) [
    | inr (inr e) ↦ search_from-IsCycle fuel ns state c (ground arith)
    | inr (inl e) ↦ search_from-IsCycle fuel ns state c (ground arith)
    | inl e ↦ elim (Search-cases (dfs adj fuel [] n state)) [
      | inl (c', f) ↦
          let same : c' ≡ c = ground arith in dfs-IsCycle fuel [] n state c tt (rw (← same) f)
      | inr (inr f) ↦ absurd (ground arith)
      | inr (inl (mid, f)) ↦ search_from-IsCycle fuel ns mid c (ground arith)
    ]
  ]

  -- A path that findCycle returns is closed, and each of its steps is an edge of the graph.
  pub find_cycle-IsCycle : (order c : List Str) → find_cycle order adj ≡ some c → IsCycle c
  unfolding find_cycle
  find_cycle-IsCycle order c h = search_from-IsCycle (length (nodes adj)) order [] c (of_path _ h)
    where
      of_path : (s : Search) → closed_path s ≡ some c → s ≡ closed c
      of_path (closed c') e = cc
      of_path (clear state) e = cc
      of_path exhausted e = cc

  -- A safe node is on no closed path.
  no_cycle : (n : Str) → Safe adj n → (rest : List Str) → IsWalk (n ∷ (rest ++ n ∷ [])) → ⊥
  no_cycle n (safe below) [] (edge, w) = no_cycle n (below n edge) [] (edge, w)
  no_cycle n (safe below) (m ∷ rest) (edge, w) =
      no_cycle m (below m edge) (rest ++ n ∷ []) (IsWalk-snoc (m ∷ rest) n m w edge)

  -- A search over keys that finds nothing leaves them all black, hence safe.
  search_from-Safe :
      (fuel : ℕ) (ns : List Str) (state : Dict Colour)
      → length (nodes adj) ≤ fuel
      → ((n : Str) → Memᴰ n ns → Memᴰ n (nodes adj))
      → Good adj [] state
      → closed_path (search_from adj fuel ns state) ≡ none
      → All (Safe adj) ns
  unfolding search_from
  search_from-Safe fuel [] state enough within good h = tt
  search_from-Safe fuel (n ∷ ns) state enough within good h =
      let within' = λ (x : Str) (mem : Memᴰ x ns). within x (Memᴰ.tail mem) in
      elim (Colour-cases (colour state n)) [
        | inr (inr e) ↦
            (good.blacks n e, search_from-Safe fuel ns state enough within' good (ground arith))
        | inr (inl e) ↦ absurd (Memᴰ.not-nil (good.grays n e))
        | inl e ↦ elim (Search-cases (dfs adj fuel [] n state)) [
          | inl (c', f) ↦ absurd (ground arith)
          | inr (inr f) ↦ absurd (
              dfs-Ends adj fuel [] n state good e (within n (Memᴰ.head refl))
                (whites_bound state (nodes adj) fuel enough) f)
          | inr (inl (mid, f)) ↦
              let (d, dark) = dfs-Done adj fuel [] n state mid good e f in
              (
                d.good.blacks n dark,
                search_from-Safe fuel ns mid enough within' d.good (ground arith),
              )
        ]
      ]

  fresh : Good adj [] []
  unfolding colour lookup
  fresh = record { blacks = λ x h. absurd (ground arith); grays = λ x h. absurd (ground arith) }

  successor-key : (g : Graph) (n m : Str) → Memᴰ m (successors g n) → Memᴰ n (keys g)
  unfolding successors lookup
  successor-key [] n m mem = absurd (Memᴰ.not-nil mem)
  successor-key ((k, ms) ∷ g) n m mem = elim (Bool-cases (eq_str k n)) [
    | inl e ↦ Memᴰ.head (sym ((eq_str_iff k n).0 e))
    | inr e ↦ Memᴰ.tail (successor-key g n m (rw e at mem))
  ]

  walk-key : (n : Str) (rest : List Str) → IsWalk (n ∷ (rest ++ n ∷ [])) → Memᴰ n (keys adj)
  walk-key n [] (edge, w) = successor-key adj n n edge
  walk-key n (m ∷ rest) (edge, w) = successor-key adj n m edge

  -- findCycle returns a closed path exactly if the graph has one: it returns none exactly if no
  -- closed path exists, for any order of the graph's keys.
  pub find_cycle-none_iff :
      (order : List Str)
      → ((n : Str) → Memᴰ n order ↔ Memᴰ n (keys adj))
      → (find_cycle order adj ≡ none) ↔ ((c : List Str) → ¬ IsCycle c)
  unfolding find_cycle
  find_cycle-none_iff order ranges = (
    λ h c cycle.
        let all =
          search_from-Safe (length (nodes adj)) order [] (omega arith)
            (λ n mem. keys-nodes adj n ((ranges n).0 mem)) fresh h in
        let walk = subst IsWalk cycle.closes cycle.walks in
        let listed = (ranges cycle.start).1 (walk-key cycle.start cycle.rest walk) in
        no_cycle cycle.start (All-Memᴰ _ order all listed) cycle.rest walk,
    λ none_is. elim (Option-cases (find_cycle order adj)) [
      | inl e ↦ e
      | inr (c, e) ↦ absurd (none_is c (find_cycle-IsCycle order c e))
    ],
  )
