-- ===== src/Routing/Trie/Longest.antt =====
-- The prefix tree of trie.go against a scan of the registered prefixes.
use l7_proxy.Prelude.{
  ℕ, suc, ◌+◌, ◌≤◌, ◌≡◌, refl, sym, ap, ◌∙◌, Bool, ◌&&◌, List, [], ◌∷◌, ◌++◌, Option, none, some,
  ◌==◌, if◌then◌else◌, leb, length, arith, or_else, Bool-cases, Option-cases, inl, inr,
  append_assoc, append-nil,
}
use l7_proxy.Text.{Str, eq_str, has_prefix}
use l7_proxy.Text.Laws.{eq_str_refl}
use l7_proxy.Routing.Trie.{
  Node, node, Children, nil, child, new_trie, get_child, set_child, child_or_new, insert, offer,
  match,
}

module _ {A : Type 0} where
  -- The entries for exactly the prefix p.
  abbrev pub registered : Str → List (Str × A) → List A
  registered q [] = []
  registered q ((p, a) ∷ rs) = if eq_str p q then a ∷ registered q rs else registered q rs

  -- The tree after all the entries are inserted in order.
  unfoldable pub insert_all : List (Str × A) → Node A → Node A
  insert_all [] t = t
  insert_all ((p, a) ∷ rs) t = insert_all rs (insert p a t)

  routes_at : Str → Node A → List A
  routes_at [] (node cs rs) = rs
  routes_at (b ∷ q) (node cs rs) = elim (get_child b cs) [ none ↦ [] | some n ↦ routes_at q n ]

  get_child-set_child :
      (b c : ℕ) (n : Node A) (cs : Children A)
      → get_child c (set_child b n cs) ≡ (if b == c then some n else get_child c cs)
  unfolding get_child set_child
  get_child-set_child b c n nil = refl
  get_child-set_child b c n (child d m cs) = ground (arith, get_child-set_child b c n cs)

  routes_at-empty : (q : Str) → routes_at q (node nil []) ≡ []
  unfolding routes_at get_child
  routes_at-empty [] = refl
  routes_at-empty (b ∷ q) = refl

  routes_at-child_or_new :
      (q : Str) (o : Option (Node A))
      → routes_at q (child_or_new o) ≡ elim o [ none ↦ [] | some n ↦ routes_at q n ]
  routes_at-child_or_new q none = routes_at-empty q
  routes_at-child_or_new q (some n) = refl

  routes_at-insert :
      (p q : Str) (a : A) (n : Node A)
      → routes_at q (insert p a n) ≡ (if eq_str p q then routes_at q n ++ a ∷ [] else routes_at q n)
  unfolding insert routes_at
  routes_at-insert [] [] a (node cs rs) = refl
  routes_at-insert [] (c ∷ q) a (node cs rs) = refl
  routes_at-insert (b ∷ p) [] a (node cs rs) = refl
  routes_at-insert (b ∷ p) (c ∷ q) a (node cs rs) =
      let below = child_or_new (get_child b cs) in
      ground (
        arith,
        get_child-set_child b c (insert p a below) cs,
        routes_at-insert p q a below,
        routes_at-child_or_new q (get_child b cs),
      )

  routes_at-insert_all :
      (q : Str) (rs : List (Str × A)) (t : Node A)
      → routes_at q (insert_all rs t) ≡ routes_at q t ++ registered q rs
  unfolding insert_all
  routes_at-insert_all q [] t = sym (append-nil _)
  routes_at-insert_all q ((p, a) ∷ rs) t = elim (Bool-cases (eq_str p q)) [
    | inl e ↦
        rw (routes_at-insert_all q rs (insert p a t), routes_at-insert p q a t, e)
          (append_assoc (routes_at q t) (a ∷ []) (registered q rs))
    | inr e ↦ rw (routes_at-insert_all q rs (insert p a t), routes_at-insert p q a t, e) refl
  ]

-- Entries with a test; a find is an entry and the length of its prefix.
module _ {A : Type 0} (test : A → Bool) where
  abbrev pub first_fit : List A → ℕ → Option (A × ℕ)
  first_fit [] depth = none
  first_fit (a ∷ xs) depth = if test a then some (a, depth) else first_fit xs depth

  -- An entry against the best of the later ones: it yields only to a longer prefix.
  abbrev pub longer : A × ℕ → Option (A × ℕ) → Option (A × ℕ)
  longer (a, n) none = some (a, n)
  longer (a, n) (some (b, m)) = if leb m n then some (a, n) else some (b, m)

  -- The scan, for prefixes of what is left of the path at a depth.
  abbrev pub longest : List (Str × A) → Str → ℕ → Option (A × ℕ)
  longest [] path depth = none
  longest ((p, a) ∷ rs) path depth =
      let later = longest rs path depth in
      if has_prefix path p && test a then longer (a, depth + length p) later else later

  abbrev strip : ℕ → List (Str × A) → List (Str × A)
  strip b [] = []
  strip b (([], a) ∷ rs) = strip b rs
  strip b ((c ∷ p, a) ∷ rs) = if c == b then (p, a) ∷ strip b rs else strip b rs

  registered-strip :
      (b : ℕ) (q : Str) (rs : List (Str × A)) → registered q (strip b rs) ≡ registered (b ∷ q) rs
  registered-strip b q [] = refl
  registered-strip b q (([], a) ∷ rs) = registered-strip b q rs
  registered-strip b q ((c ∷ p, a) ∷ rs) = ground (arith, registered-strip b q rs)

  -- No entry is registered anywhere only if there is none.
  none_registered : (rs : List (Str × A)) → ((q : Str) → registered q rs ≡ []) → rs ≡ []
  none_registered [] h = refl
  none_registered ((p, a) ∷ rs) h = ground (arith, h p, eq_str_refl p)

  first_fit-depth :
      (xs : List A) (depth m : ℕ) (a : A) → first_fit xs depth ≡ some (a, m) → m ≡ depth
  first_fit-depth [] depth m a h = cc
  first_fit-depth (x ∷ xs) depth m a h = ground (arith, first_fit-depth xs depth m a)

  longest-depth :
      (rs : List (Str × A)) (path : Str) (depth m : ℕ) (a : A)
      → longest rs path depth ≡ some (a, m)
      → depth ≤ m
  longest-depth [] path depth m a h = cc
  longest-depth ((p, x) ∷ rs) path depth m a h = elim (Option-cases (longest rs path depth)) [
    | inl e ↦ ground arith
    | inr ((y, k), e) ↦ ground (arith, longest-depth rs path depth k y e)
  ]

  longest-nil :
      (rs : List (Str × A)) (depth : ℕ) → longest rs [] depth ≡ first_fit (registered [] rs) depth
  longest-nil [] depth = refl
  longest-nil (([], a) ∷ rs) depth = elim (Option-cases (first_fit (registered [] rs) depth)) [
    | inl e ↦ ground (arith, longest-nil rs depth)
    | inr ((y, m), e) ↦ ground (arith, longest-nil rs depth, first_fit-depth _ depth m y e)
  ]
  longest-nil ((c ∷ p, a) ∷ rs) depth = longest-nil rs depth

  -- One byte down: the entries that start with it come first, and then those registered here.
  longest-cons :
      (b : ℕ) (rs : List (Str × A)) (path : Str) (depth : ℕ)
      → longest rs (b ∷ path) depth
        ≡ or_else (longest (strip b rs) path (suc depth)) (first_fit (registered [] rs) depth)
  longest-cons b [] path depth = refl
  longest-cons b (([], a) ∷ rs) path depth =
      elim (Option-cases (longest (strip b rs) path (suc depth))) [
        | inl e ↦ elim (Option-cases (first_fit (registered [] rs) depth)) [
          | inl f ↦ ground (arith, longest-cons b rs path depth)
          | inr ((y, m), f) ↦
              ground (arith, longest-cons b rs path depth, first_fit-depth _ depth m y f)
        ]
        | inr ((y, m), e) ↦
            ground (
              arith,
              longest-cons b rs path depth,
              longest-depth (strip b rs) path (suc depth) m y e,
            )
      ]
  longest-cons b ((c ∷ p, a) ∷ rs) path depth = elim (Bool-cases (c == b)) [
    | inl e ↦ elim (Option-cases (longest (strip b rs) path (suc depth))) [
      | inl f ↦ elim (Option-cases (first_fit (registered [] rs) depth)) [
        | inl g ↦ ground (arith, longest-cons b rs path depth)
        | inr ((y, m), g) ↦
            ground (arith, longest-cons b rs path depth, first_fit-depth _ depth m y g)
      ]
      | inr ((y, m), f) ↦ ground (arith, longest-cons b rs path depth)
    ]
    | inr e ↦ ground (arith, longest-cons b rs path depth)
  ]

  offer-first_fit : (xs : List A) (depth : ℕ) → offer first_fit xs depth ≡ first_fit xs depth
  offer-first_fit [] depth = refl
  offer-first_fit (x ∷ xs) depth = refl

  match-longest :
      (path : Str) (depth : ℕ) (n : Node A) (rs : List (Str × A))
      → ((q : Str) → routes_at q n ≡ registered q rs)
      → match first_fit path depth n ≡ longest rs path depth
  unfolding match routes_at
  match-longest [] depth (node cs xs) rs rep =
      offer-first_fit xs depth ∙ ap (λ ys. first_fit ys depth) (rep []) ∙ sym (longest-nil rs depth)
  match-longest (b ∷ path) depth (node cs xs) rs rep = elim (Option-cases (get_child b cs)) [
    | inl e ↦
        let bare : strip b rs ≡ [] =
          none_registered (strip b rs)
            (λ q. registered-strip b q rs ∙ sym (rep (b ∷ q)) ∙ rw (e, routes_at)) in
        let here = ap (λ ys. first_fit ys depth) (rep []) in
        ground (arith, longest-cons b rs path depth, bare, here, offer-first_fit xs depth)
    | inr (n, e) ↦
        let below =
          match-longest path (suc depth) n (strip b rs)
            (λ q. (rw (e, routes_at) at (rep (b ∷ q))) ∙ sym (registered-strip b q rs)) in
        let here = ap (λ ys. first_fit ys depth) (rep []) in
        ground (arith, longest-cons b rs path depth, below, here, offer-first_fit xs depth)
  ]

  -- On the tree of all the entries, the match is the scan.
  pub match-insert_all :
      (path : Str) (rs : List (Str × A))
      → match first_fit path 0 (insert_all rs new_trie) ≡ longest rs path 0
  unfolding new_trie
  match-insert_all path rs = match-longest path 0 (insert_all rs new_trie) rs (λ q.
      routes_at-insert_all q rs (node nil [])
      ∙ ap (λ xs. xs ++ registered q rs) (routes_at-empty q))

  -- A callback that makes its result of the entry and the depth.
  module _ {C : Type 0} (make : A → ℕ → C) where
    abbrev pub found : Option (A × ℕ) → Option C
    found none = none
    found (some (a, n)) = some (make a n)

    abbrev pub make_first : List A → ℕ → Option C
    make_first [] depth = none
    make_first (a ∷ xs) depth = if test a then some (make a depth) else make_first xs depth

    make_first_lem :
        (xs : List A) (depth : ℕ) → offer make_first xs depth ≡ found (offer first_fit xs depth)
    make_first_lem [] depth = refl
    make_first_lem (x ∷ []) depth = ground arith
    make_first_lem (x ∷ y ∷ xs) depth = ground (arith, make_first_lem (y ∷ xs) depth)

    pub match-make_first :
        (path : Str) (depth : ℕ) (n : Node A)
        → match make_first path depth n ≡ found (match first_fit path depth n)
    unfolding match
    match-make_first [] depth (node cs xs) = make_first_lem xs depth
    match-make_first (b ∷ path) depth (node cs xs) = elim (Option-cases (get_child b cs)) [
      | inl e ↦ rw (e, match) (make_first_lem xs depth)
      | inr (n, e) ↦ ground (arith, e, match-make_first path (suc depth) n, make_first_lem xs depth)
    ]
