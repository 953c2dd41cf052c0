-- ===== src/Routing/Trie.antt =====
-- internal/routing/trie.go: a tree of path prefixes, keyed by byte. The 256 child pointers of a node
-- are the list of those that are not nil. Its payload is any type; routing stores routes.
pub mod Longest
pub mod Maximal
use l7_proxy.Prelude.{ℕ, zero, suc, List, [], ◌∷◌, ◌++◌, Option, none, some, ◌==◌, if◌then◌else◌}
use l7_proxy.Text.{Str}

mutual
  pub data Node (A : Type 0) : Type 0 where
    node : Children A → List A → Node A

  pub data Children (A : Type 0) : Type 0 where
    nil : Children A
    child : ℕ → Node A → Children A → Children A

module _ {A : Type 0} where
  abbrev pub routes_of : Node A → List A
  routes_of (node cs rs) = rs

  abbrev pub children_of : Node A → Children A
  children_of (node cs rs) = cs

  unfoldable pub new_trie : Node A
  new_trie = node nil []

  -- node.children[b]
  unfoldable pub get_child : ℕ → Children A → Option (Node A)
  get_child b nil = none
  get_child b (child c n cs) = if c == b then some n else get_child b cs

  -- node.children[b] = n
  unfoldable pub set_child : ℕ → Node A → Children A → Children A
  set_child b n nil = child b n nil
  set_child b n (child c m cs) = if c == b then child c n cs else child c m (set_child b n cs)

  -- `child := node.children[b]`, made anew where it is nil
  abbrev pub child_or_new : Option (Node A) → Node A
  child_or_new none = node nil []
  child_or_new (some n) = n

  unfoldable pub insert : Str → A → Node A → Node A
  insert [] a (node cs rs) = node cs (rs ++ a ∷ [])
  insert (b ∷ p) a (node cs rs) =
      let below = insert p a (child_or_new (get_child b cs)) in node (set_child b below cs) rs

-- The callback reports by a result instead of the variables that it captures: `some` is true. At a
-- node the deeper ones are offered first; the path is what is left of it below the node.
module _ {A C : Type 0} (yield : List A → ℕ → Option C) where
  abbrev pub offer : List A → ℕ → Option C
  offer [] depth = none
  offer (a ∷ rs) depth = yield (a ∷ rs) depth

  unfoldable pub match : Str → ℕ → Node A → Option C
  match [] depth (node cs rs) = offer rs depth
  match (b ∷ path) depth (node cs rs) = elim (get_child b cs) [
    | none ↦ offer rs depth
    | some n ↦ elim (match path (suc depth) n) [ some c ↦ some c | none ↦ offer rs depth ]
  ]
