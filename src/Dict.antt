-- ===== src/Dict.antt =====
-- A Go map with string keys, as an association list: `lookup` is `m[k]` with its second result, and
-- `insert` is `m[k] = v`. A set of strings is the list of its members.
use l7_proxy.Prelude.{
  ◌≡◌, refl, Bool, true, List, [], ◌∷◌, Option, none, some, arith, if◌then◌else◌, any, Memᴰ, ◌↔◌,
  any-Memᴰ, any_of_Memᴰ, subst,
}
use l7_proxy.Text.{Str, eq_str}
use l7_proxy.Text.Laws.{eq_str_iff, eq_str_refl}

abbrev pub Dict {ℓ} : Type ℓ → Type ℓ
Dict V = List (Str × V)

module _ {ℓ} {V : Type ℓ} where
  unfoldable pub lookup : Str → Dict V → Option V
  lookup k [] = none
  lookup k ((j, v) ∷ m) = if eq_str j k then some v else lookup k m

  unfoldable pub insert : Str → V → Dict V → Dict V
  insert k v [] = (k, v) ∷ []
  insert k v ((j, w) ∷ m) = if eq_str j k then (j, v) ∷ m else (j, w) ∷ insert k v m

  pub lookup-insert :
      (k j : Str) (v : V) (m : Dict V)
      → lookup j (insert k v m) ≡ (if eq_str k j then some v else lookup j m)
  unfolding lookup insert
  lookup-insert k j v ((i, w) ∷ m) =
      ground (arith, lookup-insert k j v m, eq_str_iff i k, eq_str_iff i j, eq_str_iff k j)
  lookup-insert k j v [] = refl

-- `_, ok := seen[k]` for a map to empty structs
abbrev pub member : Str → List Str → Bool
member k seen = any (λ j. eq_str j k) seen

pub member_iff : (k : Str) (seen : List Str) → (member k seen ≡ true) ↔ Memᴰ k seen
member_iff k seen = (
  λ h.
      let (j, m, e) = any-Memᴰ (λ j. eq_str j k) seen h in
      subst (λ i. Memᴰ i seen) ((eq_str_iff j k).0 e) m,
  λ m. any_of_Memᴰ (λ j. eq_str j k) seen m (eq_str_refl k),
)
