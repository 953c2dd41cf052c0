-- ===== src/Mirroring/Headers.antt =====
-- What removeHopByHopHeaders (mirroring.go) leaves.
use l7_proxy.Prelude.{
  ◌≡◌, refl, ◌∙◌, ap, ◌⊎◌, ◌↔◌, All, map, Memᴰ, any-Memᴰ, All-Memᴰ, subst, any_of_Memᴰ, Bool, true,
  false, ◌||◌, List, [], ◌∷◌, Option, none, if◌then◌else◌, arith, any,
}
use l7_proxy.Text.{Str, codes, eq_str}
use l7_proxy.Text.Laws.{eq_str_iff}
use l7_proxy.Dict.{Dict, lookup}
use l7_proxy.Routing.Conditions.{canonical_key}
use l7_proxy.Mirroring.Listed.{Item, IsItem, print_items, names_in_all, listed_in-print_items}
use l7_proxy.Config.Tokens.{is_token_char}
use l7_proxy.Mirroring.{
  delete, del, del_all, hop_by_hop_headers, listed_in, values_of, remove_hop_by_hop_headers,
}

lookup-delete {ℓ} :
    {V : Type ℓ} (k j : Str) (m : Dict V)
    → lookup j (delete k m) ≡ (if eq_str k j then none else lookup j m)
unfolding lookup delete
lookup-delete k j [] = ground arith
lookup-delete k j ((i, v) ∷ m) =
    ground (arith, eq_str_iff k j, eq_str_iff i k, eq_str_iff i j, lookup-delete k j m)

-- Whether a name of the list has this canonical form.
abbrev pub names_key : List Str → Str → Bool
names_key names j = any (λ name. eq_str (canonical_key name) j) names

lookup-del_all :
    (names : List Str) (j : Str) (h : Dict (List Str))
    → lookup j (del_all names h) ≡ (if names_key names j then none else lookup j h)
unfolding del_all del
lookup-del_all [] j h = refl
lookup-del_all (name ∷ names) j h =
    ground (arith, lookup-del_all names j (del name h), lookup-delete (canonical_key name) j h)

lookup-remove_cases :
    (j : Str) (h : Dict (List Str))
    → lookup j (remove_hop_by_hop_headers h) ≡ (
        if names_key hop_by_hop_headers j
          || names_key (listed_in (values_of (lookup (codes "Connection") h))) j
        then none
        else lookup j h)
unfolding remove_hop_by_hop_headers
lookup-remove_cases j h =
    let listed = listed_in (values_of (lookup (codes "Connection") h)) in
    lookup-del_all hop_by_hop_headers j (del_all listed h)
    ∙ combine (names_key hop_by_hop_headers j) (names_key listed j) (lookup j h)
        (lookup j (del_all listed h)) (lookup-del_all listed j h)
  where
    combine :
        (a b : Bool) (o p : Option (List Str))
        → p ≡ (if b then none else o)
        → (if a then none else p) ≡ (if a || b then none else o)
    combine true b o p e = refl
    combine false b o p e = e

-- The headers that concern one connection only: those of RFC 9110 and RFC 2616, and Proxy-Connection.
abbrev pub connection_headers : List Str
connection_headers =
    codes "Connection"
    ∷ codes "Keep-Alive"
    ∷ codes "Proxy-Authenticate"
    ∷ codes "Proxy-Authorization"
    ∷ codes "Proxy-Connection"
    ∷ codes "Te"
    ∷ codes "Trailer"
    ∷ codes "Transfer-Encoding"
    ∷ codes "Upgrade"
    ∷ []

-- A name of the code's list is meant to be removed, and a header that is meant to be is removed by it.
abbrev IsMeant : Str → Type 0
IsMeant name = any (λ k. eq_str k (canonical_key name)) connection_headers ≡ true

abbrev IsRemoved : Str → Type 0
IsRemoved j = names_key hop_by_hop_headers j ≡ true

abbrev pub IsHopByHop : Str → Type 0
IsHopByHop j = Memᴰ j connection_headers

-- One of the items has a name with this canonical form.
abbrev pub IsListed : List (List Item) → Str → Type 0
IsListed rows j = (name : Str) × Memᴰ name (names_in_all rows) × (canonical_key name ≡ j)

hop_by_hop_headers-IsMeant : All IsMeant hop_by_hop_headers
unfolding canonical_key is_token_char
hop_by_hop_headers-IsMeant =
    (refl, (refl, (refl, (refl, (refl, (refl, (refl, (refl, (refl, tt)))))))))

connection_headers-IsRemoved : All IsRemoved connection_headers
unfolding canonical_key is_token_char
connection_headers-IsRemoved =
    (refl, (refl, (refl, (refl, (refl, (refl, (refl, (refl, (refl, tt)))))))))

names_key-hop_by_hop_headers : (j : Str) → (names_key hop_by_hop_headers j ≡ true) ↔ IsHopByHop j
names_key-hop_by_hop_headers j = (
  λ h.
      let (name, m, e) = any-Memᴰ (λ name. eq_str (canonical_key name) j) hop_by_hop_headers h in
      let meant = All-Memᴰ IsMeant hop_by_hop_headers hop_by_hop_headers-IsMeant m in
      let (k, n, same) = any-Memᴰ (λ k. eq_str k (canonical_key name)) connection_headers meant in
      subst (λ i. Memᴰ i connection_headers)
        ((eq_str_iff k (canonical_key name)).0 same ∙ (eq_str_iff (canonical_key name) j).0 e) n,
  λ m. All-Memᴰ IsRemoved connection_headers connection_headers-IsRemoved m,
)

names_key-IsListed :
    (rows : List (List Item)) (j : Str) → (names_key (names_in_all rows) j ≡ true) ↔ IsListed rows j
names_key-IsListed rows j = (
  λ h.
      let (name, m, e) = any-Memᴰ (λ name. eq_str (canonical_key name) j) _ h in
      (name, m, (eq_str_iff (canonical_key name) j).0 e),
  λ (name, m, e).
      any_of_Memᴰ (λ name. eq_str (canonical_key name) j) _ m
        ((eq_str_iff (canonical_key name) j).1 e),
)

-- Where the values of Connection are written from names with blanks around them and commas between,
-- a header is missing after removeHopByHopHeaders if it is one of the nine hop-by-hop headers or its
-- name is the canonical form of one of those names; any other header is as it was.
pub lookup-remove_hop_by_hop_headers :
    (j : Str) (h : Dict (List Str)) (rows : List (List Item))
    → All (All IsItem) rows
    → values_of (lookup (codes "Connection") h) ≡ map print_items rows
    → (IsHopByHop j ⊎ IsListed rows j → lookup j (remove_hop_by_hop_headers h) ≡ none)
      × (¬ (IsHopByHop j ⊎ IsListed rows j) → lookup j (remove_hop_by_hop_headers h) ≡ lookup j h)
lookup-remove_hop_by_hop_headers j h rows items e =
    let listed = ap listed_in e ∙ listed_in-print_items rows items in
    let cases = rw listed at (lookup-remove_cases j h) in
    let hop = names_key-hop_by_hop_headers j in
    let by_name = names_key-IsListed rows j in
    (
      λ gone. ground (arith, gone, hop, by_name, cases),
      λ kept. ground (arith, kept, hop, by_name, cases),
    )
