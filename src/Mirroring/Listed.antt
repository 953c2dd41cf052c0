-- ===== src/Mirroring/Listed.antt =====
-- The names that a Connection header lists (mirroring.go: removeHopByHopHeaders): what splitting and
-- trimming make of values that are written from names.
use l7_proxy.Prelude.{
  ℕ, ◌≤◌, ◌≡◌, ◌≢◌, ◌⊎◌, refl, ap, ◌∙◌, true, false, List, [], ◌∷◌, ◌++◌, map, All, arith, ◌==◌,
}
use l7_proxy.Text.{Str, is_empty, is_space, trim_left, trim_right, trim_space, split}
use l7_proxy.Text.Laws.{is_empty_iff}
use l7_proxy.Mirroring.{nonblank, listed_in}

-- A name with the blanks around it.
pub record Item : Type 0 where
  pub before : Str
  pub name : Str
  pub after : Str

abbrev pub IsBlank : ℕ → Type 0
IsBlank c = (c ≡ 32) ⊎ (c ≡ 9)

-- A byte of a name: printable, and no comma.
abbrev pub IsNameByte : ℕ → Type 0
IsNameByte c = (33 ≤ c) × (c ≢ b',')

pub record IsItem (item : Item) : Type 0 where
  pub blank_before : All IsBlank item.before
  pub named : item.name ≢ []
  pub name_bytes : All IsNameByte item.name
  pub blank_after : All IsBlank item.after

abbrev pub print_item : Item → Str
print_item item = item.before ++ (item.name ++ item.after)

-- Items with a comma between them.
abbrev pub print_items : List Item → Str
print_items [] = []
print_items (item ∷ []) = print_item item
print_items (item ∷ next ∷ items) = print_item item ++ (b',' ∷ print_items (next ∷ items))

trim_left-blank : (s t : Str) → All IsBlank s → trim_left (s ++ t) ≡ trim_left t
trim_left-blank [] t h = refl
trim_left-blank (c ∷ s) t (b, h) =
    let blank : is_space c ≡ true = ground (arith, b) in
    rw (blank, trim_left) (trim_left-blank s t h)

trim_left-name : (s t : Str) → s ≢ [] → All IsNameByte s → trim_left (s ++ t) ≡ s ++ t
trim_left-name [] t n h = absurd (n refl)
trim_left-name (c ∷ s) t n ((b, _), h) =
    let black : is_space c ≡ false = ground (arith, b) in rw (black, trim_left) refl

trim_right-blank : (s : Str) → All IsBlank s → trim_right s ≡ []
trim_right-blank [] h = refl
trim_right-blank (c ∷ s) (b, h) =
    let blank : is_space c ≡ true = ground (arith, b) in rw (trim_right-blank s h, blank) refl

trim_right-name : (s t : Str) → All IsNameByte s → All IsBlank t → trim_right (s ++ t) ≡ s
trim_right-name [] t h k = trim_right-blank t k
trim_right-name (c ∷ s) t ((b, _), h) k =
    let black : is_space c ≡ false = ground (arith, b) in
    ground (arith, trim_right-name s t h k, black)

trim_space-item : (item : Item) → IsItem item → trim_space (print_item item) ≡ item.name
unfolding trim_space
trim_space-item item h =
    ap trim_right (
      trim_left-blank item.before (item.name ++ item.after) h.blank_before
      ∙ trim_left-name item.name item.after h.named h.name_bytes)
    ∙ trim_right-name item.name item.after h.name_bytes h.blank_after

-- A string without a comma is one span.
split-last : (s : Str) → All (λ c. c ≢ b',') s → split s b',' ≡ s ∷ []
unfolding split
split-last [] h = refl
split-last (c ∷ s) (n, h) =
    let other : (c == b',') ≡ false = ground (arith, n) in rw (other, split-last s h) refl

split-comma : (s t : Str) → All (λ c. c ≢ b',') s → split (s ++ (b',' ∷ t)) b',' ≡ s ∷ split t b','
unfolding split
split-comma [] t h = refl
split-comma (c ∷ s) t (n, h) =
    let other : (c == b',') ≡ false = ground (arith, n) in rw (other, split-comma s t h) refl

All-append : (P : ℕ → Type 0) (s t : Str) → All P s → All P t → All P (s ++ t)
All-append P [] t h k = k
All-append P (c ∷ s) t (p, h) k = (p, All-append P s t h k)

All-weaken : (P Q : ℕ → Type 0) (s : Str) → ((c : ℕ) → P c → Q c) → All P s → All Q s
All-weaken P Q [] f h = tt
All-weaken P Q (c ∷ s) f (p, h) = (f c p, All-weaken P Q s f h)

print_item-no_comma : (item : Item) → IsItem item → All (λ c. c ≢ b',') (print_item item)
print_item-no_comma item h =
    let blank : (c : ℕ) → IsBlank c → c ≢ b',' = λ c b. ground (arith, b) in
    let no_comma = λ (c : ℕ). c ≢ b',' in
    All-append no_comma item.before (item.name ++ item.after)
      (All-weaken IsBlank no_comma item.before blank h.blank_before)
      (All-append no_comma item.name item.after
        (All-weaken IsNameByte no_comma item.name (λ c (_, n). n) h.name_bytes)
        (All-weaken IsBlank no_comma item.after blank h.blank_after))

nonblank-item :
    (item : Item) (ss : List Str)
    → IsItem item
    → nonblank (print_item item ∷ ss) ≡ item.name ∷ nonblank ss
nonblank-item item ss h =
    let black : is_empty item.name ≡ false = ground (arith, is_empty_iff item.name, h.named) in
    rw (trim_space-item item h, black, nonblank) refl

abbrev pub names_in : List Item → List Str
names_in items = map (λ item. item.name) items

-- What a written value lists.
nonblank-print_items :
    (items : List Item)
    → All IsItem items
    → nonblank (split (print_items items) b',') ≡ names_in items
unfolding split trim_space
nonblank-print_items [] h = refl
nonblank-print_items (item ∷ []) (p, _) =
    ap nonblank (split-last (print_item item) (print_item-no_comma item p))
    ∙ nonblank-item item [] p
nonblank-print_items (item ∷ next ∷ items) (p, h) =
    let rest = print_items (next ∷ items) in
    ap nonblank (split-comma (print_item item) rest (print_item-no_comma item p))
    ∙ nonblank-item item (split rest b',') p
    ∙ ap (λ names. item.name ∷ names) (nonblank-print_items (next ∷ items) h)

abbrev pub names_in_all : List (List Item) → List Str
names_in_all [] = []
names_in_all (items ∷ rows) = names_in items ++ names_in_all rows

pub listed_in-print_items :
    (rows : List (List Item))
    → All (All IsItem) rows
    → listed_in (map print_items rows) ≡ names_in_all rows
listed_in-print_items [] h = refl
listed_in-print_items (items ∷ rows) (p, h) =
    let first = nonblank-print_items items p in
    let rest = listed_in-print_items rows h in
    ap (λ names. names ++ listed_in (map print_items rows)) first
    ∙ ap (λ names. names_in items ++ names) rest
