-- ===== src/Config/Csv.antt =====
-- internal/config/config.go: the lists that the environment writes with commas.
use cadenza.Prelude.{
  ◌≡◌, refl, Bool, true, false, List, [], ◌∷◌, ◌++◌, Bytes, bytes_eq, trim_space, All, arith, ◌==◌,
  ◌||◌, ◌⊎◌, inl, inr, Bool-cases, ap, ◌∙◌,
}
use cadenza.Config.{split_comma, trimmed_parts, split_csv}

-- Items with a comma between them.
unfoldable pub join_comma : List Bytes → Bytes
join_comma [] = []
join_comma (item ∷ []) = item
join_comma (item ∷ next ∷ items) = item ++ (44 ∷ join_comma (next ∷ items))

abbrev pub has_comma : Bytes → Bool
has_comma [] = false
has_comma (c ∷ s) = c == 44 || has_comma s

-- An item as a list keeps it: not empty, with no comma and no space around it.
pub IsItem : Bytes → Type 0
IsItem item = (bytes_eq item [] ≡ false) × (has_comma item ≡ false) × (trim_space item ≡ item)

split_comma-one : (item : Bytes) → has_comma item ≡ false → split_comma item ≡ item ∷ []
unfolding split_comma
split_comma-one [] h = refl
split_comma-one (c ∷ s) h = ground (arith, split_comma-one s)

split_comma-some :
    (s : Bytes) → (part : Bytes) × (parts : List Bytes) × (split_comma s ≡ part ∷ parts)
unfolding split_comma
split_comma-some [] = ([], [], refl)
split_comma-some (c ∷ s) = go (split_comma-some s) (Bool-cases (c == 44))
  where
    go :
        ((part : Bytes) × (parts : List Bytes) × (split_comma s ≡ part ∷ parts))
        → ((c == 44) ≡ true) ⊎ ((c == 44) ≡ false)
        → (part : Bytes) × (parts : List Bytes) × (split_comma (c ∷ s) ≡ part ∷ parts)
    go (part, parts, e) (inl comma) = ([], part ∷ parts, ground arith)
    go (part, parts, e) (inr other) = (c ∷ part, parts, ground arith)

split_comma-append :
    (item rest : Bytes)
    → has_comma item ≡ false
    → split_comma (item ++ (44 ∷ rest)) ≡ item ∷ split_comma rest
unfolding split_comma
split_comma-append [] rest h = let (part, parts, e) = split_comma-some rest in rw e refl
split_comma-append (c ∷ s) rest h = ground (arith, split_comma-append s rest)

trimmed_parts-items : (items : List Bytes) → All IsItem items → trimmed_parts items ≡ items
unfolding trimmed_parts IsItem
trimmed_parts-items [] h = refl
trimmed_parts-items (item ∷ items) ((some_text, _, trimmed), h) =
    rw trimmed (ground (arith, trimmed_parts-items items h))

split_comma-join :
    (item : Bytes) (items : List Bytes)
    → All IsItem (item ∷ items)
    → split_comma (join_comma (item ∷ items)) ≡ item ∷ items
unfolding join_comma IsItem
split_comma-join item [] ((_, plain, _), _) = split_comma-one item plain
split_comma-join item (next ∷ items) ((_, plain, _), h) =
    split_comma-append item (join_comma (next ∷ items)) plain
    ∙ ap (λ l. item ∷ l) (split_comma-join next items h)

join_comma-some :
    (item : Bytes) (items : List Bytes)
    → bytes_eq item [] ≡ false
    → bytes_eq (join_comma (item ∷ items)) [] ≡ false
unfolding join_comma bytes_eq
join_comma-some [] items h = ground arith
join_comma-some (c ∷ s) [] h = refl
join_comma-some (c ∷ s) (next ∷ items) h = refl

-- Items that are not empty and have no comma and no space around them, written with commas between
-- them, are read as the same list.
pub split_csv-join_comma :
    (items : List Bytes) → All IsItem items → split_csv (join_comma items) ≡ items
unfolding split_csv join_comma IsItem bytes_eq
split_csv-join_comma [] h = refl
split_csv-join_comma (item ∷ items) h =
    rw (join_comma-some item items h.0.0)
      (rw (split_comma-join item items h) (trimmed_parts-items (item ∷ items) h))
