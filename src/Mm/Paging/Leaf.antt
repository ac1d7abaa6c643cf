-- ===== src/Mm/Paging/Leaf.antt =====
-- Writing an entry of a table of level 0 (`map_table_entry` of src/mm/paging.c).
use pell_os.Base.{
  ℕ, zero, suc, ◌+◌, ◌*◌, ◌<◌, ◌≡◌, ◌⊎◌, inl, inr, refl, sym, ap, ◌∙◌, arith, ◌==◌, ==_iff,
  Bool-cases, List, [], ◌∷◌, ◌/◌, ◌%◌, ◌^◌,
}
use pell_os.Mm.Pages.{Pages, store}
use pell_os.Mm.Paging.Walk.{index, walk, walk-missing, walk-entry}
use pell_os.Mm.Paging.Tree.{
  IsData, SameWords, Label, IsTable, IsTree, IsInUse-IsAligned, same_word, label_parts,
}

-- The path of the last table of a walk that starts at the end of `path`.
pub route : (d virt_adr : ℕ) → List ℕ → List ℕ
route zero virt_adr path = path
route (suc d) virt_adr path = route d virt_adr (index (suc d) virt_adr ∷ path)

-- Two addresses whose walks take the same indices lie in the same page.
pub same_route :
    (va va' : ℕ)
    → route 3 va [] ≡ index 1 va' ∷ index 2 va' ∷ index 3 va' ∷ []
    → index 0 va ≡ index 0 va'
    → va / 4096 % 2 ^ 36 ≡ va' / 4096 % 2 ^ 36
unfolding route
same_route va va' e e₀ =
    let e₃ = ap (λ (xs : List ℕ). nth 2 xs) e in
    let e₂ = ap (λ (xs : List ℕ). nth 1 xs) e in
    let e₁ = ap (λ (xs : List ℕ). nth 0 xs) e in omega (arith, e₃, e₂, e₁, e₀)
  where
    nth : ℕ → List ℕ → ℕ
    nth n [] = 0
    nth zero (x ∷ xs) = x
    nth (suc n) (x ∷ xs) = nth n xs

module _ (label : Label) (p : Pages) (tree : IsTree label p) (t i value : ℕ) (path : List ℕ)
    (here : IsTable label t zero path) (small : i < 512) where
  abbrev words' : ℕ → ℕ
  words' = store p.words (t + 8 * i) value

  pub leaf_word : words' (t + 8 * i) ≡ value
  unfolding store
  leaf_word = let e = (==_iff (t + 8 * i) (t + 8 * i)).1 refl in rw e refl

  -- A word of a table is this one, or is kept.
  leaf_cases :
      (s e j : ℕ) (q : List ℕ)
      → IsTable label s e q
      → j < 512
      → ((s ≡ t) × (j ≡ i)) ⊎ (words' (s + 8 * j) ≡ p.words (s + 8 * j))
  unfolding store
  leaf_cases s e j q h lt = elim (Bool-cases (s + 8 * j == t + 8 * i)) [
    | inl same ↦ inl (
        same_word s t j i (IsInUse-IsAligned p s (tree.in_use s e q h))
          (IsInUse-IsAligned p t (tree.in_use t zero path here)) lt small
          ((==_iff (s + 8 * j) (t + 8 * i)).0 same))
    | inr other ↦ inr (rw other refl)
  ]

  -- The levels above are kept.
  pub leaf-above :
      (s e j : ℕ) (q : List ℕ)
      → IsTable label s (suc e) q
      → j < 512
      → words' (s + 8 * j) ≡ p.words (s + 8 * j)
  leaf-above s e j q h lt = elim (leaf_cases s (suc e) j q h lt) [
    | inl (es, ej) ↦
        (let (el, eq) = label_parts here (ap label (sym es) ∙ h) in absurd (omega arith))
    | inr kept ↦ kept
  ]

  -- The entry is in no other page than the table.
  pub leaf_data : (s : ℕ) → IsData label p s → SameWords p.words words' s
  unfolding store
  leaf_data s (u, no_table) k lt = elim (Bool-cases (s + 8 * k == t + 8 * i)) [
    | inl same ↦ absurd (
        no_table zero path (
          ap label
            (same_word s t k i (IsInUse-IsAligned p s u)
              (IsInUse-IsAligned p t (tree.in_use t zero path here)) lt small
              ((==_iff (s + 8 * k) (t + 8 * i)).0 same)).0
          ∙ here))
    | inr other ↦ rw other refl
  ]

  pub IsTree-leaf : IsTree label (record p { words = words' })
  IsTree-leaf = record {
    valid = record { bytes = tree.valid.bytes; size = tree.valid.size };
    in_use = λ s e q h. tree.in_use s e q h;
    entry = λ s e q j h lt. rw (leaf-above s e j q h lt) (tree.entry s e q j h lt);
  }

  -- A walk ends where it did, or at this entry.
  pub walk-leaf :
      (e s virt_adr : ℕ) (q : List ℕ)
      → IsTable label s e q
      → ((route e virt_adr q ≡ path) × (index 0 virt_adr ≡ i))
        ⊎ (walk words' e s virt_adr ≡ walk p.words e s virt_adr)
  unfolding route
  walk-leaf zero s v q h = elim (leaf_cases s zero (index 0 v) q h (omega arith)) [
    | inl (es, ej) ↦ (let (el, eq) = label_parts (ap label (sym es) ∙ h) here in inl (eq, ej))
    | inr kept ↦ inr (unfold walk in kept)
  ]
  walk-leaf (suc e) s v q h =
      let kept = leaf-above s e (index (suc e) v) q h (omega arith) in
      elim (tree.entry s e q (index (suc e) v) h (omega arith)) [
        | inl z ↦ inr (walk-missing words' e s v (kept ∙ z) ∙ sym (walk-missing p.words e s v z))
        | inr (c, w, l) ↦
            (let aligned = IsInUse-IsAligned p c (tree.in_use c e _ l) in
              elim (walk-leaf e c v _ l) [
                | inl same ↦ inl same
                | inr same ↦ inr (
                    walk-entry words' e s c v aligned (kept ∙ w)
                    ∙ same
                    ∙ sym (walk-entry p.words e s c v aligned w))
              ])
      ]
