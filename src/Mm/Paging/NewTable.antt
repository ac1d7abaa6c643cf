-- ===== src/Mm/Paging/NewTable.antt =====
-- A new table (src/mm/paging.c): what the entry for it does to a tree of page tables, and to walks.
use pell_os.Base.{
  ℕ, zero, suc, ◌+◌, ◌*◌, ◌<◌, ◌≡◌, ◌≢◌, ◌⊎◌, inl, inr, refl, sym, ap, ◌∙◌, arith, ◌==◌, ==_iff,
  if◌then◌else◌, Bool-cases, Option, some, List, ◌∷◌, Bool, true,
}
use mathlib.Core.Path.{ap₂, subst}
use pell_os.Mm.Pages.{Pages, store}
use pell_os.Mm.Paging.Walk.{index, walk, IsAligned, walk-zeros, walk-missing, walk-entry}
use pell_os.Mm.Paging.Tree.{
  IsInUse, IsData, SameWords, Label, IsTable, IsTree, IsInUse-IsAligned, same_word, label_parts,
}

-- The tree with a new table.
unfoldable pub extend : Label → ℕ → ℕ → List ℕ → Label
extend label n d path t = if t == n then some (d, path) else label t

-- A new table `n`, of zeros, and a missing entry: index `i` of table `t`.
pub record IsNewTable (label : Label) (p : Pages) (t d i n : ℕ) (path : List ℕ) : Type 0 where
  pub tree : IsTree label p
  pub here : IsTable label t (suc d) path
  pub small : i < 512
  pub missing : p.words (t + 8 * i) ≡ 0
  pub fresh : (d' : ℕ) (path' : List ℕ) → ¬ IsTable label n d' path'
  pub used_n : IsInUse p n
  pub zeros : (k : ℕ) → k < 512 → p.words (n + 8 * k) ≡ 0

-- Page `n`, which was no table, becomes one.
module _ (label : Label) (n d : ℕ) (path : List ℕ)
    (fresh : (d' : ℕ) (path' : List ℕ) → ¬ IsTable label n d' path') where
  pub extend_self : extend label n d path n ≡ some (d, path)
  unfolding extend
  extend_self = let e : (n == n) ≡ true = (==_iff n n).1 refl in rw e refl

  pub extend-table :
      (s e : ℕ) (q : List ℕ) → IsTable label s e q → IsTable (extend label n d path) s e q
  unfolding extend
  extend-table s e q h = elim (Bool-cases (s == n)) [
    | inl same ↦ absurd (fresh e q (ap label (sym ((==_iff s n).0 same)) ∙ h))
    | inr other ↦ rw other h
  ]

  -- A table of the new tree is the new one, or one of the old.
  table-cases :
      (s e : ℕ) (q : List ℕ)
      → IsTable (extend label n d path) s e q
      → ((s ≡ n) × (d ≡ e) × (path ≡ q)) ⊎ IsTable label s e q
  unfolding extend
  table-cases s e q h = elim (Bool-cases (s == n)) [
    | inl same ↦
        (let (level, route) = label_parts (ap pick same) h in
          inl ((==_iff s n).0 same, level, route))
    | inr other ↦ inr (sym (ap pick other) ∙ h)
  ]
    where
      pick : Bool → Option (ℕ × List ℕ)
      pick b = if b then some (d, path) else label s

  pub IsData-extend :
      (p : Pages) (t : ℕ) → IsData label p t → t ≢ n → IsData (extend label n d path) p t
  IsData-extend p t (u, no_table) ne =
      (u, λ e q h. elim (table-cases t e q h) [ inl made ↦ ne made.0 | inr old ↦ no_table e q old ])

  -- A first table of zeros.
  pub IsTree-root :
      (p : Pages)
      → IsTree label p
      → IsInUse p n
      → ((k : ℕ) → k < 512 → p.words (n + 8 * k) ≡ 0)
      → IsTree (extend label n d path) p
  IsTree-root p tree used_n zeros = record {
    valid = tree.valid;
    in_use = λ s e q h. elim (table-cases s e q h) [
      | inl made ↦ subst (IsInUse p) (sym made.0) used_n
      | inr old ↦ tree.in_use s e q old
    ];
    entry = λ s e q j h lt. elim (table-cases s (suc e) q h) [
      | inl made ↦ inl (ap (λ s. p.words (s + 8 * j)) made.0 ∙ zeros j lt)
      | inr old ↦ elim (tree.entry s e q j old lt) [
        | inl z ↦ inl z
        | inr (c, w, l) ↦ inr (c, w, extend-table c e (j ∷ q) l)
      ]
    ];
  }

-- The entry for the new table is written.
module _ (label : Label) (p : Pages) (t d i n : ℕ) (path : List ℕ)
    (new : IsNewTable label p t d i n path) where
  abbrev words' : ℕ → ℕ
  words' = store p.words (t + 8 * i) (n + 3)

  abbrev label' : Label
  label' = extend label n d (i ∷ path)

  pub stored : words' (t + 8 * i) ≡ n + 3
  unfolding store
  stored = let e = (==_iff (t + 8 * i) (t + 8 * i)).1 refl in rw e refl

  elsewhere : (a : ℕ) → a ≢ t + 8 * i → words' a ≡ p.words a
  unfolding store
  elsewhere a ne = ground (arith, ==_iff a (t + 8 * i))

  t-IsAligned : IsAligned t
  t-IsAligned = IsInUse-IsAligned p t (new.tree.in_use t (suc d) path new.here)

  zeros' : (k : ℕ) → k < 512 → words' (n + 8 * k) ≡ 0
  zeros' k lt =
      elsewhere (n + 8 * k) (λ e. new.fresh (suc d) path (
        ap label (same_word n t k i (IsInUse-IsAligned p n new.used_n) t-IsAligned lt new.small e).0
        ∙ new.here))
      ∙ new.zeros k lt

  -- The words of the tables: the new entry, and all others as they were.
  pub old_word :
      (s e j : ℕ) (q : List ℕ)
      → IsTable label s e q
      → j < 512
      → ((s ≡ t) × (j ≡ i) × (words' (s + 8 * j) ≡ n + 3))
        ⊎ (words' (s + 8 * j) ≡ p.words (s + 8 * j))
  old_word s e j q h lt = elim (Bool-cases (s + 8 * j == t + 8 * i)) [
    | inl same ↦
        (let eq = (==_iff (s + 8 * j) (t + 8 * i)).0 same in
          let (es, ej) =
            same_word s t j i (IsInUse-IsAligned p s (new.tree.in_use s e q h)) t-IsAligned lt
              new.small eq in
          inl (es, ej, ap words' eq ∙ stored))
    | inr other ↦ inr (elsewhere (s + 8 * j) (λ e. ground (arith, ==_iff (s + 8 * j) (t + 8 * i))))
  ]

  -- The entry is in no other page than the table.
  pub same_data : (s : ℕ) → IsData label p s → SameWords p.words words' s
  same_data s (u, no_table) k lt = elsewhere (s + 8 * k) (λ e. no_table (suc d) path (
      ap label (same_word s t k i (IsInUse-IsAligned p s u) t-IsAligned lt new.small e).0
      ∙ new.here))

  pub IsTree-extend : IsTree label' (record p { words = words' })
  IsTree-extend = record {
    valid = record { bytes = new.tree.valid.bytes; size = new.tree.valid.size };
    in_use = λ s e q h. elim (table-cases label n d (i ∷ path) new.fresh s e q h) [
      | inl made ↦ subst (IsInUse p) (sym made.0) new.used_n
      | inr old ↦ new.tree.in_use s e q old
    ];
    entry = λ s e q j h lt. elim (table-cases label n d (i ∷ path) new.fresh s (suc e) q h) [
      | inl made ↦ inl (ap (λ s. words' (s + 8 * j)) made.0 ∙ zeros' j lt)
      | inr old ↦ entries s e j q old lt (old_word s (suc e) j q old lt)
    ];
  }
    where
      entries :
          (s e j : ℕ) (q : List ℕ)
          → IsTable label s (suc e) q
          → j < 512
          → ((s ≡ t) × (j ≡ i) × (words' (s + 8 * j) ≡ n + 3))
            ⊎ (words' (s + 8 * j) ≡ p.words (s + 8 * j))
          → (words' (s + 8 * j) ≡ 0)
            ⊎ ((c : ℕ) × (words' (s + 8 * j) ≡ c + 3) × IsTable label' c e (j ∷ q))
      entries s e j q h lt (inl (es, ej, word)) =
          let (el, eq) = label_parts new.here (ap label (sym es) ∙ h) in
          let level : d ≡ e = omega arith in
          inr (n, word, extend_self label n d (i ∷ path) new.fresh ∙ cc (level, eq, ej))
      entries s e j q h lt (inr kept) = elim (new.tree.entry s e q j h lt) [
        | inl z ↦ inl (kept ∙ z)
        | inr (c, w, l) ↦
            inr (c, kept ∙ w, extend-table label n d (i ∷ path) new.fresh c e (j ∷ q) l)
      ]

  -- No walk ends at another entry than before.
  pub walk-extend :
      (e s virt_adr : ℕ) (q : List ℕ)
      → IsTable label s e q
      → walk words' e s virt_adr ≡ walk p.words e s virt_adr
  walk-extend zero s v q h = elim (old_word s zero (index 0 v) q h (omega arith)) [
    | inl (es, ej, word) ↦
        let (el, eq) = label_parts new.here (ap label (sym es) ∙ h) in absurd (omega arith)
    | inr kept ↦ unfold walk in kept
  ]
  walk-extend (suc e) s v q h = elim (old_word s (suc e) (index (suc e) v) q h (omega arith)) [
    | inl (es, ej, word) ↦
        (let old : p.words (s + 8 * index (suc e) v) ≡ 0 =
            ap₂ (λ s j. p.words (s + 8 * j)) es ej ∙ new.missing in
          walk-entry words' e s n v (IsInUse-IsAligned p n new.used_n) word
          ∙ walk-zeros words' e n v zeros'
          ∙ sym (walk-missing p.words e s v old))
    | inr kept ↦ elim (new.tree.entry s e q (index (suc e) v) h (omega arith)) [
      | inl z ↦ walk-missing words' e s v (kept ∙ z) ∙ sym (walk-missing p.words e s v z)
      | inr (c, w, l) ↦
          (let aligned = IsInUse-IsAligned p c (new.tree.in_use c e _ l) in
            walk-entry words' e s c v aligned (kept ∙ w)
            ∙ walk-extend e c v _ l
            ∙ sym (walk-entry p.words e s c v aligned w))
    ]
  ]
