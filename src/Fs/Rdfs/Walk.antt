-- ===== src/Fs/Rdfs/Walk.antt =====
-- The resolution of a path (`rdfs_file_get_id_from_path` of src/fs/rdfs/rdfs.c), as a walk over the
-- names of the path.
use pell_os.Base.{
  ℕ, zero, suc, ◌+◌, ◌^◌, ◌≢◌, false, lt→ltb, ◌<◌, ◌≤◌, ◌≡◌, ◌⊎◌, inl, inr, refl, sym, ap, ◌∙◌,
  Option, none, some, List, [], ◌∷◌, arith, ◌==◌, ==_iff, length, All, Bool-cases,
}
use mathlib.Core.Path.{subst}
use pell_os.Base.Memory.{Memory}
use pell_os.Fs.Rdfs.{
  Partition, strcmp, filename, cut_name, next_filename, directory_ids, get_file_list_from_dir_id,
  get_file_id_from_list_and_name, resolve, file_get_id_from_path,
}
use pell_os.Fs.Rdfs.Strings.{
  StandsAt, IsCharacter, strcmp-StandsAt, components, components-cut_name, length-cut_name,
  cut_name-IsCharacter,
}

-- A name that the code can hold in its block.
abbrev pub IsName : List ℕ → Type 0
IsName name = (0 < length name) × (length name < 2 ^ 16)

module _ (p : Partition) (mem : Memory) where
  -- `id` is the first of the list whose file has the name.
  abbrev pub Finds : List ℕ → List ℕ → ℕ → Type 0
  Finds name [] id = ⊥
  Finds name (x ∷ xs) id =
      (StandsAt mem (filename p mem x) name × (x ≡ id))
      ⊎ ((¬ StandsAt mem (filename p mem x) name) × Finds name xs id)

  -- The names lead from the directory to `id`.
  abbrev pub Reaches : ℕ → List (List ℕ) → ℕ → Type 0
  Reaches dir [] id = dir ≡ id
  Reaches dir (name ∷ names) id =
      (child : ℕ) × Finds name (directory_ids p mem dir) child × Reaches child names id

  module _ (bytes : (a : ℕ) → mem a < 256) where
    abbrev Found : List ℕ → List ℕ → Type 0
    Found name ids =
        ((id : ℕ) × (get_file_id_from_list_and_name p mem ids name ≡ some id)
          × Finds name ids id
          × ((id' : ℕ) → Finds name ids id' → id ≡ id'))
        ⊎ ((get_file_id_from_list_and_name p mem ids name ≡ none)
            × ((id : ℕ) → ¬ Finds name ids id))

    lookup-Finds : (name ids : List ℕ) → All IsCharacter name → Found name ids
    unfolding get_file_id_from_list_and_name
    lookup-Finds name [] chars = inr (refl, λ id f. f)
    lookup-Finds name (x ∷ xs) chars =
        let same = strcmp-StandsAt mem (filename p mem x) name bytes chars in
        elim (Bool-cases (strcmp mem (filename p mem x) name == 0)) [
          | inl e ↦
              let here = same.0 ((==_iff _ 0).0 e) in
              inl (
                x,
                rw e refl,
                inl (here, refl),
                λ id' f. elim f [ inl (_, q) ↦ q | inr (other, _) ↦ absurd (other here) ],
              )
          | inr e ↦
              let other : ¬ StandsAt mem (filename p mem x) name =
                λ h. ground (arith, (==_iff (strcmp mem (filename p mem x) name) 0).1 (same.1 h)) in
              elim (lookup-Finds name xs chars) [
                | inl (id, q, f, unique) ↦ inl (
                  id,
                  rw e q,
                  inr (other, f),
                  λ id' f'. elim f' [ inl (h, _) ↦ absurd (other h) | inr (_, g) ↦ unique id' g ],
                )
                | inr (q, never) ↦
                    inr (rw e q, λ id f. elim f [ inl (h, _) ↦ other h | inr (_, g) ↦ never id g ])
              ]
        ]

    abbrev pub Resolved : Option (Option ℕ) → ℕ → List (List ℕ) → Type 0
    Resolved r dir names =
        ((id : ℕ) × (r ≡ some (some id))
          × Reaches dir names id
          × ((id' : ℕ) → Reaches dir names id' → id ≡ id'))
        ⊎ ((r ≡ some none) × ((id : ℕ) → ¬ Reaches dir names id))

    module _ (heap : ℕ → ℕ) (given : (n : ℕ) → heap n ≢ 0) where
      next_filename_lem :
          (n : ℕ) (path : List ℕ)
          → IsName (cut_name path).0
          → next_filename (heap n) path ≡ some (cut_name path)
      unfolding next_filename
      next_filename_lem n path (some_chars, fits) =
          let block : (heap n == 0) ≡ false = ground (arith, given n) in
          let nonempty : (length (cut_name path).0 == 0) ≡ false = ground (arith, some_chars) in
          rw (block, nonempty, lt→ltb (length (cut_name path).0) (2 ^ 16) fits) refl

      list_lem :
          (n dir : ℕ)
          → get_file_list_from_dir_id p mem (heap n) dir ≡ some (some (directory_ids p mem dir))
      unfolding get_file_list_from_dir_id
      list_lem n dir = let block : (heap n == 0) ≡ false = ground (arith, given n) in rw block refl

      -- One round of the loop, by what the look-up of the first name gives.
      resolve-next :
          (fuel n c : ℕ) (path : List ℕ) (dir : ℕ) (r : Option ℕ)
          → IsName (cut_name (c ∷ path)).0
          → get_file_id_from_list_and_name p mem (directory_ids p mem dir) (cut_name (c ∷ path)).0
            ≡ r
          → resolve p mem heap (suc fuel) n (c ∷ path) dir ≡ elim r [
            | none ↦ some none
            | some id ↦ resolve p mem heap fuel (n + 2) (cut_name (c ∷ path)).1 id
          ]
      unfolding resolve
      resolve-next fuel n c path dir r name e =
          rw (next_filename_lem n (c ∷ path) name, list_lem (n + 1) dir)
            (ap
              (λ o. elim o as (λ o. Option (Option ℕ)) [
                | none ↦ some none
                | some id ↦ resolve p mem heap fuel (n + 2) (cut_name (c ∷ path)).1 id
              ])
              e)

      resolve-Reaches :
          (fuel n : ℕ) (path : List ℕ) (dir : ℕ)
          → length path ≤ fuel
          → All IsCharacter path
          → All IsName (components path)
          → Resolved (resolve p mem heap fuel n path dir) dir (components path)
      unfolding resolve
      resolve-Reaches zero n [] dir h chars named = inl (dir, refl, refl, λ id q. q)
      resolve-Reaches (suc fuel) n [] dir h chars named = inl (dir, refl, refl, λ id q. q)
      resolve-Reaches zero n (c ∷ path) dir h chars named = absurd (omega arith)
      resolve-Reaches (suc fuel) n (c ∷ path) dir h chars named =
          let name = (cut_name (c ∷ path)).0 in
          let rest = (cut_name (c ∷ path)).1 in
          let ids = directory_ids p mem dir in
          let chars' = cut_name-IsCharacter (c ∷ path) chars in
          let named' : All IsName (name ∷ components rest) =
            subst (All IsName) (components-cut_name c path) named in
          subst (Resolved (resolve p mem heap (suc fuel) n (c ∷ path) dir) dir)
            (sym (components-cut_name c path))
            (elim (lookup-Finds name ids chars'.0) [
              | inr (e, never) ↦ inr (
                resolve-next fuel n c path dir none named'.0 e,
                λ id (child, f, _). never child f,
              )
              | inl (child, e, f, unique) ↦
                  elim (resolve-Reaches fuel (n + 2) rest child
                    (omega (arith, length-cut_name c path)) chars'.1 named'.1) [
                      | inl (id, q, r, only) ↦ inl (
                        id,
                        resolve-next fuel n c path dir (some child) named'.0 e ∙ q,
                        (child, f, r),
                        λ id' (child', f', r'). only id' (
                            subst (λ d. Reaches d (components rest) id') (sym (unique child' f'))
                              r'),
                      )
                      | inr (q, never) ↦ inr (
                        resolve-next fuel n c path dir (some child) named'.0 e ∙ q,
                        λ id (child', f', r'). never id (
                            subst (λ d. Reaches d (components rest) id) (sym (unique child' f'))
                              r'),
                      )
                    ]
            ])

      -- In a memory of bytes, with blocks from the heap, a path whose characters are not 0 and whose
      -- names have from 1 to 65535 characters is resolved to the one file that these names, after the
      -- first character of the path, lead to from the root, or to -1 if they lead to none.
      pub file_get_id_from_path-Reaches :
          (c : ℕ) (path : List ℕ)
          → All IsCharacter path
          → All IsName (components path)
          → Resolved (file_get_id_from_path p mem heap (c ∷ path)) 0 (components path)
      unfolding file_get_id_from_path
      file_get_id_from_path-Reaches c path chars named =
          resolve-Reaches (length path) 0 path 0 (omega arith) chars named
