-- ===== src/Mm/Paging/CopyWords.antt =====
-- `memcpy` (src/asm/utils.S) of whole words, as `copy_virtual_memory` of src/mm/paging.c uses it.
use pell_os.Base.{
  ℕ, zero, suc, ◌+◌, ◌*◌, ◌<◌, ◌≡◌, ◌≢◌, refl, ap, ◌∙◌, arith, ◌==◌, ==_iff, true, false,
}
use pell_os.Mm.Pages.{store}
use pell_os.Mm.Paging.{copy_words}
use pell_os.Mm.Paging.Walk.{IsAligned}
use pell_os.Mm.Paging.Tree.{SameWords, same_word}

copy_words-outside :
    (n dest src : ℕ) (w : ℕ → ℕ) (a : ℕ)
    → ((k : ℕ) → k < n → a ≢ dest + 8 * k)
    → copy_words n dest src w a ≡ w a
unfolding copy_words store
copy_words-outside zero dest src w a away = refl
copy_words-outside (suc n) dest src w a away =
    copy_words-outside n (dest + 8) (src + 8) (store w dest (w src)) a
      (λ k lt e. away (suc k) (omega arith) (omega arith))
    ∙ ground (arith, away 0 (omega arith), ==_iff a dest)

copy_words-inside :
    (n dest src : ℕ) (w : ℕ → ℕ) (k : ℕ)
    → ((i j : ℕ) → i < n → j < n → src + 8 * i ≢ dest + 8 * j)
    → k < n
    → copy_words n dest src w (dest + 8 * k) ≡ w (src + 8 * k)
unfolding copy_words store
copy_words-inside zero dest src w k apart lt = absurd (omega arith)
copy_words-inside (suc n) dest src w zero apart lt =
    let e : (dest + 8 * 0 == dest) ≡ true = ground arith in
    let e' : src + 8 * 0 ≡ src = omega arith in
    copy_words-outside n (dest + 8) (src + 8) (store w dest (w src)) (dest + 8 * 0)
      (λ k lt. omega arith)
    ∙ rw (e, e') refl
copy_words-inside (suc n) dest src w (suc k) apart lt =
    let d : dest + 8 * suc k ≡ dest + 8 + 8 * k = omega arith in
    let s : src + 8 * suc k ≡ src + 8 + 8 * k = omega arith in
    let away : (src + 8 * suc k == dest) ≡ false =
      ground (arith, apart (suc k) 0, ==_iff (src + 8 * suc k) dest) in
    ap (copy_words n (dest + 8) (src + 8) (store w dest (w src))) d
    ∙ copy_words-inside n (dest + 8) (src + 8) (store w dest (w src)) k
        (λ i j hi hj e. apart (suc i) (suc j) (omega arith) (omega arith) (omega arith))
        (omega arith)
    ∙ rw (← s, away) refl

-- A page copied to another page: the words arrive, and those of other pages are kept.
module _ (dest src : ℕ) (w : ℕ → ℕ) (hd : IsAligned dest) where
  pub copied_words :
      IsAligned src
      → src ≢ dest
      → (k : ℕ) → k < 512
      → copy_words 512 dest src w (dest + 8 * k) ≡ w (src + 8 * k)
  copied_words hs ne k lt =
      copy_words-inside 512 dest src w k
        (λ i j hi hj e. ne (same_word src dest i j hs hd hi hj e).0) lt

  pub other_words : (t : ℕ) → IsAligned t → t ≢ dest → SameWords w (copy_words 512 dest src w) t
  other_words t ht ne k lt =
      copy_words-outside 512 dest src w (t + 8 * k)
        (λ j hj e. ne (same_word t dest k j ht hd lt hj e).0)
