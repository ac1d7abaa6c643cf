-- ===== src/Mm/Pages/Zero.antt =====
-- `memzero` (src/asm/utils.S) over a page.
use pell_os.Base.{ℕ, zero, suc, ◌+◌, ◌*◌, ◌≤◌, ◌<◌, ◌≡◌, ◌≢◌, ◌⊎◌, refl, ◌∙◌, arith}
use pell_os.Mm.Pages.{store, memzero_loop, memzero, page_size}

memzero_loop-outside :
    (n start : ℕ) (w : ℕ → ℕ) (a : ℕ)
    → ((k : ℕ) → k < n → a ≢ start + 8 * k)
    → memzero_loop n start w a ≡ w a
unfolding memzero_loop store
memzero_loop-outside zero start w a h = refl
memzero_loop-outside (suc n) start w a h =
    memzero_loop-outside n (start + 8) (store w start 0) a
      (λ k hk e. h (suc k) (omega arith) (omega arith))
    ∙ ground (arith, h 0 (omega arith))

memzero_loop-inside :
    (n start : ℕ) (w : ℕ → ℕ) (k : ℕ) → k < n → memzero_loop n start w (start + 8 * k) ≡ 0
unfolding memzero_loop store
memzero_loop-inside zero start w k h = absurd (omega arith)
memzero_loop-inside (suc n) start w zero h =
    memzero_loop-outside n (start + 8) (store w start 0) (start + 8 * 0) (λ j hj. omega arith)
    ∙ ground arith
memzero_loop-inside (suc n) start w (suc k) h =
    let e : start + 8 * suc k ≡ start + 8 + 8 * k = omega arith in
    rw e (memzero_loop-inside n (start + 8) (store w start 0) k (omega arith))

-- The 512 words of a page become 0.
pub memzero_inside :
    (start : ℕ) (w : ℕ → ℕ) (k : ℕ) → k < 512 → memzero start page_size w (start + 8 * k) ≡ 0
unfolding memzero
memzero_inside start w k h = memzero_loop-inside 512 start w k h

-- The words before and behind the page stay.
pub memzero_outside :
    (start : ℕ) (w : ℕ → ℕ) (a : ℕ)
    → (a < start) ⊎ (start + page_size ≤ a)
    → memzero start page_size w a ≡ w a
unfolding memzero
memzero_outside start w a h = memzero_loop-outside 512 start w a (λ k hk e. omega arith)
