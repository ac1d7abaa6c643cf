-- ===== src/Base/WordBytes.antt =====
-- The bytes of a memory of 64-bit words (`ldrb` and `strb` of src/asm/utils.S): byte `i` of a word
-- is its bits from 8 * i on.
use Prim.Native.Nat.{ℕ, zero, suc, ◌+◌, ◌*◌, ◌/◌, ◌%◌, ◌<◌, ◌≤◌}
use mathlib.Core.Path.{◌≡◌, refl, ap, ◌∙◌}
use mathlib.Core.Logic.{◌≢◌, ◌⊎◌, inl, inr}
use mathlib.Core.Bool.{false}
use native.Mathlib.Omega.{arith}
use pell_os.Base.Tests.{◌==◌, ==_iff, ==_refl, if◌then◌else◌, Bool-cases}

unfoldable pub byte_of : (word i : ℕ) → ℕ
byte_of word zero = word % 256
byte_of word (suc i) = byte_of (word / 256) i

unfoldable with_byte : (word i value : ℕ) → ℕ
with_byte word zero value = word / 256 * 256 + value % 256
with_byte word (suc i) value = word % 256 + 256 * with_byte (word / 256) i value

-- The byte at an address.
unfoldable pub load_byte : (ℕ → ℕ) → ℕ → ℕ
unfolding byte_of
load_byte w a = byte_of (w (a / 8 * 8)) (a % 8)

-- One byte is stored.
unfoldable pub put_byte : (a value : ℕ) → (ℕ → ℕ) → ℕ → ℕ
unfolding with_byte
put_byte a value w b = if b == a / 8 * 8 then with_byte (w b) (a % 8) value else w b

-- `n` bytes, one after the other.
unfoldable pub copy_word_bytes : (n dest src : ℕ) → (ℕ → ℕ) → ℕ → ℕ
unfolding load_byte put_byte
copy_word_bytes zero dest src w = w
copy_word_bytes (suc n) dest src w =
    copy_word_bytes n (dest + 1) (src + 1) (put_byte dest (load_byte w src) w)

byte_of-with_byte : (word i value : ℕ) → byte_of (with_byte word i value) i ≡ value % 256
unfolding byte_of with_byte
byte_of-with_byte word zero value = omega arith
byte_of-with_byte word (suc i) value =
    let rest = with_byte (word / 256) i value in
    let e : (word % 256 + 256 * rest) / 256 ≡ rest = omega arith in
    ap (λ x. byte_of x i) e ∙ byte_of-with_byte (word / 256) i value

byte_of-with_byte_ne :
    (word i j value : ℕ) → i ≢ j → byte_of (with_byte word i value) j ≡ byte_of word j
unfolding byte_of with_byte
byte_of-with_byte_ne word zero zero value ne = absurd (ne refl)
byte_of-with_byte_ne word zero (suc j) value ne = ap (λ x. byte_of x j) (omega arith)
byte_of-with_byte_ne word (suc i) zero value ne = omega arith
byte_of-with_byte_ne word (suc i) (suc j) value ne =
    let rest = with_byte (word / 256) i value in
    let e : (word % 256 + 256 * rest) / 256 ≡ rest = omega arith in
    ap (λ x. byte_of x j) e ∙ byte_of-with_byte_ne (word / 256) i j value (λ same. ne (ap suc same))

byte_of-small : (word i : ℕ) → byte_of word i % 256 ≡ byte_of word i
unfolding byte_of
byte_of-small word zero = omega arith
byte_of-small word (suc i) = byte_of-small (word / 256) i

load_byte-small : (w : ℕ → ℕ) (a : ℕ) → load_byte w a % 256 ≡ load_byte w a
unfolding load_byte
load_byte-small w a = byte_of-small (w (a / 8 * 8)) (a % 8)

pub load_byte-put_byte :
    (a value b : ℕ) (w : ℕ → ℕ)
    → load_byte (put_byte a value w) b ≡ (if b == a then value % 256 else load_byte w b)
unfolding load_byte put_byte
load_byte-put_byte a value b w = elim (Bool-cases (b / 8 * 8 == a / 8 * 8)) [
  | inl e ↦
      let same : b / 8 * 8 ≡ a / 8 * 8 = (==_iff (b / 8 * 8) (a / 8 * 8)).0 e in
      elim (Bool-cases (b == a)) [
        | inl here ↦
            let place : b % 8 ≡ a % 8 = ap (λ x. x % 8) ((==_iff b a).0 here) in
            rw (e, here, place) (byte_of-with_byte (w (b / 8 * 8)) (a % 8) value)
        | inr other ↦
            let place : a % 8 ≢ b % 8 = λ q. ground (arith, same, other, q) in
            rw (e, other) (byte_of-with_byte_ne (w (b / 8 * 8)) (a % 8) (b % 8) value place)
      ]
  | inr e ↦ let other : (b == a) ≡ false = ground (arith, e) in rw (e, other) refl
]

-- Words without a byte that is copied to.
pub copy_word_bytes-outside :
    (n dest src : ℕ) (w : ℕ → ℕ) (a : ℕ)
    → ((k : ℕ) → k < n → a ≢ (dest + k) / 8 * 8)
    → copy_word_bytes n dest src w a ≡ w a
unfolding copy_word_bytes put_byte
copy_word_bytes-outside zero dest src w a away = refl
copy_word_bytes-outside (suc n) dest src w a away =
    copy_word_bytes-outside n (dest + 1) (src + 1) _ a
      (λ k lt e. away (suc k) (omega arith) (e ∙ ap (λ x. x / 8 * 8) (omega arith)))
    ∙ (let other : (a == dest / 8 * 8) ≡ false = ground (arith, away 0 (omega arith)) in
        rw other refl)

-- A byte outside the range that is written.
load_byte-outside :
    (n dest src : ℕ) (w : ℕ → ℕ) (b : ℕ)
    → (b < dest) ⊎ (dest + n ≤ b)
    → load_byte (copy_word_bytes n dest src w) b ≡ load_byte w b
unfolding copy_word_bytes
load_byte-outside zero dest src w b out = refl
load_byte-outside (suc n) dest src w b out =
    let other : (b == dest) ≡ false = ground (arith, out) in
    load_byte-outside n (dest + 1) (src + 1) (put_byte dest (load_byte w src) w) b
      (elim out [ inl h ↦ inl (omega arith) | inr h ↦ inr (omega arith) ])
    ∙ load_byte-put_byte dest (load_byte w src) b w
    ∙ rw other refl

-- What was copied, when the source has none of the bytes that are written.
pub load_byte-copied :
    (n dest src : ℕ) (w : ℕ → ℕ) (k : ℕ)
    → (src + n ≤ dest) ⊎ (dest + n ≤ src)
    → k < n
    → load_byte (copy_word_bytes n dest src w) (dest + k) ≡ load_byte w (src + k)
unfolding copy_word_bytes
load_byte-copied zero dest src w k apart lt = absurd (omega arith)
load_byte-copied (suc n) dest src w zero apart lt =
    let b : dest + 0 ≡ dest = omega arith in
    let b' : src + 0 ≡ src = omega arith in
    load_byte-outside n (dest + 1) (src + 1) (put_byte dest (load_byte w src) w) (dest + 0)
      (inl (omega arith))
    ∙ load_byte-put_byte dest (load_byte w src) (dest + 0) w
    ∙ rw (b, b', ==_refl dest) (load_byte-small w src)
load_byte-copied (suc n) dest src w (suc k) apart lt =
    let d : dest + suc k ≡ dest + 1 + k = omega arith in
    let s : src + suc k ≡ src + 1 + k = omega arith in
    let other : (src + 1 + k == dest) ≡ false = ground (arith, apart) in
    ap (load_byte (copy_word_bytes n (dest + 1) (src + 1) (put_byte dest (load_byte w src) w))) d
    ∙ load_byte-copied n (dest + 1) (src + 1) (put_byte dest (load_byte w src) w) k
        (elim apart [ inl h ↦ inl (omega arith) | inr h ↦ inr (omega arith) ]) (omega arith)
    ∙ load_byte-put_byte dest (load_byte w src) (src + 1 + k) w
    ∙ rw (other, s) refl
