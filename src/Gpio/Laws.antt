-- ===== src/Gpio/Laws.antt =====
-- What a write of a pin's field (include/peripherals/gpio.h) does to the fields of all pins.
use pell_os.Base.{
  false, refl, ap, sym, ◌∙◌, ◌&&◌, bit_or, bit_and, ℕ, ◌+◌, ◌-◌, ◌*◌, ◌/◌, ◌%◌, ◌^◌, ◌<◌, ◌≤◌, ◌≡◌,
  ◌≢◌, ◌⊎◌, inl, inr, arith, ◌==◌, ==_iff, Bool-cases, true, ltb, if◌then◌else◌,
}
use mathlib.Core.Path.{subst}
use pell_os.Base.Bits.{shl, not32}
use pell_os.Base.Digits.{digit, digit-field}
use pell_os.Gpio.{Registers, gpio_write_reg, reg_write}

-- Digit `j` of a pin's field among the registers from `base` on.
abbrev pub field_digit : (base pin j field_size : ℕ) → Registers → ℕ
field_digit base pin j field_size regs =
    digit (pin % (32 / field_size) * field_size + j) (regs (base + pin / (32 / field_size) * 4))

-- The write, for a pin and a value in range.
gpio_write_reg_lem :
    (base pin value w : ℕ) (regs : Registers)
    → pin ≤ 53
    → value < 2 ^ w
    → gpio_write_reg base pin value w regs ≡ (
      1,
      reg_write
          (base + pin / (32 / w) * 4)
          (bit_or
            (bit_and
              (regs (base + pin / (32 / w) * 4))
              (not32 (shl (2 ^ w - 1) (pin % (32 / w) * w))))
            (shl value (pin % (32 / w) * w)))
          regs,
    )
unfolding gpio_write_reg
gpio_write_reg_lem base pin value w regs known fits =
    let pins : ltb 53 pin ≡ false = ground arith in
    let one : shl 1 w ≡ 2 ^ w = omega arith in
    let values : ltb (2 ^ w - 1) value ≡ false = ground arith in rw (one, pins, values) refl

-- The word at an address after the write.
reg_write_lem :
    (a b v : ℕ) (regs : Registers) → reg_write a v regs b ≡ (if b == a then v else regs b)
unfolding reg_write
reg_write_lem a b v regs = refl

-- One digit of another pin's field, from where the two fields are: register `r` and position `s`,
-- and register `r'` and position `s'`.
digit-reg_write :
    (base r s r' s' value w j : ℕ) (regs : Registers)
    → value < 2 ^ w
    → s + w ≤ 32
    → s' + j < 32
    → j < w
    → (r ≡ r') × (s ≡ s') ⊎ ((r ≢ r') ⊎ ((s' + w ≤ s) ⊎ (s + w ≤ s')))
    → digit (s' + j) (
        reg_write
          (base + r * 4)
          (bit_or (bit_and (regs (base + r * 4)) (not32 (shl (2 ^ w - 1) s))) (shl value s))
          regs
          (base + r' * 4))
      ≡ (if r == r' && s == s' then digit j value else digit (s' + j) (regs (base + r' * 4)))
digit-reg_write base r s r' s' value w j regs fits room room' small places =
    let new = bit_or (bit_and (regs (base + r * 4)) (not32 (shl (2 ^ w - 1) s))) (shl value s) in
    let word = ap (digit (s' + j)) (reg_write_lem (base + r * 4) (base + r' * 4) new regs) in
    let field = digit-field w s (s' + j) value (regs (base + r * 4)) fits room room' in
    elim (Bool-cases (r == r')) [
      | inl same ↦
          (let e : r ≡ r' = (==_iff r r').0 same in
            let here : (base + r' * 4 == base + r * 4) ≡ true = ground (arith, e) in
            let old : digit (s' + j) (regs (base + r * 4)) ≡ digit (s' + j) (regs (base + r' * 4)) =
              ap (λ r. digit (s' + j) (regs (base + r * 4))) e in
            word ∙ rw (here, same) (ground (arith, e, places, field, old, ==_iff s s')))
      | inr other ↦
          (let away : (base + r' * 4 == base + r * 4) ≡ false = ground (arith, other) in
            word ∙ rw (away, other) refl)
    ]

-- The result of the write, and digit `j` of the field of pin `other` after it.
abbrev pub IsWritten : (base pin value other j field_size : ℕ) → Registers → Type 0
IsWritten base pin value other j field_size regs =
    ((gpio_write_reg base pin value field_size regs).0 ≡ 1)
    × (field_digit base other j field_size (gpio_write_reg base pin value field_size regs).1
        ≡ (if other == pin then digit j value else field_digit base other j field_size regs))

write_one :
    (base pin value other j : ℕ) (regs : Registers)
    → pin ≤ 53
    → value < 2 ^ 1
    → j < 1
    → IsWritten base pin value other j 1 regs
write_one base pin value other j regs known fits small =
    let test : (pin / 32 == other / 32 && pin % 32 * 1 == other % 32 * 1) ≡ (other == pin) =
      ground arith in
    rw (gpio_write_reg_lem base pin value 1 regs known fits) (
      refl,
      digit-reg_write base (pin / 32) (pin % 32 * 1) (other / 32) (other % 32 * 1) value 1 j regs
            fits (omega arith) (omega arith) small (grind arith)
          ∙ ap (λ b. if b then digit j value else field_digit base other j 1 regs) test,
    )

write_three :
    (base pin value other j : ℕ) (regs : Registers)
    → pin ≤ 53
    → value < 2 ^ 3
    → j < 3
    → IsWritten base pin value other j 3 regs
write_three base pin value other j regs known fits small =
    let test : (pin / 10 == other / 10 && pin % 10 * 3 == other % 10 * 3) ≡ (other == pin) =
      ground arith in
    rw (gpio_write_reg_lem base pin value 3 regs known fits) (
      refl,
      digit-reg_write base (pin / 10) (pin % 10 * 3) (other / 10) (other % 10 * 3) value 3 j regs
            fits (omega arith) (omega arith) small (grind arith)
          ∙ ap (λ b. if b then digit j value else field_digit base other j 3 regs) test,
    )

-- Fields of one digit or of three, the sizes that the callers pass: for a pin and a value in
-- range the write succeeds, the pin's field then holds the value, and every other pin's field what
-- it held.
pub gpio_write_reg-field :
    (base pin value field_size other j : ℕ) (regs : Registers)
    → (field_size ≡ 1) ⊎ (field_size ≡ 3)
    → pin ≤ 53
    → value < 2 ^ field_size
    → j < field_size
    → IsWritten base pin value other j field_size regs
gpio_write_reg-field base pin value w other j regs (inl e) known =
    subst (λ w. value < 2 ^ w → j < w → IsWritten base pin value other j w regs) (sym e)
      (write_one base pin value other j regs known)
gpio_write_reg-field base pin value w other j regs (inr e) known =
    subst (λ w. value < 2 ^ w → j < w → IsWritten base pin value other j w regs) (sym e)
      (write_three base pin value other j regs known)
