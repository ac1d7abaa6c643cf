-- ===== src/Gic/Laws.antt =====
-- Which interrupts are enabled (src/irq.c).
use pell_os.Base.{
  ℕ, ◌+◌, ◌*◌, ◌/◌, ◌%◌, ◌<◌, ◌≤◌, ◌≡◌, ◌⊎◌, ◌||◌, refl, ap, ◌∙◌, arith, ◌==◌, Bool, true, false,
  not, ◌&&◌, Bool-cases, inl, inr, if◌then◌else◌,
}
use pell_os.Base.Bits.{shl}
use pell_os.Base.Digits.{digit, digit-bit}
use pell_os.Gic.{
  Registers, set_bits, reg_store, assign_targets, enable_isr, enable_interrupt_controller,
  system_timer_irq_1, arm_generic_timer, irq_gicd_isr_enable, irq_gicd_irq_target, irq_gicd_base,
  irq_gicc_base, irq_gicc_pmr,
}

-- 1 if interrupt `n` is enabled.
abbrev pub enabled : ℕ → Registers → ℕ
enabled n regs = digit (n % 32) (regs (irq_gicd_isr_enable + n / 32 * 4))

-- The address is not one of the registers that enable interrupts below 1024.
abbrev IsElsewhere : ℕ → Type 0
IsElsewhere a = (a + 4 ≤ irq_gicd_isr_enable) ⊎ (irq_gicd_isr_enable + 128 ≤ a)

enabled-set_bits :
    (a bits n : ℕ) (regs : Registers)
    → IsElsewhere a
    → n < 1024
    → enabled n (set_bits a bits regs) ≡ enabled n regs
unfolding set_bits reg_store
enabled-set_bits a bits n regs away small =
    let other : (irq_gicd_isr_enable + n / 32 * 4 == a) ≡ false = ground arith in rw other refl

enabled-assign_targets :
    (i t n : ℕ) (regs : Registers) → n < 1024 → enabled n (assign_targets i t regs) ≡ enabled n regs
unfolding assign_targets
enabled-assign_targets i t n regs =
    enabled-set_bits (irq_gicd_irq_target + i / 4 * 4) (shl 1 (i % 4 * 8 + t)) n regs
      (inr (omega arith))

-- Enabling an interrupt enables that one and changes no other.
enabled-enable_isr :
    (i n : ℕ) (regs : Registers)
    → enabled n (enable_isr i regs) ≡ (if n == i then 1 else enabled n regs)
unfolding enable_isr set_bits reg_store
enabled-enable_isr i n regs =
    let bits = digit-bit (i % 32) (n % 32) (regs (irq_gicd_isr_enable + i / 32 * 4)) in
    elim (Bool-cases (irq_gicd_isr_enable + n / 32 * 4 == irq_gicd_isr_enable + i / 32 * 4)) [
      | inl same ↦
          (let block : i / 32 ≡ n / 32 = ground (arith, same) in
            let word = ap (λ b. digit (n % 32) (regs (irq_gicd_isr_enable + b * 4))) block in
            rw same (bits ∙ ground (arith, block, word)))
      | inr other ↦
          (let differ : (n == i) ≡ false = ground (arith, other) in rw (other, differ) refl)
    ]

first :
    (n : ℕ) (regs : Registers)
    → n < 1024
    → enabled n (enable_isr system_timer_irq_1 (assign_targets system_timer_irq_1 0 regs))
      ≡ (if n == system_timer_irq_1 then 1 else enabled n regs)
first n regs small =
    enabled-enable_isr system_timer_irq_1 n (assign_targets system_timer_irq_1 0 regs)
    ∙ ap (λ e. if n == system_timer_irq_1 then 1 else e)
        (enabled-assign_targets system_timer_irq_1 0 n regs small)

-- After `enable_interrupt_controller` the system timer's interrupt is enabled; if no tick occured
-- during the wait, so is the generic timer's; and every other interrupt below 1024 is enabled just
-- if it was before.
pub enable_interrupt_controller-enabled :
    (tick_occured : Bool) (n : ℕ) (regs : Registers)
    → n < 1024
    → enabled n (enable_interrupt_controller tick_occured regs) ≡ (
        if n == system_timer_irq_1 || (not tick_occured && n == arm_generic_timer)
        then 1
        else enabled n regs)
unfolding enable_interrupt_controller
enable_interrupt_controller-enabled true n regs small = first n regs small ∙ ground arith
enable_interrupt_controller-enabled false n regs small =
    let regs₁ = enable_isr system_timer_irq_1 (assign_targets system_timer_irq_1 0 regs) in
    let regs₂ = set_bits irq_gicd_base 3 regs₁ in
    let regs₃ = set_bits irq_gicc_base 3 regs₂ in
    let regs₄ = set_bits irq_gicc_pmr 0xFF regs₃ in
    let kept₂ = enabled-set_bits irq_gicd_base 3 n regs₁ (inl (omega arith)) small in
    let kept₃ = enabled-set_bits irq_gicc_base 3 n regs₂ (inr (omega arith)) small in
    let kept₄ = enabled-set_bits irq_gicc_pmr 0xFF n regs₃ (inr (omega arith)) small in
    let kept₅ = enabled-assign_targets arm_generic_timer 0 n regs₄ small in
    enabled-enable_isr arm_generic_timer n (assign_targets arm_generic_timer 0 regs₄)
    ∙ ap (λ e. if n == arm_generic_timer then 1 else e)
        (kept₅ ∙ kept₄ ∙ kept₃ ∙ kept₂ ∙ first n regs small)
    ∙ ground arith
