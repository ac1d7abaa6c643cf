-- ===== src/Mailbox.antt =====
-- The mailbox to the graphics processor (src/peripherals/mailbox.c, include/peripherals/mailbox.h). The
-- processor is a parameter: what its registers hold and what it makes of the message `mbox`.
pub mod Reply
mod Tests
use pell_os.Base.{
  ℕ, zero, suc, ◌+◌, ◌-◌, ◌%◌, Bool, Option, none, some, List, bit_and, bit_or, ◌==◌, if◌then◌else◌,
  ◌>>=◌, get_or,
}

abbrev pub mbox_response : ℕ
mbox_response = 0x8000_0000

abbrev pub mbox_full : ℕ
mbox_full = 0x8000_0000

abbrev pub mbox_empty : ℕ
mbox_empty = 0x4000_0000

-- The graphics processor, with the registers `MBOX_STATUS`, `MBOX_READ` and `MBOX_WRITE`, and the
-- message in memory, which both sides read and write.
pub record VideoCore (S : Type 0) : Type 0 where
  pub status : S → ℕ × S
  pub read : S → ℕ × S
  pub write : ℕ → S → S
  pub mbox : S → List ℕ
  pub set_mbox : List ℕ → S → S

-- The word that is sent: the upper 28 bits of the message's address, and the channel.
abbrev pub request_word : (mbox_adr ch : ℕ) → ℕ
request_word mbox_adr ch =
    let adr = mbox_adr % 0x1_0000_0000 in bit_or (adr - bit_and adr 0xF) (bit_and ch 0xF)

module _ {S : Type 0} (v : VideoCore S) where
  -- `while (reg_read(MBOX_STATUS) & mask);`, with fuel.
  unfoldable pub wait : (fuel mask : ℕ) → S → Option S
  wait zero mask s = none
  wait (suc fuel) mask s =
      let (value, s') = v.status s in
      let rest = wait fuel mask s' in if bit_and value mask == 0 then some s' else rest

  -- The endless loop, with fuel for its rounds and for each wait.
  unfoldable pub await_reply : (rounds fuel r : ℕ) → S → Option (Bool × S)
  unfolding wait
  await_reply zero fuel r s = none
  await_reply (suc rounds) fuel r s = do
    s₁ ← wait fuel mbox_empty s
    let (value, s₂) = v.read s₁
    let rest = await_reply rounds fuel r s₂
    if value == r then some (get_or (v.mbox s₂) 1 0 == mbox_response, s₂) else rest

  unfoldable pub mailbox_call : (rounds fuel mbox_adr ch : ℕ) → S → Option (Bool × S)
  unfolding wait await_reply
  mailbox_call rounds fuel mbox_adr ch s = do
    s₁ ← wait fuel mbox_full s
    await_reply rounds fuel (request_word mbox_adr ch) (v.write (request_word mbox_adr ch) s₁)
