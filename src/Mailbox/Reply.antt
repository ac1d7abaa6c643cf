-- ===== src/Mailbox/Reply.antt =====
-- `mailbox_call` (src/peripherals/mailbox.c): it waits for the reply to its own message.
use pell_os.Base.{
  ℕ, zero, suc, ◌<◌, ◌≡◌, ◌≢◌, refl, arith, ◌==◌, ==_iff, false, true, some, bit_and, get_or,
}
use pell_os.Mailbox.{
  VideoCore, mbox_full, mbox_empty, mbox_response, request_word, wait, await_reply, mailbox_call,
}

module _ {S : Type 0} (v : VideoCore S) where
  -- After `n` polls with a bit of `mask` set, the status has none of them, and the state is `s'`.
  unfoldable pub Clears : (mask n : ℕ) → (s s' : S) → Type 0
  Clears mask zero s s' = (bit_and (v.status s).0 mask ≡ 0) × ((v.status s).1 ≡ s')
  Clears mask (suc n) s s' = (bit_and (v.status s).0 mask ≢ 0) × Clears mask n (v.status s).1 s'

  -- From `s` on, the processor replies to others `n` times and then to `r`, with each reply after
  -- fewer than `fuel` polls; `s'` is the state after that reply.
  unfoldable pub Replies : (fuel r n : ℕ) → (s s' : S) → Type 0
  Replies fuel r zero s s' =
      (m : ℕ) × (m < fuel)
      × (s₁ : S) × Clears mbox_empty m s s₁
      × ((v.read s₁).0 ≡ r)
      × ((v.read s₁).1 ≡ s')
  Replies fuel r (suc n) s s' =
      (m : ℕ) × (m < fuel)
      × (s₁ : S) × Clears mbox_empty m s s₁
      × ((v.read s₁).0 ≢ r)
      × Replies fuel r n (v.read s₁).1 s'

  wait-Clears :
      (fuel mask n : ℕ) (s s' : S) → n < fuel → Clears mask n s s' → wait v fuel mask s ≡ some s'
  unfolding wait Clears
  wait-Clears zero mask n s s' lt c = absurd (omega (arith, lt))
  wait-Clears (suc fuel) mask zero s s' lt (clear, e) = rw (clear, e) refl
  wait-Clears (suc fuel) mask (suc n) s s' lt (busy, c) =
      let e : (bit_and (v.status s).0 mask == 0) ≡ false = ground (arith, busy) in
      rw e (wait-Clears fuel mask n (v.status s).1 s' (omega (arith, lt)) c)

  await_reply-Replies :
      (rounds fuel r n : ℕ) (s s' : S)
      → n < rounds
      → Replies fuel r n s s'
      → await_reply v rounds fuel r s ≡ some (get_or (v.mbox s') 1 0 == mbox_response, s')
  unfolding await_reply Replies
  await_reply-Replies zero fuel r n s s' lt x = absurd (omega (arith, lt))
  await_reply-Replies (suc rounds) fuel r zero s s' lt (m, lt', s₁, c, own, e) =
      let same : ((v.read s₁).0 == r) ≡ true = (==_iff (v.read s₁).0 r).1 own in
      rw (wait-Clears fuel mbox_empty m s s₁ lt' c, same, e) refl
  await_reply-Replies (suc rounds) fuel r (suc n) s s' lt (m, lt', s₁, c, other, x) =
      let e : ((v.read s₁).0 == r) ≡ false = ground (arith, other) in
      rw (wait-Clears fuel mbox_empty m s s₁ lt' c, e)
        (await_reply-Replies rounds fuel r n (v.read s₁).1 s' (omega (arith, lt)) x)

  -- The processor takes the word `r`, and replies to it.
  pub record Exchange (rounds fuel r : ℕ) (s s' : S) : Type 0 where
    pub polls : ℕ
    pub soon : polls < fuel
    pub free : S
    pub clears : Clears mbox_full polls s free
    pub foreign : ℕ
    pub few : foreign < rounds
    pub replies : Replies fuel r foreign (v.write r free) s'

  pub mailbox_call-Exchange :
      (rounds fuel mbox_adr ch : ℕ) (s s' : S)
      → Exchange rounds fuel (request_word mbox_adr ch) s s'
      → mailbox_call v rounds fuel mbox_adr ch s
        ≡ some (get_or (v.mbox s') 1 0 == mbox_response, s')
  unfolding mailbox_call
  mailbox_call-Exchange rounds fuel mbox_adr ch s s' x =
      rw (wait-Clears fuel mbox_full x.polls s x.free x.soon x.clears) (
        await_reply-Replies rounds fuel (request_word mbox_adr ch) x.foreign
          (v.write (request_word mbox_adr ch) x.free) s' x.few x.replies)
