-- ===== src/Uart/Sent.antt =====
-- What the serial line (src/peripherals/uart.c) sends.
use pell_os.Base.{
  ℕ, zero, suc, ◌+◌, ◌-◌, ◌<◌, ◌≡◌, ◌≢◌, refl, sym, ap, ◌∙◌, arith, inl, inr, Bool-cases, ◌==◌,
  ==_iff, Option, some, true, false, List, [], ◌∷◌, ◌++◌, ◌>>=◌, bit_and,
}
use mathlib.Core.List.{append_assoc, append-nil}
use pell_os.Base.Memory.{Memory}
use pell_os.Uart.{
  Line, uart_tx_ready, uart_write_byte_blocks, transmit_loop, uart_transmit, transmit_until,
  uart_transmit_str, uart_transmit_to_end_line,
}

-- From every poll on, one of the next `fuel` polls finds the device ready.
abbrev pub IsReady : (ℕ → ℕ) → ℕ → Type 0
IsReady lsr fuel = (t : ℕ) → (d : ℕ) × (d < fuel) × (bit_and (lsr (t + d)) 0x20 ≢ 0)

-- The bytes from `buff i` on.
abbrev pub bytes_of : Memory → (i n : ℕ) → List ℕ
bytes_of buff i zero = []
bytes_of buff i (suc n) = buff i ∷ bytes_of buff (i + 1) n

-- The computation ends, and has sent these bytes.
pub record Sends (s : Line) (bytes : List ℕ) (r : Option Line) : Type 0 where
  pub line : Line
  pub result : r ≡ some line
  pub sent : line.sent ≡ s.sent ++ bytes

module _ (lsr : ℕ → ℕ) where
  write_ready :
      (fuel byte d : ℕ) (s : Line)
      → d < fuel
      → bit_and (lsr (s.polls + d)) 0x20 ≢ 0
      → Sends s (byte ∷ []) (uart_write_byte_blocks lsr fuel byte s)
  unfolding uart_write_byte_blocks
  write_ready zero byte d s lt ready = absurd (omega (arith, lt))
  write_ready (suc fuel) byte d s lt ready = elim (Bool-cases (uart_tx_ready lsr s == 0)) [
    | inl busy ↦
        let later : d ≢ 0 = λ z. ready (
          ap (λ t. bit_and (lsr (s.polls + t)) 0x20) z
          ∙ ap (λ t. bit_and (lsr t) 0x20) (omega arith)
          ∙ (==_iff (uart_tx_ready lsr s) 0).0 busy) in
        let poll : s.polls + d ≡ s.polls + 1 + (d - 1) = omega (arith, later) in
        let rest =
          write_ready fuel byte (d - 1) (record s { polls = s.polls + 1 })
            (omega (arith, lt, later)) (λ z. ready (ap (λ t. bit_and (lsr t) 0x20) poll ∙ z)) in
        rw busy (record { line = rest.line; result = rest.result; sent = rest.sent })
    | inr now ↦ rw now (record { line = _; result = refl; sent = refl })
  ]

  module _ (fuel : ℕ) (ready : IsReady lsr fuel) where
    write-Sends :
        (byte : ℕ) (s : Line) → Sends s (byte ∷ []) (uart_write_byte_blocks lsr fuel byte s)
    write-Sends byte s = let (d, lt, r) = ready s.polls in write_ready fuel byte d s lt r

    -- One step after the other.
    then-Sends :
        (s : Line) (xs ys : List ℕ) (r : Option Line) (g : Line → Option Line)
        → Sends s xs r
        → ((s' : Line) → Sends s' ys (g s'))
        → Sends s (xs ++ ys) (r >>= g)
    then-Sends s xs ys r g a b =
        let c = b a.line in
        record {
          line = c.line;
          result = ap (λ o. o >>= g) a.result ∙ c.result;
          sent = c.sent ∙ ap (λ l. l ++ ys) a.sent ∙ append_assoc s.sent xs ys;
        }

    module _ (buff : Memory) where
      transmit_loop-Sends :
          (left i : ℕ) (s : Line)
          → Sends s (bytes_of buff i left) (transmit_loop lsr fuel buff left i s)
      unfolding transmit_loop
      transmit_loop-Sends zero i s = record {
        line = s;
        result = refl;
        sent = sym (append-nil s.sent);
      }
      transmit_loop-Sends (suc left) i s =
          then-Sends s (buff i ∷ []) (bytes_of buff (i + 1) left) _
            (transmit_loop lsr fuel buff left (i + 1)) (write-Sends (buff i) s)
            (transmit_loop-Sends left (i + 1))

      line_end :
          (a b : ℕ) (s : Line)
          → Sends s
              (a ∷ b ∷ [])
              (uart_write_byte_blocks lsr fuel a s >>= uart_write_byte_blocks lsr fuel b)
      line_end a b s = then-Sends s (a ∷ []) (b ∷ []) _ _ (write-Sends a s) (write-Sends b)

      transmit-Sends :
          (size : ℕ) (s : Line)
          → Sends s (bytes_of buff 0 size ++ (13 ∷ 10 ∷ [])) (uart_transmit lsr fuel buff size s)
      unfolding uart_transmit
      transmit-Sends size s =
          then-Sends s (bytes_of buff 0 size) (13 ∷ 10 ∷ []) _
            (λ s₁. uart_write_byte_blocks lsr fuel 13 s₁ >>= uart_write_byte_blocks lsr fuel 10)
            (transmit_loop-Sends size 0 s) (line_end 13 10)

      -- The loop stops at the first `end_byte`.
      transmit_until-sends :
          (end_byte rounds i n : ℕ) (s : Line)
          → ((k : ℕ) → k < n → buff (i + k) ≢ end_byte)
          → buff (i + n) ≡ end_byte
          → n < rounds
          → (s' : Line) × (transmit_until lsr fuel buff end_byte rounds i s ≡ some (i + n, s'))
            × (s'.sent ≡ s.sent ++ bytes_of buff i n)
      unfolding transmit_until
      transmit_until-sends end_byte zero i n s inside stop lt = absurd (omega (arith, lt))
      transmit_until-sends end_byte (suc rounds) i zero s inside stop lt =
          let e : i + 0 ≡ i = omega arith in
          let here : (buff i == end_byte) ≡ true =
            (==_iff (buff i) end_byte).1 (ap buff (sym e) ∙ stop) in
          (s, rw (here, e) refl, sym (append-nil s.sent))
      transmit_until-sends end_byte (suc rounds) i (suc n) s inside stop lt =
          let e : i + 0 ≡ i = omega arith in
          let other : (buff i == end_byte) ≡ false =
            ground (arith, inside 0 (omega arith), ap buff e) in
          let first = write-Sends (buff i) s in
          let (s', r, sent) =
            transmit_until-sends end_byte rounds (i + 1) n first.line
              (λ k lt' z. inside (suc k) (omega (arith, lt')) (ap buff (omega arith) ∙ z))
              (ap buff (omega arith) ∙ stop) (omega (arith, lt)) in
          let place : i + 1 + n ≡ i + suc n = omega arith in
          (
            s',
            rw (other, first.result) (r ∙ ap (λ m. some (m, s')) place),
            sent
                ∙ ap (λ l. l ++ bytes_of buff (i + 1) n) first.sent
                ∙ append_assoc s.sent (buff i ∷ []) (bytes_of buff (i + 1) n),
          )

      transmit_str-Sends :
          (rounds n : ℕ) (s : Line)
          → ((k : ℕ) → k < n → buff k ≢ 0)
          → buff n ≡ 0
          → n < rounds
          → Sends s (bytes_of buff 0 n ++ (10 ∷ 13 ∷ [])) (uart_transmit_str lsr fuel buff rounds s)
      unfolding uart_transmit_str
      transmit_str-Sends rounds n s inside stop lt =
          let (s', r, sent) =
            transmit_until-sends 0 rounds 0 n s
              (λ k lt' z. inside k lt' (ap buff (omega arith) ∙ z)) (ap buff (omega arith) ∙ stop)
              lt in
          let c = line_end 10 13 s' in
          record {
            line = c.line;
            result = rw r c.result;
            sent =
                c.sent
                ∙ ap (λ l. l ++ (10 ∷ 13 ∷ [])) sent
                ∙ append_assoc s.sent (bytes_of buff 0 n) (10 ∷ 13 ∷ []);
          }

      transmit_to_end_line-Sends :
          (rounds n : ℕ) (s : Line)
          → ((k : ℕ) → k < n → buff k ≢ 10)
          → buff n ≡ 10
          → n < rounds
          → Sends s
              (bytes_of buff 0 n ++ (10 ∷ 13 ∷ []))
              (uart_transmit_to_end_line lsr fuel buff rounds s)
      unfolding uart_transmit_to_end_line
      transmit_to_end_line-Sends rounds n s inside stop lt =
          let (s', r, sent) =
            transmit_until-sends 10 rounds 0 n s
              (λ k lt' z. inside k lt' (ap buff (omega arith) ∙ z)) (ap buff (omega arith) ∙ stop)
              lt in
          let c = line_end 10 13 s' in
          let last : buff (0 + n) ≡ 10 = ap buff (omega arith) ∙ stop in
          record {
            line = c.line;
            result = rw (r, last) c.result;
            sent =
                c.sent
                ∙ ap (λ l. l ++ (10 ∷ 13 ∷ [])) sent
                ∙ append_assoc s.sent (bytes_of buff 0 n) (10 ∷ 13 ∷ []);
          }

-- On a device that is ready in one of any `fuel` polls in a row, a string of `n` bytes before its end
-- is sent whole, after what was sent before: by `uart_transmit_str` with a line feed and a carriage
-- return behind it, and by `uart_transmit` of size `n` with the two the other way round.
pub uart_transmit_str-Sends :
    (lsr : ℕ → ℕ) (fuel : ℕ) (buff : Memory) (rounds n : ℕ) (s : Line)
    → IsReady lsr fuel
    → ((k : ℕ) → k < n → buff k ≢ 0)
    → buff n ≡ 0
    → n < rounds
    → Sends s (bytes_of buff 0 n ++ (10 ∷ 13 ∷ [])) (uart_transmit_str lsr fuel buff rounds s)
      × Sends s (bytes_of buff 0 n ++ (13 ∷ 10 ∷ [])) (uart_transmit lsr fuel buff n s)
uart_transmit_str-Sends lsr fuel buff rounds n s ready inside stop lt = (
  transmit_str-Sends lsr fuel ready buff rounds n s inside stop lt,
  transmit-Sends lsr fuel ready buff n s,
)
