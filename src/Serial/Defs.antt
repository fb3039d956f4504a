-- ===== src/Serial/Defs.antt =====
-- src/common/serial.c: the serial line. The ports are hardware: the state behind them, and what a
-- read and a write do, are a parameter. A loop that waits runs on a number of rounds.
use kokos.Shared.{
  ℕ, zero, suc, ◌+◌, ◌%◌, ◌^◌, bit_and, bit_or, true, false, List, [], ◌∷◌, Outcome, ok, fault,
  spin, ◌>>=◌, ◌==◌,
}
use kokos.Util.Numbers.{string_from_u32}

-- `port_in8` and `port_out8`
pub record Ports : Type 1 where
  pub State : Type 0
  pub port_in8 : ℕ → State → ℕ × State
  pub port_out8 : ℕ → ℕ → State → State

abbrev pub register0_port : ℕ
register0_port = 0x3F8

abbrev register1_port : ℕ
register1_port = 0x3F8 + 1

abbrev register3_port : ℕ
register3_port = 0x3F8 + 3

abbrev pub register5_port : ℕ
register5_port = 0x3F8 + 5

module _ (ports : Ports) where
  unfoldable pub serial_available : ports.State → ℕ × ports.State
  serial_available s = let (status, s') = ports.port_in8 register5_port s in (bit_and status 1, s')

  unfoldable pub serial_read : ℕ → ports.State → Outcome (ℕ × ports.State)
  serial_read zero s = spin
  serial_read (suc rounds) s =
      let (available, s') = serial_available s in
      elim (available == 0) [
        | true ↦ serial_read rounds s'
        | false ↦ ok (ports.port_in8 register0_port s')
      ]

  unfoldable pub serial_write : ℕ → ℕ → ports.State → Outcome ports.State
  serial_write zero c s = spin
  serial_write (suc rounds) c s =
      let (status, s') = ports.port_in8 register5_port s in
      elim (bit_and status 0b00100000 == 0) [
        | true ↦ serial_write rounds c s'
        | false ↦ ok (ports.port_out8 register0_port (c % 2 ^ 8) s')
      ]

  -- The string ends at its zero byte; a list without one is read behind its end.
  unfoldable pub serial_print : ℕ → List ℕ → ports.State → Outcome ports.State
  unfolding serial_write
  serial_print rounds [] s = fault
  serial_print rounds (c ∷ str) s = elim (c == 0) [
    | true ↦ ok s
    | false ↦ serial_write rounds c s >>= λ s'. serial_print rounds str s'
  ]

  -- `dest` has 33 bytes.
  unfoldable pub serial_print_u32 : ℕ → List ℕ → ℕ → ℕ → ports.State → Outcome ports.State
  unfolding serial_print
  serial_print_u32 rounds dest num base s =
      string_from_u32 dest num base >>= λ (text, _). serial_print rounds text s

  unfoldable pub test_loop : ℕ → ℕ → ℕ → ports.State → Outcome ports.State
  unfolding serial_write
  test_loop rounds zero i s = ok s
  test_loop rounds (suc left) i s =
      serial_write rounds (b'A' + i) s >>= λ s'. test_loop rounds left (i + 1) s'

  unfoldable pub serial_initialize : ℕ → ports.State → Outcome ports.State
  unfolding test_loop
  serial_initialize rounds s =
      let s1 = ports.port_out8 register1_port 0 s in
      let s2 = ports.port_out8 register3_port 0b10000000 s1 in
      let s3 = ports.port_out8 register0_port 3 s2 in
      let s4 = ports.port_out8 register1_port 0 s3 in
      let s5 = ports.port_out8 register3_port (bit_or 0b11 0b100) s4 in test_loop rounds 25 0 s5
