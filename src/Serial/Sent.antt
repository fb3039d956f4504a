-- ===== src/Serial/Sent.antt =====
-- What the functions of serial.c send on a line that gets ready again after each byte.
use kokos.Shared.{
  ℕ, zero, suc, ◌%◌, ◌^◌, ◌<◌, ◌≤◌, ◌≡◌, ◌≢◌, refl, ap, sym, ◌∙◌, inl, inr, List, [], ◌∷◌, ◌++◌, ok,
  ◌>>=◌, true, false, bit_and, arith, ◌==◌, Bool-cases,
}
use mathlib.Core.List.{append_assoc, append-nil}
use kokos.Util.Compare.{IsChars, none, char, ended}
use kokos.Serial.Defs.{Ports, register0_port, register5_port, serial_write, serial_print}

-- The documented behaviour of the line: the bytes that were sent, and how many reads of the status
-- it takes until the line is ready, at most `delay`. A read of the status sends nothing. Its bit 5
-- says that the line is ready, and a byte is only sent when it is written to a line that is; what
-- becomes of a byte that is written earlier is left open.
pub record IsLine (ports : Ports) (sent : ports.State → List ℕ) (busy : ports.State → ℕ) (delay : ℕ)
    : Type 0 where
  pub sent-status : (s : ports.State) → sent (ports.port_in8 register5_port s).1 ≡ sent s
  pub sent-write :
      (c : ℕ) (s : ports.State)
      → busy s ≡ 0
      → sent (ports.port_out8 register0_port c s) ≡ sent s ++ (c ∷ [])
  pub told :
      (s : ports.State)
      → bit_and (ports.port_in8 register5_port s).0 0b00100000 ≢ 0
      → busy (ports.port_in8 register5_port s).1 ≡ 0
  pub ready :
      (s : ports.State) → busy s ≡ 0 → bit_and (ports.port_in8 register5_port s).0 0b00100000 ≢ 0
  pub waits : (s : ports.State) → 0 < busy s → busy (ports.port_in8 register5_port s).1 < busy s
  pub bounded : (s : ports.State) → busy s ≤ delay

module _ (ports : Ports) (sent : ports.State → List ℕ) (busy : ports.State → ℕ) (delay : ℕ)
    (line : IsLine ports sent busy delay) where
  serial_write-sent :
      (rounds c : ℕ) (s : ports.State)
      → busy s < rounds
      → c < 256
      → (s' : ports.State) × (serial_write ports rounds c s ≡ ok s')
        × (sent s' ≡ sent s ++ (c ∷ []))
  unfolding serial_write
  serial_write-sent zero c s enough byte = absurd (omega arith)
  serial_write-sent (suc rounds) c s enough byte =
      let (status, s1) = ports.port_in8 register5_port s in
      elim (Bool-cases (bit_and status 0b00100000 == 0)) [
        | inl empty ↦
            let (s', run, all) = serial_write-sent rounds c s1 (shorter s enough empty) byte in
            (s', rw (serial_write, empty) run, all ∙ ap (λ t. t ++ (c ∷ [])) (line.sent-status s))
        | inr full ↦ (
          ports.port_out8 register0_port (c % 2 ^ 8) s1,
          rw (serial_write, full) refl,
          line.sent-write (c % 2 ^ 8) s1 (line.told s (λ e. absurd (no e full)))
              ∙ ap (λ t. t ++ (c % 2 ^ 8 ∷ [])) (line.sent-status s)
              ∙ ap (λ b. sent s ++ (b ∷ [])) (omega arith),
        )
      ]
    where
      shorter :
          {rounds : ℕ} (s : ports.State)
          → busy s < suc rounds
          → (bit_and (ports.port_in8 register5_port s).0 0b00100000 == 0) ≡ true
          → busy (ports.port_in8 register5_port s).1 < rounds
      shorter s enough h = ground (arith, line.waits s, line.ready s)

      no : {n : ℕ} → n ≡ 0 → (n == 0) ≡ false → ⊥
      no e h = ground arith

  -- On a line that behaves as documented and is ready again after at most `delay` reads of its
  -- status, with more rounds than that, printing a text of characters returns, and its characters,
  -- without the zero byte, are what was sent, in their order. A byte that is written before the
  -- line is ready need not be sent.
  pub serial_print-sent :
      (rounds : ℕ) (text behind : List ℕ) (s : ports.State)
      → delay < rounds
      → IsChars text
      → (s' : ports.State) × (serial_print ports rounds (ended text behind) s ≡ ok s')
        × (sent s' ≡ sent s ++ text)
  unfolding serial_print
  serial_print-sent rounds [] behind s enough none = (s, refl, sym (append-nil (sent s)))
  serial_print-sent rounds (c ∷ text) behind s enough (char some byte chars) =
      let nonzero : (c == 0) ≡ false = ground arith in
      let (s1, first, out) = serial_write-sent rounds c s (omega (arith, line.bounded s)) byte in
      let (s', run, all) = serial_print-sent rounds text behind s1 enough chars in
      (
        s',
        rw (serial_print, nonzero, first, ◌>>=◌) run,
        all ∙ ap (λ t. t ++ text) out ∙ append_assoc (sent s) (c ∷ []) text,
      )
