-- ===== src/Serial/Examples.antt =====
-- The theorem about the serial line at one that is busy for two reads of its status after each byte
-- and loses what is written meanwhile, and tests.
use kokos.Shared.{
  ℕ, ◌<◌, ◌≡◌, refl, List, [], ◌∷◌, ◌++◌, ok, spin, ◌≢◌, ◌≤◌, bit_and, read, write, arith,
  replicate,
}
use kokos.Util.Compare.{none, char, ended}
use kokos.Util.Numbers.{string_from_u32, string_from_unsigned, digits_loop, finish, digit_char}
use kokos.Util.Strings.{string_reverse}
use kokos.Serial.Defs.{
  Ports, serial_print, serial_print_u32, serial_write, serial_initialize, test_loop,
}
use kokos.Serial.Sent.{IsLine, serial_print-sent}

data Delay : Type 0 where
  now : Delay
  soon : Delay
  later : Delay

abbrev reads_left : Delay → ℕ
reads_left now = 0
reads_left soon = 1
reads_left later = 2

abbrev status : Delay → ℕ
status now = 0b00100001
status soon = 0
status later = 0

abbrev after_read : Delay → Delay
after_read now = now
after_read soon = now
after_read later = soon

-- A byte that is written while the line is busy is lost.
abbrev accepted : Delay → ℕ → List ℕ → List ℕ
accepted now value sent = sent ++ (value ∷ [])
accepted soon value sent = sent
accepted later value sent = sent

-- What was sent, and how long the line is still busy.
abbrev line : Ports
line = record {
  State = List ℕ × Delay;
  port_in8 = λ port (sent, delay). (status delay, (sent, after_read delay));
  port_out8 = λ port value (sent, delay). (accepted delay value sent, later);
}

line-IsLine : IsLine line (λ (sent, _). sent) (λ (_, delay). reads_left delay) 2
line-IsLine = record {
  sent-status = λ s. refl;
  sent-write = λ c (sent, delay) h. writes delay c sent h;
  told = λ (sent, delay) h. told delay h;
  ready = λ (sent, delay) h. ready delay h;
  waits = λ (sent, delay) h. waits delay h;
  bounded = λ (sent, delay). bounded delay;
}
  where
    writes :
        (d : Delay) (c : ℕ) (sent : List ℕ)
        → reads_left d ≡ 0
        → accepted d c sent ≡ sent ++ (c ∷ [])
    writes now c sent h = refl
    writes soon c sent h = absurd (omega arith)
    writes later c sent h = absurd (omega arith)

    told : (d : Delay) → bit_and (status d) 0b00100000 ≢ 0 → reads_left (after_read d) ≡ 0
    told now h = refl
    told soon h = refl
    told later h = absurd (h refl)

    ready : (d : Delay) → reads_left d ≡ 0 → bit_and (status d) 0b00100000 ≢ 0
    ready now h = λ e. absurd (omega arith)
    ready soon h = absurd (omega arith)
    ready later h = absurd (omega arith)

    waits : (d : Delay) → 0 < reads_left d → reads_left (after_read d) < reads_left d
    waits now h = absurd (omega arith)
    waits soon h = omega arith
    waits later h = omega arith

    bounded : (d : Delay) → reads_left d ≤ 2
    bounded now = omega arith
    bounded soon = omega arith
    bounded later = omega arith

serial_print-sent_example :
    (s' : List ℕ × Delay) × (serial_print line 3 (ended (b'o' ∷ b'k' ∷ []) (7 ∷ [])) ([], later)
      ≡ ok s')
    × (s'.0 ≡ [] ++ (b'o' ∷ b'k' ∷ []))
serial_print-sent_example =
    serial_print-sent line (λ (sent, _). sent) (λ (_, delay). reads_left delay) 2 line-IsLine 3
      (b'o' ∷ b'k' ∷ []) (7 ∷ []) ([], later) (omega arith)
      (char (omega arith) (omega arith) (char (omega arith) (omega arith) none))

-- Two rounds are not enough.
busy_test : serial_write line 2 b'o' ([], later) ≡ spin
unfolding serial_write
busy_test = refl

number_test :
    serial_print_u32 line 3 (replicate 33 7) 0x2A 16 ([], now) ≡ ok (b'2' ∷ b'A' ∷ [], later)
unfolding serial_print_u32 serial_print serial_write string_from_u32 string_from_unsigned
    digits_loop finish write read string_reverse digit_char
number_test = refl

-- Every write to a line that is always ready.
abbrev log : Ports
log = record {
  State = List ℕ;
  port_in8 = λ port written. (0b00100000, written);
  port_out8 = λ port value written. written ++ (value ∷ []);
}

-- The five settings and then the letters from A to Y.
initialize_test :
    serial_initialize log 1 []
    ≡ ok (
        (0 ∷ 0b10000000 ∷ 3 ∷ 0 ∷ 0b111 ∷ [])
        ++ (b'A' ∷ b'B' ∷ b'C' ∷ b'D' ∷ b'E' ∷ b'F' ∷ b'G' ∷ b'H' ∷ b'I' ∷ b'J' ∷ b'K' ∷ b'L' ∷ b'M'
            ∷ [])
        ++ (b'N' ∷ b'O' ∷ b'P' ∷ b'Q' ∷ b'R' ∷ b'S' ∷ b'T' ∷ b'U' ∷ b'V' ∷ b'W' ∷ b'X' ∷ b'Y' ∷ []))
unfolding serial_initialize test_loop serial_write
initialize_test = refl
