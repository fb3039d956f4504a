-- ===== src/Apic/Examples.antt =====
-- The theorem about the I/O controller at a small one, and tests.
use kokos.Shared.{
  ℕ, ◌+◌, ◌*◌, ◌<◌, ◌%◌, ◌^◌, ltb, ap, ◌≡◌, ◌≢◌, refl, arith, bit_and, ◌==◌, if◌then◌else◌,
  Bool-cases, inl, inr, ==_iff,
}
use kokos.Apic.Defs.{Ioapic, entry_register, get_entry, io_set_entry}
use kokos.Apic.Entries.{IsController, low_settings, high_settings, settings, set_entry-reads}

record Words : Type 0 where
  selected : ℕ
  words : ℕ → ℕ

-- A controller with 24 entries. Its other registers are fixed: the version is 0x170011.
abbrev stored : ℕ → ℕ → (ℕ → ℕ) → ℕ → ℕ
stored selected v words k = if k == selected then (if ltb 15 k then v else words k) else words k

abbrev small : Ioapic
small = record {
  State = Words;
  select = λ r s. record s { selected = r };
  register_data = λ s. s.words s.selected % 2 ^ 32;
  set_register_data = λ v s. record s { words = stored s.selected v s.words };
}

abbrev low : Words → ℕ → ℕ
low s i = bit_and (s.words (0x10 + i * 2) % 2 ^ 32) low_settings

abbrev high : Words → ℕ → ℕ
high s i = bit_and (s.words (0x10 + i * 2 + 1) % 2 ^ 32) high_settings

-- What a register holds behind a write to one of an entry.
stored-same :
    (selected v : ℕ) (words : ℕ → ℕ)
    → 15 < selected
    → v < 2 ^ 32
    → stored selected v words selected % 2 ^ 32 ≡ v
stored-same selected v words entry fits = ground arith

stored-other :
    (selected v k : ℕ) (words : ℕ → ℕ) → k ≢ selected → stored selected v words k ≡ words k
stored-other selected v k words ne = ground arith

small-IsController : IsController small 24 low high
small-IsController = record {
  low-select = λ r k s. refl;
  high-select = λ r k s. refl;
  reads_low = λ i s h. refl;
  reads_high = λ i s h. refl;
  word = λ s. omega arith;
  writes_low = λ i v k s hi hk fits. (
    elim (Bool-cases (k == i)) [
      | inl same ↦
          let e : k ≡ i = (==_iff k i).0 same in
          rw (same, e)
            (ap (λ w. bit_and w low_settings)
              (stored-same (0x10 + i * 2) v s.words (omega arith) fits))
      | inr differ ↦
          rw (differ, stored-other (0x10 + i * 2) v (0x10 + k * 2) s.words (ground arith)) refl
    ],
    rw (stored-other (0x10 + i * 2) v (0x10 + k * 2 + 1) s.words (omega arith)) refl,
  );
  writes_high = λ i v k s hi hk fits. (
    rw (stored-other (0x10 + i * 2 + 1) v (0x10 + k * 2) s.words (omega arith)) refl,
    elim (Bool-cases (k == i)) [
      | inl same ↦
          let e : k ≡ i = (==_iff k i).0 same in
          rw (same, e)
            (ap (λ w. bit_and w high_settings)
              (stored-same (0x10 + i * 2 + 1) v s.words (omega arith) fits))
      | inr differ ↦
          rw (differ, stored-other (0x10 + i * 2 + 1) v (0x10 + k * 2 + 1) s.words (ground arith))
            refl
    ],
  );
}

abbrev reset : Words
reset = record { selected = 0; words = λ k. if k == 1 then 0x170011 else 0 }

-- The entry for the interrupt 0x21, which goes to the processor 1.
set_entry-reads_example :
    bit_and (get_entry small 2 (io_set_entry small 1 0x0100_0000_0000_0021 reset)).0 settings ≡ (
      if 2 == 1
      then bit_and 0x0100_0000_0000_0021 settings
      else bit_and (get_entry small 2 reset).0 settings)
set_entry-reads_example =
    set_entry-reads small 24 low high small-IsController (omega arith) 1 2 0x0100_0000_0000_0021
      reset (omega arith) (omega arith) (omega arith)

read_back_test :
    (get_entry small 1 (io_set_entry small 1 0x0100_0000_0000_0021 reset)).0 ≡ 0x0100_0000_0000_0021
unfolding get_entry io_set_entry entry_register
read_back_test = refl

-- From the index 120 on, the number of the register wraps around: it is that of the version.
register_wraps_test : entry_register 120 ≡ 0
unfolding entry_register
register_wraps_test = refl
