-- ===== src/Pci/Scan.antt =====
-- The scan of the functions of one slot.
use kokos.Shared.{
  ℕ, zero, suc, ◌+◌, ◌≡◌, ◌≢◌, refl, ap, List, [], ◌++◌, true, false, inl, inr, bit_and, arith,
  ◌==◌, Bool-cases, if◌then◌else◌,
}
use kokos.Console.Calls.{ConsoleCall}
use kokos.Pci.Defs.{config_read32, config_read8, report, scan_functions}

module _ (register : ℕ → ℕ) (bus slot : ℕ) where
  -- The reports of the functions that are there, one behind the other.
  unfoldable reports : ℕ → ℕ → List ConsoleCall
  reports zero function = []
  reports (suc rounds) function =
      (if config_read32 register bus slot function 0 == 0xFFFFFFFF
        then []
        else report register bus slot function)
      ++ reports rounds (function + 1)

  scan_functions-reports :
      (rounds function : ℕ)
      → scan_functions register rounds true bus slot function ≡ reports rounds function
  unfolding scan_functions reports
  scan_functions-reports zero function = refl
  scan_functions-reports (suc rounds) function =
      elim (Bool-cases (config_read32 register bus slot function 0 == 0xFFFFFFFF)) [
        | inl gone ↦ rw (scan_functions, gone) (scan_functions-reports rounds (function + 1))
        | inr here ↦
            rw (scan_functions, here)
              (ap (λ rest. report register bus slot function ++ rest)
                (scan_functions-reports rounds (function + 1)))
      ]

  -- In a slot with a function 0, the scan reports all functions that are there when the highest bit
  -- of its header type is set, and function 0 alone when it is not.
  scan_slot-reports :
      config_read32 register bus slot 0 0 ≢ 0xFFFFFFFF
      → scan_functions register 8 false bus slot 0 ≡ (
          if bit_and (config_read8 register bus slot 0 0xe) 0b10000000 == 0b10000000
          then reports 8 0
          else reports 1 0)
  unfolding scan_functions reports
  scan_slot-reports there =
      let here : (config_read32 register bus slot 0 0 == 0xFFFFFFFF) ≡ false = ground arith in
      elim (Bool-cases (bit_and (config_read8 register bus slot 0 0xe) 0b10000000 == 0b10000000)) [
        | inl multi ↦
            rw (scan_functions, here, multi)
              (ap (λ rest. report register bus slot 0 ++ rest) (scan_functions-reports 7 (0 + 1)))
        | inr single ↦ rw (scan_functions, here, single) refl
      ]
