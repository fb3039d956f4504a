-- ===== src/Pci/Defs.antt =====
-- src/common/pci.c: reading the configuration of the devices. `pci_config_read32` of
-- src/x86_64/pci.asm sends an address to a port and reads the register there, which is hardware: the
-- registers by their addresses are a parameter. The numbers of a device are not negative.
use kokos.Shared.{
  ℕ, zero, suc, ◌+◌, ◌*◌, ◌/◌, ◌^◌, bit_and, bit_or, Bool, true, false, ◌||◌, List, [], ◌∷◌, ◌++◌,
  ◌==◌,
}
use kokos.Console.Calls.{ConsoleCall, print_call, print_u32_call, new_line_call}
use kokos.Pci.Classes.{pci_class_string, pci_subclass_string}

-- The address that `pci_config_read32` sends.
unfoldable pub config_address : ℕ → ℕ → ℕ → ℕ → ℕ
config_address bus slot function offset =
    bit_or
      (bit_or
        (bit_or (bit_or (2 ^ 31) (bit_and bus 0b11111111 * 2 ^ 16)) (bit_and slot 0b11111 * 2 ^ 11))
        (bit_and function 0b111 * 2 ^ 8))
      (bit_and offset 0b11111100)

module _ (register : ℕ → ℕ) where
  unfoldable pub config_read32 : ℕ → ℕ → ℕ → ℕ → ℕ
  unfolding config_address
  config_read32 bus slot function offset = register (config_address bus slot function offset)

  unfoldable pub config_read16 : ℕ → ℕ → ℕ → ℕ → ℕ
  unfolding config_read32
  config_read16 bus slot function offset =
      bit_and (config_read32 bus slot function offset / 2 ^ (bit_and offset 0x2 * 8)) 0xffff

  unfoldable pub config_read8 : ℕ → ℕ → ℕ → ℕ → ℕ
  unfolding config_read32
  config_read8 bus slot function offset =
      bit_and (config_read32 bus slot function offset / 2 ^ (bit_and offset 0x3 * 8)) 0xff

  -- What the scan prints of one device.
  unfoldable pub report : ℕ → ℕ → ℕ → List ConsoleCall
  unfolding config_read16 config_read8
  report bus slot function =
      let vendor = config_read16 bus slot function 0x0 in
      let device = config_read16 bus slot function 0x2 in
      let class = config_read8 bus slot function 0xb in
      let subclass = config_read8 bus slot function 0xa in
      let header_type = config_read8 bus slot function 0xe in
      print_call "[pci] device at bus="
      ∷ print_u32_call bus 10
      ∷ print_call " slot="
      ∷ print_u32_call slot 10
      ∷ print_call " function="
      ∷ print_u32_call function 10
      ∷ print_call " vendor=0x"
      ∷ print_u32_call vendor 16
      ∷ print_call " device=0x"
      ∷ print_u32_call device 16
      ∷ new_line_call
      ∷ print_call " class=0x"
      ∷ print_u32_call class 16
      ∷ print_call " "
      ∷ print_call (pci_class_string class)
      ∷ print_call " subclass=0x"
      ∷ print_u32_call subclass 16
      ∷ print_call " "
      ∷ print_call (pci_subclass_string class subclass)
      ∷ new_line_call
      ∷ print_call " header_type=0x"
      ∷ print_u32_call (bit_and header_type 0b01111111) 16
      ∷ print_call ", multifunction="
      ∷ print_u32_call (header_type / 2 ^ 7) 10
      ∷ new_line_call
      ∷ []

  -- The loop over the functions of a slot, with `is_multifunction`.
  unfoldable pub scan_functions : ℕ → Bool → ℕ → ℕ → ℕ → List ConsoleCall
  unfolding report
  scan_functions zero is_multifunction bus slot function = []
  scan_functions (suc rounds) is_multifunction bus slot function =
      elim (config_read32 bus slot function 0 == 0xFFFFFFFF) [
        | true ↦ scan_functions rounds is_multifunction bus slot (function + 1)
        | false ↦
            report bus slot function
            ++ elim (is_multifunction
                || bit_and (config_read8 bus slot function 0xe) 0b10000000 == 0b10000000) [
                  | true ↦ scan_functions rounds true bus slot (function + 1)
                  | false ↦ []
                ]
      ]

  unfoldable scan_slots : ℕ → ℕ → ℕ → List ConsoleCall
  unfolding scan_functions
  scan_slots zero bus slot = []
  scan_slots (suc rounds) bus slot =
      scan_functions 8 false bus slot 0 ++ scan_slots rounds bus (slot + 1)

  unfoldable scan_buses : ℕ → ℕ → List ConsoleCall
  unfolding scan_slots
  scan_buses zero bus = []
  scan_buses (suc rounds) bus = scan_slots 0b11111 bus 0 ++ scan_buses rounds (bus + 1)

  unfoldable pci_scan : List ConsoleCall
  unfolding scan_buses
  pci_scan = scan_buses 0b11111111 0
