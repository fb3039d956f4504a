-- ===== src/Pci/Examples.antt =====
-- Tests of pci.c at one device.
use kokos.Shared.{ℕ, ◌≡◌, refl}
use kokos.Pci.Defs.{config_address, config_read32, config_read16}

-- Every register of the machine is this one.
abbrev registers : ℕ → ℕ
registers address = 0x12378086

vendor_test : config_read16 registers 0 1 0 0 ≡ 0x8086
unfolding config_read16 config_read32
vendor_test = refl

address_test : config_address 2 3 1 0xB ≡ 0x8002_1908
unfolding config_address
address_test = refl
