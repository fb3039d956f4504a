-- ===== src/Apic/Defs.antt =====
-- src/common/apic.c: the registers of an I/O interrupt controller, its entries, and the commands
-- that take the old controllers out of use. The controller is hardware: its state and what a
-- selection, a read and a write do are a parameter.
use kokos.Shared.{ℕ, ◌+◌, ◌*◌, ◌/◌, ◌%◌, ◌^◌, bit_and, bit_or, List, [], ◌∷◌}

-- `struct ioapic`: a register is selected through one word and read and written through another.
pub record Ioapic : Type 1 where
  pub State : Type 0
  pub select : ℕ → State → State
  pub register_data : State → ℕ
  pub set_register_data : ℕ → State → State

abbrev register_id : ℕ
register_id = 0

abbrev register_version : ℕ
register_version = 1

-- `APIC_IO_REGISTER_ENTRY`, as an `unsigned char`
unfoldable pub entry_register : ℕ → ℕ
entry_register index = (0x10 + index * 2) % 2 ^ 8

module _ (apic : Ioapic) where
  -- Each operation returns what it reads and the state of the controller.
  unfoldable get_id : apic.State → ℕ × apic.State
  get_id s =
      let s' = apic.select register_id s in
      (bit_and (apic.register_data s' / 2 ^ 24) 0b11111111, s')

  unfoldable get_version : apic.State → ℕ × apic.State
  get_version s =
      let s' = apic.select register_version s in (bit_and (apic.register_data s') 0b11111111, s')

  unfoldable get_max_entries : apic.State → ℕ × apic.State
  get_max_entries s =
      let s' = apic.select register_version s in
      (bit_and (apic.register_data s' / 2 ^ 16) 0b11111111, s')

  unfoldable pub get_entry : ℕ → apic.State → ℕ × apic.State
  unfolding entry_register
  get_entry index s =
      let reg = entry_register index in
      let s' = apic.select reg s in
      let s'' = apic.select (reg + 1) s' in
      (bit_or (apic.register_data s') (apic.register_data s'' * 2 ^ 32 % 2 ^ 64), s'')

  unfoldable pub io_set_entry : ℕ → ℕ → apic.State → apic.State
  unfolding entry_register
  io_set_entry index entry s =
      let reg = entry_register index in
      let s' = apic.set_register_data (bit_and entry 0xFFFFFFFF) (apic.select reg s) in
      apic.set_register_data (entry / 2 ^ 32) (apic.select (reg + 1) s')

-- `struct ioapic_entry`
pub record IoapicEntry : Type 0 where
  pub vector : ℕ
  pub delivery_mode : ℕ
  pub destination_mode : ℕ
  pub delivery_status : ℕ
  pub pin_polarity : ℕ
  pub remote_irr : ℕ
  pub trigger_mode : ℕ
  pub mask : ℕ
  pub unused : ℕ
  pub destination : ℕ

-- The word in which the bit fields stand one behind the other, from the lowest bit on.
unfoldable pub entry_word : IoapicEntry → ℕ
entry_word entry =
    entry.vector
    + entry.delivery_mode * 2 ^ 8
    + entry.destination_mode * 2 ^ 11
    + entry.delivery_status * 2 ^ 12
    + entry.pin_polarity * 2 ^ 13
    + entry.remote_irr * 2 ^ 14
    + entry.trigger_mode * 2 ^ 15
    + entry.mask * 2 ^ 16
    + entry.unused * 2 ^ 17
    + entry.destination * 2 ^ 56

unfoldable pub io_register : (apic : Ioapic) → ℕ → IoapicEntry → apic.State → apic.State
unfolding io_set_entry entry_word
io_register apic irq entry = io_set_entry apic irq (entry_word entry)

-- What `apic_disable_pic` sends to the ports, and its waits.
data PortCall : Type 0 where
  port_out8 : ℕ → ℕ → PortCall
  wait_microsecond : PortCall

abbrev pic_master_command_port : ℕ
pic_master_command_port = 0x20

abbrev pic_master_data_port : ℕ
pic_master_data_port = 0x21

abbrev pic_slave_command_port : ℕ
pic_slave_command_port = 0xA0

abbrev pic_slave_data_port : ℕ
pic_slave_data_port = 0xA1

unfoldable disable_pic : List PortCall
disable_pic =
    port_out8 pic_master_command_port 0x11
    ∷ wait_microsecond
    ∷ port_out8 pic_master_data_port 247
    ∷ wait_microsecond
    ∷ port_out8 pic_master_data_port 0b00000100
    ∷ wait_microsecond
    ∷ port_out8 pic_master_data_port 0x01
    ∷ wait_microsecond
    ∷ port_out8 pic_slave_command_port 0x11
    ∷ wait_microsecond
    ∷ port_out8 pic_slave_data_port 239
    ∷ wait_microsecond
    ∷ port_out8 pic_slave_data_port 0b00000010
    ∷ wait_microsecond
    ∷ port_out8 pic_slave_data_port 0x01
    ∷ wait_microsecond
    ∷ port_out8 pic_master_data_port 0b11111111
    ∷ port_out8 pic_slave_data_port 0b11111111
    ∷ []

-- `apic_check_supported`, of the word `edx` that the processor gives for its features
unfoldable pub check_supported : ℕ → ℕ
check_supported edx = bit_and edx 0b100000000
