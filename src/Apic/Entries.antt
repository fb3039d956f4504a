-- ===== src/Apic/Entries.antt =====
-- The entries of an I/O interrupt controller: setting and reading them.
use kokos.Shared.{
  ℕ, ◌+◌, ◌*◌, ◌/◌, ◌%◌, ◌^◌, ◌<◌, ◌≤◌, true, inl, inr, Bool-cases, ==_iff, ap, ◌≡◌, refl, sym, ◌∙◌,
  bit_and, arith, ◌==◌, if◌then◌else◌,
}
use kokos.Word.Bits.{bit_and-low_mask}
use kokos.Word.Join.{bit_or-add, bit_and-join}
use kokos.Apic.Defs.{
  Ioapic, IoapicEntry, entry_register, get_entry, io_set_entry, entry_word, io_register,
}

-- The bits of the two registers of an entry that software sets: the vector, the mode of delivery, the
-- mode of the destination, the polarity, the trigger mode and the mask, and the destination. The
-- status of the delivery, the remote IRR and the reserved bits belong to the hardware.
abbrev pub low_settings : ℕ
low_settings = 0x0001AFFF

abbrev pub high_settings : ℕ
high_settings = 0xFF000000

-- The same in the word of an entry.
abbrev pub settings : ℕ
settings = 0xFF00_0000_0001_AFFF

-- The documented behaviour of a controller with `entries` entries: the registers of the entries
-- hold their settings, which a selection does not change, which a read gives, and which a write
-- changes in the selected register alone. Nothing is said of the other bits, nor of the registers in
-- front of the entries. A register has 32 bits.
pub record IsController (apic : Ioapic) (entries : ℕ) (low high : apic.State → ℕ → ℕ) : Type 0 where
  pub low-select : (r k : ℕ) (s : apic.State) → low (apic.select r s) k ≡ low s k
  pub high-select : (r k : ℕ) (s : apic.State) → high (apic.select r s) k ≡ high s k
  pub reads_low :
      (i : ℕ) (s : apic.State)
      → i < entries
      → bit_and (apic.register_data (apic.select (0x10 + i * 2) s)) low_settings ≡ low s i
  pub reads_high :
      (i : ℕ) (s : apic.State)
      → i < entries
      → bit_and (apic.register_data (apic.select (0x10 + i * 2 + 1) s)) high_settings ≡ high s i
  pub word : (s : apic.State) → apic.register_data s < 2 ^ 32
  pub writes_low :
      (i v k : ℕ) (s : apic.State)
      → i < entries
      → k < entries
      → v < 2 ^ 32
      → (low (apic.set_register_data v (apic.select (0x10 + i * 2) s)) k
          ≡ (if k == i then bit_and v low_settings else low s k))
        × (high (apic.set_register_data v (apic.select (0x10 + i * 2) s)) k ≡ high s k)
  pub writes_high :
      (i v k : ℕ) (s : apic.State)
      → i < entries
      → k < entries
      → v < 2 ^ 32
      → (low (apic.set_register_data v (apic.select (0x10 + i * 2 + 1) s)) k ≡ low s k)
        × (high (apic.set_register_data v (apic.select (0x10 + i * 2 + 1) s)) k
            ≡ (if k == i then bit_and v high_settings else high s k))

entry_register-small : (index : ℕ) → index < 120 → entry_register index ≡ 0x10 + index * 2
unfolding entry_register
entry_register-small index small = omega arith

module _ (apic : Ioapic) (entries : ℕ) (low high : apic.State → ℕ → ℕ)
    (is : IsController apic entries low high) (few : entries ≤ 120) where
  -- What is read, from the settings.
  get_entry-settings :
      (index : ℕ) (s : apic.State)
      → index < entries
      → bit_and (get_entry apic index s).0 settings ≡ low s index + high s index * 2 ^ 32
  unfolding get_entry
  get_entry-settings index s small =
      let at : entry_register index ≡ 0x10 + index * 2 = entry_register-small index (omega arith) in
      let s1 = apic.select (0x10 + index * 2) s in
      let s2 = apic.select (0x10 + index * 2 + 1) s1 in
      let fits : apic.register_data s2 * 2 ^ 32 % 2 ^ 64 ≡ apic.register_data s2 * 2 ^ 32 =
        omega (arith, is.word s2) in
      let joined = bit_or-add 32 (apic.register_data s1) (apic.register_data s2) (is.word s1) in
      let masked =
        bit_and-join 32 (apic.register_data s1) (apic.register_data s2) low_settings high_settings
          (is.word s1) (omega arith) in
      rw (get_entry, at, fits, joined)
        (masked
          ∙ omega (
            arith,
            is.reads_low index s small,
            is.reads_high index s1 small,
            is.high-select (0x10 + index * 2) index s,
          ))

  set_entry-settings :
      (index entry k : ℕ) (s : apic.State)
      → index < entries
      → k < entries
      → entry < 2 ^ 64
      → (low (io_set_entry apic index entry s) k
          ≡ (if k == index then bit_and (entry % 2 ^ 32) low_settings else low s k))
        × (high (io_set_entry apic index entry s) k
            ≡ (if k == index then bit_and (entry / 2 ^ 32) high_settings else high s k))
  unfolding io_set_entry
  set_entry-settings index entry k s small small' fits =
      let at : entry_register index ≡ 0x10 + index * 2 = entry_register-small index (omega arith) in
      let (low1, high1) =
        is.writes_low index (bit_and entry 0xFFFFFFFF) k s small small'
          (omega (arith, bit_and-low_mask 32 entry)) in
      let s1 =
        apic.set_register_data (bit_and entry 0xFFFFFFFF) (apic.select (0x10 + index * 2) s) in
      let (low2, high2) = is.writes_high index (entry / 2 ^ 32) k s1 small small' (omega arith) in
      (
        rw (io_set_entry, at, low2, low1, bit_and-low_mask 32 entry) refl,
        rw (io_set_entry, at, high2, high1) refl,
      )

  -- On a controller that behaves as documented and has at most 120 entries, an entry of 64 bits
  -- that was set is read back in the bits that software sets, and in these bits every other entry
  -- of the controller is read as before.
  pub set_entry-reads :
      (index other entry : ℕ) (s : apic.State)
      → index < entries
      → other < entries
      → entry < 2 ^ 64
      → bit_and (get_entry apic other (io_set_entry apic index entry s)).0 settings ≡ (
          if other == index
          then bit_and entry settings
          else bit_and (get_entry apic other s).0 settings)
  set_entry-reads index other entry s small small' fits =
      let after = io_set_entry apic index entry s in
      let (low', high') = set_entry-settings index entry other s small small' fits in
      get_entry-settings other after small' ∙ elim (Bool-cases (other == index)) [
        | inl same ↦
            let parts : entry % 2 ^ 32 + entry / 2 ^ 32 * 2 ^ 32 ≡ entry = omega arith in
            rw (low', high', same)
              (sym (
                  bit_and-join 32 (entry % 2 ^ 32) (entry / 2 ^ 32) low_settings high_settings
                    (omega arith) (omega arith))
                ∙ ap (λ (e : ℕ). bit_and e settings) parts)
        | inr differ ↦ rw (low', high', differ) (sym (get_entry-settings other s small'))
      ]

-- The bit fields of an entry are in their ranges.
record IsEntry (e : IoapicEntry) : Type 0 where
  pub in_vector : e.vector < 2 ^ 8
  pub in_delivery_mode : e.delivery_mode < 2 ^ 3
  pub in_destination_mode : e.destination_mode < 2
  pub in_delivery_status : e.delivery_status < 2
  pub in_pin_polarity : e.pin_polarity < 2
  pub in_remote_irr : e.remote_irr < 2
  pub in_trigger_mode : e.trigger_mode < 2
  pub in_mask : e.mask < 2
  pub in_unused : e.unused < 2 ^ 39
  pub in_destination : e.destination < 2 ^ 8

entry_word-lt : (e : IoapicEntry) → IsEntry e → entry_word e < 2 ^ 64
unfolding entry_word
entry_word-lt e is = omega (
  arith, is.in_vector, is.in_delivery_mode, is.in_destination_mode, is.in_delivery_status,
  is.in_pin_polarity, is.in_remote_irr, is.in_trigger_mode, is.in_mask, is.in_unused,
  is.in_destination,
)

entry_word-parts :
    (e : IoapicEntry)
    → IsEntry e
    → (entry_word e % 2 ^ 8 ≡ e.vector)
      × (entry_word e / 2 ^ 8 % 2 ^ 3 ≡ e.delivery_mode)
      × (entry_word e / 2 ^ 15 % 2 ≡ e.trigger_mode)
      × (entry_word e / 2 ^ 16 % 2 ≡ e.mask)
      × (entry_word e / 2 ^ 56 ≡ e.destination)
unfolding entry_word
entry_word-parts e is =
    let h1 = is.in_vector in
    let h2 = is.in_delivery_mode in
    let h3 = is.in_destination_mode in
    let h4 = is.in_delivery_status in
    let h5 = is.in_pin_polarity in
    let h6 = is.in_remote_irr in
    let h7 = is.in_trigger_mode in
    let h8 = is.in_mask in
    let h9 = is.in_unused in
    let h10 = is.in_destination in (omega arith, omega arith, omega arith, omega arith, omega arith)

-- On a controller that behaves as documented and has at most 120 entries, an entry with its fields in
-- range that is registered for one of them is read back, in the bits that software sets, as a word
-- whose parts are the vector, the mode of delivery, the trigger mode, the mask and the destination
-- of the entry.
io_register-fields :
    (apic : Ioapic) (entries : ℕ) (low high : apic.State → ℕ → ℕ)
    → IsController apic entries low high
    → entries ≤ 120
    → (irq : ℕ) (e : IoapicEntry) (s : apic.State) → irq < entries
    → IsEntry e
    → (word : ℕ) × (bit_and (get_entry apic irq (io_register apic irq e s)).0 settings
        ≡ bit_and word settings)
      × (word % 2 ^ 8 ≡ e.vector)
      × (word / 2 ^ 8 % 2 ^ 3 ≡ e.delivery_mode)
      × (word / 2 ^ 15 % 2 ≡ e.trigger_mode)
      × (word / 2 ^ 16 % 2 ≡ e.mask)
      × (word / 2 ^ 56 ≡ e.destination)
unfolding io_register
io_register-fields apic entries low high is few irq e s small fields =
    let same : (irq == irq) ≡ true = (==_iff irq irq).1 refl in
    let read =
      set_entry-reads apic entries low high is few irq irq (entry_word e) s small small
        (entry_word-lt e fields)
      ∙ ap
          (λ t.
            if t
            then bit_and (entry_word e) settings
            else bit_and (get_entry apic irq s).0 settings)
          same in
    let (vector, delivery, trigger, mask, destination) = entry_word-parts e fields in
    (entry_word e, read, vector, delivery, trigger, mask, destination)
