-- ===== src/Keyboard/Shift.antt =====
-- The keys for shift: pressed and released, from any console with its cursor in the history.
use kokos.Shared.{ℕ, ◌+◌, ◌<◌, ◌≡◌, refl, true, false, ◌||◌, List, ok, ◌>>=◌, arith, ◌==◌, length}
use kokos.Console.Defs.{Console}
use kokos.Console.Cursor.{IsCursor}
use kokos.Keyboard.Defs.{
  Keyboard, is_shift, show_key, press, release_key, interrupt_handle_keyboard,
}
use kokos.Keyboard.Echo.{SameCursor, show_key-SameCursor}

-- The state after the release byte and the code of the key.
abbrev pub released : Keyboard → Keyboard
released k = record k {
  shift = false;
  releasing = false;
  extended = false;
  handled = k.handled + 1 + 1;
}

shift_code :
    (input : ℕ)
    → is_shift input ≡ true
    → (input < 256)
      × ((input == 0xF0) ≡ false)
      × ((input == 0xE0 || input == 0xE1 || input == 0xE2) ≡ false)
shift_code input h = ground arith

module _ (dest : List ℕ) (input : ℕ) (code : is_shift input ≡ true) where
  press_shift :
      (k : Keyboard) {c : Console}
      → k.releasing ≡ false
      → show_key dest input k.console ≡ ok c
      → interrupt_handle_keyboard dest input k
        ≡ ok (record k { console = c; shift = true; extended = false; handled = k.handled + 1 })
  unfolding interrupt_handle_keyboard press
  press_shift k idle run =
      let (_, no_release, no_prefix) = shift_code input code in
      rw (no_release, no_prefix, idle, run, code) refl

  release_shift :
      (k : Keyboard)
      → (interrupt_handle_keyboard dest 0xF0 k >>= interrupt_handle_keyboard dest input)
        ≡ ok (released k)
  unfolding interrupt_handle_keyboard release_key
  release_shift k =
      let (_, no_release, no_prefix) = shift_code input code in
      rw (no_release, no_prefix, code) refl

  -- With an array of 33 bytes, for the code of a key for shift, from a state that waits for no
  -- release and has its cursor in the history, the handler turns shift on; the byte 0xF0 and the
  -- same code turn it off again. Caps lock, the cursor and the scroll position stay as they were,
  -- the release leaves the console alone and no prefix pending, and three interrupts are ended.
  pub shift_held :
      (k : Keyboard)
      → length dest ≡ 33
      → k.releasing ≡ false
      → IsCursor k.console
      → (held : Keyboard) × (after : Keyboard) × (interrupt_handle_keyboard dest input k ≡ ok held)
        × (held.shift ≡ true)
        × (held.caps_lock ≡ k.caps_lock)
        × SameCursor k.console held.console
        × ((interrupt_handle_keyboard dest 0xF0 held >>= interrupt_handle_keyboard dest input)
            ≡ ok after)
        × (after.shift ≡ false)
        × (after.releasing ≡ false)
        × (after.extended ≡ false)
        × (after.console ≡ held.console)
        × (after.handled ≡ k.handled + 3)
  shift_held k size idle v =
      let (small, _, _) = shift_code input code in
      let (c, run, same) = show_key-SameCursor dest input k.console size small v in
      let held : Keyboard = record k {
        console = c;
        shift = true;
        extended = false;
        handled = k.handled + 1;
      } in
      (
        held,
        released held,
        press_shift k idle run,
        refl,
        refl,
        same,
        release_shift held,
        refl,
        refl,
        refl,
        refl,
        omega arith,
      )
