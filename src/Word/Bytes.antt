-- ===== src/Word/Bytes.antt =====
-- Memory as its bytes by address, the little-endian words of it, and the widening of an `int`.
use kokos.Shared.{
  ℕ, zero, suc, ◌+◌, ◌-◌, ◌*◌, ◌%◌, ◌^◌, ◌<◌, ◌≡◌, refl, sym, arith, ◌-◌, List, get_or, ltb,
  if◌then◌else◌,
}

-- The unsigned word of the first bytes from an address on.
unfoldable pub load : ℕ → (ℕ → ℕ) → ℕ → ℕ
load zero memory address = 0
load (suc size) memory address = memory address + 256 * load size memory (address + 1)

-- `pointer + i` for a pointer to bytes and an `int` that is given by its bit pattern
unfoldable pub byte_address : ℕ → ℕ → ℕ
byte_address pointer i =
    if ltb i (2 ^ 31) then (pointer + i) % 2 ^ 64 else (pointer + (2 ^ 64 - 2 ^ 32 + i)) % 2 ^ 64

pub byte_address-add :
    (pointer i : ℕ) → i < 2 ^ 31 → pointer + i < 2 ^ 64 → byte_address pointer i ≡ pointer + i
unfolding byte_address
byte_address-add pointer i small inside = ground arith

-- A word is read from its own bytes only.
pub load-agrees :
    (size : ℕ) (memory memory' : ℕ → ℕ) (address : ℕ)
    → ((k : ℕ) → k < size → memory (address + k) ≡ memory' (address + k))
    → load size memory address ≡ load size memory' address
unfolding load
load-agrees zero memory memory' address same = refl
load-agrees (suc size) memory memory' address same =
    let here : memory address ≡ memory' address =
      let e : address + 0 ≡ address = omega arith in rw (sym e) (same 0 (omega arith)) in
    let rest : load size memory (address + 1) ≡ load size memory' (address + 1) =
      load-agrees size memory memory' (address + 1) next in
    omega (arith, here, rest)
  where
    next : (k : ℕ) → k < size → memory (address + 1 + k) ≡ memory' (address + 1 + k)
    next k h =
        let e : address + 1 + k ≡ address + suc k = omega arith in rw e (same (suc k) (omega arith))

-- Memory that holds some bytes from an address on, and zeros elsewhere.
abbrev pub bytes_from : ℕ → List ℕ → ℕ → ℕ
bytes_from start bytes a = if ltb a start then 0 else get_or bytes (a - start) 0
