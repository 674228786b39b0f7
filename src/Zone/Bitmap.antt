-- ===== src/Zone/Bitmap.antt =====
-- src/zone.rs: `encode_nsec_bitmap`, the type bitmap of RFC 4034, section 4.1.2.
use ironbind.Prelude.{
  ℕ, zero, suc, ◌/◌, ◌%◌, ◌^◌, ◌&&◌, List, [], ◌∷◌, ◌++◌, ltb, ◌==◌, if◌then◌else◌, length,
  is_empty, bit_or,
}
use ironbind.Prelude.Text.{Bytes}

-- A window: its number and its 32 bytes. The windows are the entries of a `BTreeMap`, in order.
abbrev pub Window : Type 0
Window = ℕ × Bytes

abbrev zeros : ℕ → Bytes
zeros zero = []
zeros (suc n) = 0 ∷ zeros n

-- `bits[i] |= mask`
unfoldable or_at : Bytes → ℕ → ℕ → Bytes
or_at [] i mask = []
or_at (b ∷ bs) zero mask = bit_or b mask ∷ bs
or_at (b ∷ bs) (suc i) mask = b ∷ or_at bs i mask

-- `0x80 >> (bit % 8)` in byte `bit / 8`.
unfoldable set_bit : Bytes → ℕ → Bytes
unfolding or_at
set_bit bits bit = or_at bits (bit / 8) (0x80 / 2 ^ (bit % 8))

unfoldable add_type : ℕ → List Window → List Window
unfolding set_bit
add_type t [] = (t / 2 ^ 8 % 256, set_bit (zeros 32) (t % 256)) ∷ []
add_type t ((w, bits) ∷ ws) =
    let rest = add_type t ws in
    if ltb (t / 2 ^ 8 % 256) w
    then (t / 2 ^ 8 % 256, set_bit (zeros 32) (t % 256)) ∷ (w, bits) ∷ ws
    else if t / 2 ^ 8 % 256 == w
    then (w, set_bit bits (t % 256)) ∷ ws
    else (w, bits) ∷ rest

unfoldable windows_of : List ℕ → List Window → List Window
unfolding add_type
windows_of [] ws = ws
windows_of (t ∷ ts) ws = windows_of ts (add_type t ws)

-- `&bits[..used]`, where the last byte of it is the last that is not 0.
unfoldable trim_zeros : Bytes → Bytes
trim_zeros [] = []
trim_zeros (b ∷ bs) = let rest = trim_zeros bs in if b == 0 && is_empty rest then [] else b ∷ rest

unfoldable emit : List Window → Bytes
unfolding trim_zeros
emit [] = []
emit ((w, bits) ∷ ws) =
    let used = trim_zeros bits in
    if is_empty used then emit ws else w ∷ length used % 256 ∷ used ++ emit ws

unfoldable pub encode_nsec_bitmap : List ℕ → Bytes
unfolding windows_of emit
encode_nsec_bitmap types = emit (windows_of types [])
