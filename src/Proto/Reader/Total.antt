-- ===== src/Proto/Reader/Total.antt =====
-- src/proto.rs: the fuel of the loop in `Parser::name`.
use ironbind.Prelude.{
  ℕ, zero, suc, ◌+◌, ◌-◌, ◌*◌, ◌≤◌, ◌<◌, ◌≡◌, ◌≢◌, refl, inl, inr, err, arith, length, get_elem?,
  get_elem?-lt, Option-cases, bit_and, bit_or, ◌^◌,
}
use ironbind.Prelude.Text.{Bytes}
use ironbind.Proto.Reader.{
  out_of_fuel, NameState, Turn, done, next, turn, turn_pointer, turn_label, name_loop, name_start,
  name_fuel, name,
}

-- Jumps still allowed, and bytes still ahead.
abbrev measure : Bytes → NameState → ℕ
measure buf s = (20 - s.jumps) * (length buf + 2) + (length buf + 1 - s.here)

-- A turn that goes on uses up some of the measure and stays within 20 jumps.
abbrev Progress : Bytes → NameState → Turn → Type 0
Progress buf s (done r pos) = r ≢ err out_of_fuel
Progress buf s (next t) = (t.jumps ≤ 20) × (measure buf t < measure buf s)

-- One jump fewer is worth a whole walk through the buffer.
jump_pays :
    (j k here here' : ℕ)
    → j < 20
    → here < k
    → (20 - (j + 1)) * (k + 2) + (k + 1 - here') < (20 - j) * (k + 2) + (k + 1 - here)
jump_pays j k here here' h g = let e : 20 - j ≡ 20 - (j + 1) + 1 = omega arith in rw e (omega arith)

turn_pointer-Progress :
    (buf : Bytes) (s : NameState) (b : ℕ)
    → s.jumps ≤ 20
    → s.here < length buf
    → Progress buf s (turn_pointer buf s b)
unfolding turn_pointer
turn_pointer-Progress buf s b h g = elim (Option-cases (get_elem? buf (s.here + 1))) [
  | inl e ↦ ground arith
  | inr (low, e) ↦
      ground (arith, jump_pays s.jumps (length buf) s.here (bit_or (bit_and b 0x3f * 2 ^ 8) low))
]

turn_label-Progress :
    (buf : Bytes) (s : NameState) (b : ℕ)
    → s.jumps ≤ 20
    → s.here < length buf
    → Progress buf s (turn_label buf s b)
unfolding turn_label
turn_label-Progress buf s b h g = ground arith

turn-Progress : (buf : Bytes) (s : NameState) → s.jumps ≤ 20 → Progress buf s (turn buf s)
unfolding turn
turn-Progress buf s h = elim (Option-cases (get_elem? buf s.here)) [
  | inl e ↦ ground arith
  | inr (b, e) ↦ ground (
    arith,
    get_elem?-lt buf s.here b e,
    turn_pointer-Progress buf s b,
    turn_label-Progress buf s b,
  )
]

name_loop-ne-out_of_fuel :
    (fuel : ℕ) (buf : Bytes) (s : NameState)
    → s.jumps ≤ 20
    → measure buf s < fuel
    → (name_loop fuel buf s).0 ≢ err out_of_fuel
unfolding name_loop
name_loop-ne-out_of_fuel zero buf s h m = elim m [ ]
name_loop-ne-out_of_fuel (suc fuel) buf s h m =
    go (turn buf s) (turn-Progress buf s h) (λ t p q. name_loop-ne-out_of_fuel fuel buf t p q) refl
  where
    go :
        (t : Turn)
        → Progress buf s t
        → ((u : NameState)
            → u.jumps ≤ 20
            → measure buf u < fuel
            → (name_loop fuel buf u).0 ≢ err out_of_fuel)
        → turn buf s ≡ t
        → (name_loop (suc fuel) buf s).0 ≢ err out_of_fuel
    go (done r pos) p rec e = rw (e, name_loop) p
    go (next t) p rec e = rw (e, name_loop) (rec t p.0 (omega arith))

-- Reading a name returns a name or an error of the program on every buffer and at every position:
-- the fuel of the model never runs out, so compression pointers cannot make the loop run for ever.
pub name-ne-out_of_fuel : (buf : Bytes) (pos : ℕ) → (name buf pos).0 ≢ err out_of_fuel
unfolding name
name-ne-out_of_fuel buf pos =
    name_loop-ne-out_of_fuel (name_fuel buf) buf (name_start pos) (omega arith) (omega arith)
