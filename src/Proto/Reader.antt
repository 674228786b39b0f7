-- ===== src/Proto/Reader.antt =====
-- src/proto.rs: `Parser`, a cursor over a borrowed slice. `buf` never changes, so an action takes
-- it as an argument; it returns the position with its result, also when it fails.
pub mod Total
use ironbind.Prelude.{
  ℕ, zero, suc, ◌+◌, ◌-◌, ◌*◌, ◌%◌, ◌^◌, Bool, true, false, Option, none, some, List, [], ◌∷◌, ◌++◌,
  map, Result, ok, err, ltb, leb, ◌==◌, if◌then◌else◌, length, get_elem?, take, drop, bit_and,
  bit_or,
}
use ironbind.Prelude.Text.{Bytes, to_ascii_lowercase, is_utf8, join_dots, dot}

-- `io::ErrorKind`. `out_of_fuel` is no Rust value: see `name`.
pub data IoError : Type 0 where
  unexpected_eof invalid_data out_of_fuel : IoError

abbrev pub Reader {ℓ} : Type ℓ → Type ℓ
Reader A = Bytes → ℕ → Result A IoError × ℕ

infixl 5 ◌>>=◌
abbrev pub then_read {ℓ κ} :
    {A : Type ℓ} {B : Type κ} → Result A IoError × ℕ → (A → Reader B) → Bytes → Result B IoError × ℕ
then_read (ok x, pos) f buf = f x buf pos
then_read (err e, pos) f buf = (err e, pos)

-- `?`
abbrev pub ◌>>=◌ {ℓ κ} : {A : Type ℓ} {B : Type κ} → Reader A → (A → Reader B) → Reader B
◌>>=◌ m f buf pos = then_read (m buf pos) f buf

abbrev pub pure {ℓ} : {A : Type ℓ} → A → Reader A
pure x buf pos = (ok x, pos)

-- A read from the start of a buffer, with the position thrown away.
abbrev pub run {ℓ} : {A : Type ℓ} → Reader A → Bytes → Result A IoError
run m buf = (m buf 0).0

unfoldable pub peek : Reader ℕ
peek buf pos = elim (get_elem? buf pos) [ none ↦ (err unexpected_eof, pos) | some b ↦ (ok b, pos) ]

pub advance : ℕ → Reader (Unit {0})
advance n buf pos = (ok tt, pos + n)

unfoldable pub u8 : Reader ℕ
unfolding peek advance
u8 = do b ← peek; _ ← advance 1; pure b

unfoldable pub u16 : Reader ℕ
u16 = do hi ← u8; lo ← u8; pure (bit_or (hi * 2 ^ 8) lo)

unfoldable pub u32 : Reader ℕ
u32 = do hi ← u16; lo ← u16; pure (bit_or (hi * 2 ^ 16) lo)

-- `&buf[from..to]`
abbrev pub slice {ℓ} : {A : Type ℓ} → List A → ℕ → ℕ → List A
slice buf from to = take (to - from) (drop from buf)

unfoldable pub bytes : ℕ → Reader Bytes
bytes n buf pos =
    if ltb (length buf) (pos + n)
    then (err unexpected_eof, pos)
    else (ok (slice buf pos (pos + n)), pos + n)

unfoldable pub remaining : Reader ℕ
remaining buf pos = (ok (length buf - pos), pos)

-- The bytes of a label as text: `from_utf8(..).unwrap_or("?").to_ascii_lowercase()`.
unfoldable pub label_text : Bytes → Bytes
label_text l = to_ascii_lowercase (if is_utf8 l then l else (b'?' ∷ []))

abbrev pub joined : List Bytes → Bytes
joined [] = dot ∷ []
joined (p ∷ ps) = join_dots (p ∷ ps)

-- The locals of `name`: `here` is the local `pos`, and `pos` is the cursor of the parser.
pub record NameState : Type 0 where
  pub parts : List Bytes
  pub here : ℕ
  pub jumped : Bool
  pub jumps : ℕ
  pub pos : ℕ

pub data Turn : Type 0 where
  done : Result Bytes IoError → ℕ → Turn
  next : NameState → Turn

-- A pointer, whose two bytes are `b` and the one behind it.
unfoldable pub turn_pointer : Bytes → NameState → ℕ → Turn
turn_pointer buf s b = elim (get_elem? buf (s.here + 1)) [
  | none ↦ done (err invalid_data) s.pos
  | some low ↦
      let pos' = if s.jumped then s.pos else s.here + 2 in
      if ltb 20 (s.jumps + 1)
      then done (err invalid_data) pos'
      else next (record {
        parts = s.parts;
        here = bit_or (bit_and b 0x3f * 2 ^ 8) low;
        jumped = true;
        jumps = s.jumps + 1;
        pos = pos';
      })
]

unfoldable pub turn_label : Bytes → NameState → ℕ → Turn
turn_label buf s b =
    let end = s.here + 1 + b in
    if ltb (length buf) end
    then done (err invalid_data) s.pos
    else next
        (record s { parts = s.parts ++ (label_text (slice buf (s.here + 1) end) ∷ []); here = end })

-- One turn of the loop of `name`.
unfoldable pub turn : Bytes → NameState → Turn
turn buf s = elim (get_elem? buf s.here) [
  | none ↦ done (err invalid_data) s.pos
  | some b ↦
      if b == 0
      then done (ok (joined s.parts)) (if s.jumped then s.pos else s.here + 1)
      else if bit_and b 0xc0 == 0xc0
      then turn_pointer buf s b
      else turn_label buf s b
]

unfoldable pub name_loop : ℕ → Bytes → NameState → Result Bytes IoError × ℕ
name_loop zero buf s = (err out_of_fuel, s.pos)
name_loop (suc fuel) buf s = elim (turn buf s) [
  | done r pos ↦ (r, pos)
  | next s' ↦ name_loop fuel buf s'
]

abbrev pub name_start : ℕ → NameState
name_start pos = record { parts = []; here = pos; jumped = false; jumps = 0; pos = pos }

-- At most 20 jumps, and between two of them a walk through the buffer.
abbrev pub name_fuel : Bytes → ℕ
name_fuel buf = 21 * (length buf + 2)

unfoldable pub name : Reader Bytes
unfolding name_loop turn turn_pointer turn_label
name buf pos = name_loop (name_fuel buf) buf (name_start pos)
