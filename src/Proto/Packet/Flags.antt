-- ===== src/Proto/Packet/Flags.antt =====
-- src/proto.rs: the flag bits of a packet.
use ironbind.Prelude.{ℕ, ◌%◌, ◌≡◌, refl, true, false, not, bit_and, bit_or, arith, ◌==◌}
use ironbind.Prelude.Bits.{
  bit_and-or, bit_and_assoc, bit_and_nibble, bit_or-zero, zero-bit_or, bit_and-zero,
}
use ironbind.Proto.Packet.{
  Packet, new_response, is_response, rd, truncated, rcode, set_rcode, set_aa, set_ra,
}

-- After `(flags & keep) | bits` a mask inside `keep` still reads the old flags.
masked_or :
    (f keep bits mask : ℕ)
    → bit_and keep mask ≡ mask
    → bit_and bits mask ≡ 0
    → bit_and (bit_or (bit_and f keep) bits) mask ≡ bit_and f mask
masked_or f keep bits mask h k = ground (
  arith,
  bit_and-or (bit_and f keep) bits mask,
  bit_and_assoc f keep mask,
  bit_or-zero (bit_and f mask),
)

-- `set_rcode` stores the low four bits of the code and leaves the QR, TC and RD bits.
pub rcode-set_rcode :
    (p : Packet) (c : ℕ)
    → (rcode (set_rcode c p) ≡ c % 16)
      × (is_response (set_rcode c p) ≡ is_response p)
      × (rd (set_rcode c p) ≡ rd p)
      × (truncated (set_rcode c p) ≡ truncated p)
unfolding rcode set_rcode is_response rd truncated
rcode-set_rcode p c = (
  ground (
    arith,
    bit_and-or (bit_and p.flags 0xfff0) (bit_and c 0xf) 0xf,
    bit_and_assoc p.flags 0xfff0 0xf,
    bit_and-zero p.flags,
    bit_and_assoc c 0xf 0xf,
    zero-bit_or (bit_and c 0xf),
    bit_and_nibble c,
  ),
  ground (arith, kept 0x8000 refl (code_clear 0x8000 refl)),
  ground (arith, kept 0x0100 refl (code_clear 0x0100 refl)),
  ground (arith, kept 0x0200 refl (code_clear 0x0200 refl)),
)
  where
    code_clear : (mask : ℕ) → bit_and 0xf mask ≡ 0 → bit_and (bit_and c 0xf) mask ≡ 0
    code_clear mask h = ground (arith, bit_and_assoc c 0xf mask, bit_and-zero c)

    kept :
        (mask : ℕ)
        → bit_and 0xfff0 mask ≡ mask
        → bit_and (bit_and c 0xf) mask ≡ 0
        → bit_and (bit_or (bit_and p.flags 0xfff0) (bit_and c 0xf)) mask ≡ bit_and p.flags mask
    kept mask h k = masked_or p.flags 0xfff0 (bit_and c 0xf) mask h k

-- A response to any request has QR set, opcode and code 0, is not truncated, and echoes RD.
pub new_response_flags :
    (id f : ℕ)
    → (is_response (new_response id f) ≡ true)
      × (rd (new_response id f) ≡ not (bit_and f 0x0100 == 0))
      × (truncated (new_response id f) ≡ false)
      × (rcode (new_response id f) ≡ 0)
      × ((new_response id f).id ≡ id)
unfolding new_response is_response rd truncated rcode
new_response_flags id f = (
  ground (arith, reads 0x8000, bit_and-zero f, bit_or-zero 0x8000),
  ground (arith, reads 0x0100, zero-bit_or (bit_and f 0x0100), bit_or-zero (bit_and f 0x0100)),
  ground (arith, reads 0x0200, bit_and-zero f, bit_or-zero 0),
  ground (arith, reads 0x000f, bit_and-zero f, bit_or-zero 0),
  refl,
)
  where
    reads :
        (mask : ℕ)
        → bit_and (bit_or (bit_or 0x8000 (bit_and f 0x0100)) 0x0080) mask
          ≡ bit_or
              (bit_or (bit_and 0x8000 mask) (bit_and f (bit_and 0x0100 mask)))
              (bit_and 0x0080 mask)
    reads mask = ground (
      arith,
      bit_and-or (bit_or 0x8000 (bit_and f 0x0100)) 0x0080 mask,
      bit_and-or 0x8000 (bit_and f 0x0100) mask,
      bit_and_assoc f 0x0100 mask,
    )

-- AA and RA are set apart from QR.
pub is_response-set_aa : (p : Packet) → is_response (set_aa p) ≡ is_response p
unfolding is_response set_aa
is_response-set_aa p =
    ground (arith, bit_and-or p.flags 0x0400 0x8000, bit_or-zero (bit_and p.flags 0x8000))

pub is_response-set_ra : (p : Packet) → is_response (set_ra p) ≡ is_response p
unfolding is_response set_ra
is_response-set_ra p =
    ground (arith, bit_and-or p.flags 0x0080 0x8000, bit_or-zero (bit_and p.flags 0x8000))
