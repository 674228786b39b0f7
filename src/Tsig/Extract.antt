-- ===== src/Tsig/Extract.antt =====
-- src/tsig.rs: `extract_tsig` and `skip_rr`.
use ironbind.Prelude.{
  ℕ, ◌+◌, ◌-◌, ◌*◌, ◌^◌, Bool, Result, ok, err, ltb, ◌==◌, if◌then◌else◌, length, bit_or,
}
use ironbind.Prelude.Text.{Bytes}
use ironbind.Proto.Reader
use ironbind.Proto.Reader.{IoError, Reader, ◌>>=◌, pure, run}
use ironbind.Proto.Message.{be16_at, tell, times}

-- The `String`s that the source returns.
pub data TsigError : Type 0 where
  message_too_short no_additional not_tsig unknown_key unsupported_algorithm : TsigError
  outside_window mac_mismatch : TsigError
  malformed : IoError → TsigError

pub record TsigRdata : Type 0 where
  pub algorithm : Bytes
  pub time_signed : ℕ
  pub fudge : ℕ
  pub mac : Bytes
  pub orig_id : ℕ
  pub error : ℕ
  pub other : Bytes

pub record Extracted : Type 0 where
  pub name : Bytes
  pub tsig : TsigRdata
  pub offset : ℕ
  pub arcount : ℕ

-- `p.pos += n`, which may leave the buffer.
unfoldable pub skip : ℕ → Reader (Unit {0})
skip n buf pos = (ok tt, pos + n)

unfoldable pub skip_question : Reader (Unit {0})
unfolding skip
skip_question = do _ ← Reader.name; skip 4

unfoldable pub skip_rr : Reader (Unit {0})
unfolding skip
skip_rr = do
  _ ← Reader.name
  _ ← Reader.u16
  _ ← Reader.u16
  _ ← Reader.u32
  rdlen ← Reader.u16
  skip rdlen

-- The name, the type and the data of the record that the loops land on. The type is tested before
-- the rest is read.
pub record LastRecord : Type 0 where
  pub name : Bytes
  pub rtype : ℕ
  pub offset : ℕ

unfoldable pub read_head : ℕ → Reader LastRecord
read_head offset = do
  name ← Reader.name
  rtype ← Reader.u16
  pure (record { name = name; rtype = rtype; offset = offset })

unfoldable pub skip_records : ℕ → Reader LastRecord
unfolding skip_rr tell read_head
skip_records records = do _ ← times records skip_rr; offset ← tell; read_head offset

unfoldable pub read_last : ℕ → ℕ → Reader LastRecord
unfolding skip_question skip_records
read_last questions records = do
  _ ← skip 12
  _ ← times questions skip_question
  skip_records records

unfoldable pub read_tsig : Reader TsigRdata
read_tsig = do
  _ ← Reader.u16
  _ ← Reader.u32
  _ ← Reader.u16
  algorithm ← Reader.name
  t1 ← Reader.u16
  t2 ← Reader.u32
  fudge ← Reader.u16
  mac_len ← Reader.u16
  mac ← Reader.bytes mac_len
  orig_id ← Reader.u16
  error ← Reader.u16
  other_len ← Reader.u16
  other ← Reader.bytes other_len
  pure (record {
    algorithm = algorithm;
    time_signed = bit_or (t1 * 2 ^ 32) t2;
    fudge = fudge;
    mac = mac;
    orig_id = orig_id;
    error = error;
    other = other;
  })

abbrev pub finish_tsig : ℕ → LastRecord → Result TsigRdata IoError × ℕ → Result Extracted TsigError
finish_tsig arcount l (err e, pos) = err (TsigError.malformed e)
finish_tsig arcount l (ok t, pos) =
    ok (record { name = l.name; tsig = t; offset = l.offset; arcount = arcount })

abbrev after_last : Bytes → ℕ → Result LastRecord IoError × ℕ → Result Extracted TsigError
after_last message arcount (err e, pos) = err (TsigError.malformed e)
after_last message arcount (ok l, pos) =
    if not_equal l.rtype
    then err TsigError.not_tsig
    else finish_tsig arcount l (read_tsig message pos)
  where
    not_equal : ℕ → Bool
    not_equal t = if t == 250 then Bool.false else Bool.true

-- The walk over `records` records behind the questions, and what it lands on.
unfoldable pub extract_from : Bytes → ℕ → ℕ → ℕ → Result Extracted TsigError
extract_from message questions records arcount =
    after_last message arcount (read_last questions records message 0)

unfoldable pub extract_tsig : Bytes → Result Extracted TsigError
extract_tsig message =
    let arcount = be16_at message 10 in
    if ltb (length message) 12
    then err TsigError.message_too_short
    else if arcount == 0
    then err TsigError.no_additional
    else extract_from message (be16_at message 4)
        (be16_at message 6 + be16_at message 8 + arcount - 1) arcount
