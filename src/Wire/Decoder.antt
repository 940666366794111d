-- ===== src/Wire/Decoder.antt =====
-- `Decoder` of src/wire/codec.rs: a cursor over a slice, whose first error sticks. Each method takes
-- the decoder and returns its value with the decoder changed.
pub mod Cursor
pub mod Read
pub mod Bounds
use rados_rs.Common.{
  ℕ, ◌+◌, ◌-◌, ◌^◌, Bool, true, false, not, ◌||◌, Option, none, some, List, [], ◌∷◌, Result, ok,
  err, take, drop, length, replicate, ltb, ◌==◌, is_some, if◌then◌else◌,
}
use rados_rs.Common.Int.{ℤ}
use rados_rs.Wire.Errors.{WireError, limit_exceeded, malformed, unsupported_version}
use rados_rs.Wire.Bytes.{from_le, signed}

pub record Decoder : Type 0 where
  pub bytes : List ℕ
  pub offset : ℕ
  pub max_bytes : ℕ
  pub error : Option WireError

unfoldable pub new : List ℕ → ℕ → Decoder
new bytes max_bytes = record { bytes = bytes; offset = 0; max_bytes = max_bytes; error = none }

abbrev pub get_or_insert : Option WireError → WireError → Option WireError
get_or_insert none e = some e
get_or_insert (some e') e = some e'

unfoldable pub take_slice : ℕ → Decoder → List ℕ × Decoder
take_slice len d =
    if is_some d.error || ltb (length d.bytes - d.offset) len
    then ([], record d { error = get_or_insert d.error malformed })
    else (take len (drop d.offset d.bytes), record d { offset = d.offset + len })

unfoldable pub raw : ℕ → Decoder → List ℕ × Decoder
raw len d = take_slice len d

-- `first().copied().unwrap_or_default()`
abbrev pub first_or_zero : List ℕ → ℕ
first_or_zero [] = 0
first_or_zero (b ∷ bs) = b

unfoldable pub u8 : Decoder → ℕ × Decoder
u8 d = let (slice, d') = take_slice 1 d in (first_or_zero slice, d')

-- The array that `copy_from_slice` fills, or zeros where the slice is not of its length.
abbrev pub array : ℕ → List ℕ → List ℕ
array n slice = if length slice == n then slice else replicate n 0

unfoldable pub u16 : Decoder → ℕ × Decoder
u16 d = let (slice, d') = take_slice 2 d in (from_le (array 2 slice), d')

unfoldable pub u32 : Decoder → ℕ × Decoder
u32 d = let (slice, d') = take_slice 4 d in (from_le (array 4 slice), d')

unfoldable pub u64 : Decoder → ℕ × Decoder
u64 d = let (slice, d') = take_slice 8 d in (from_le (array 8 slice), d')

unfoldable pub i8 : Decoder → ℤ × Decoder
i8 d = let (word, d') = u8 d in (signed (2 ^ 8) word, d')

unfoldable pub i16 : Decoder → ℤ × Decoder
i16 d = let (word, d') = u16 d in (signed (2 ^ 16) word, d')

unfoldable pub i32 : Decoder → ℤ × Decoder
i32 d = let (word, d') = u32 d in (signed (2 ^ 32) word, d')

unfoldable pub i64 : Decoder → ℤ × Decoder
i64 d = let (word, d') = u64 d in (signed (2 ^ 64) word, d')

unfoldable pub bool : Decoder → Bool × Decoder
bool d = let (byte, d') = u8 d in (not (byte == 0), d')

unfoldable pub bytes : Decoder → List ℕ × Decoder
bytes d =
    let (len, d') = u32 d in
    if is_some d'.error
    then ([], d')
    else if ltb d'.max_bytes len
    then ([], record d' { error = some limit_exceeded })
    else raw len d'

-- The version, the decoder of the payload, and the decoder behind the envelope.
unfoldable pub versioned : ℕ → Decoder → ℕ × Decoder × Decoder
versioned local d0 =
    let (version, d1) = u8 d0 in
    let (compatible, d2) = u8 d1 in
    let (len, d) = u32 d2 in
    if is_some d.error
    then (0, new [] d.max_bytes, d)
    else if ltb local compatible
    then (0, new [] d.max_bytes, record d { error = some (unsupported_version local compatible) })
    else if ltb d.max_bytes len
    then (0, new [] d.max_bytes, record d { error = some limit_exceeded })
    else let (payload, d') = take_slice len d in (version, new payload d.max_bytes, d')

unfoldable pub remaining : Decoder → ℕ
remaining d = length d.bytes - d.offset

unfoldable pub finish : Decoder → Result WireError (Unit {0})
finish d = elim d.error [ none ↦ ok tt | some e ↦ err e ]
