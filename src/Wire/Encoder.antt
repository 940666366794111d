-- ===== src/Wire/Encoder.antt =====
-- `Encoder` of src/wire/codec.rs. Each method takes the encoder and returns it changed. A Rust
-- `&str` is the list of its bytes; `usize` has 64 bits.
pub mod Emits
pub mod Writes
pub mod Tries
use rados_rs.Common.{
  ℕ, ◌-◌, ◌^◌, ◌<◌, Bool, true, false, Option, none, some, List, [], ◌∷◌, ◌++◌, Result, ok, err,
  length, ltb, is_some, if◌then◌else◌, min, u32_max,
}
use rados_rs.Common.Int.{ℤ}
use rados_rs.Wire.Errors.{WireError, limit_exceeded}
use rados_rs.Wire.Bytes.{le_bytes, pattern_of}

pub record Encoder : Type 0 where
  pub bytes : List ℕ
  pub limit : ℕ
  pub error : Option WireError

unfoldable pub new : ℕ → Encoder
new limit = record { bytes = []; limit = limit; error = none }

-- The Boolean says whether the bytes may be written; a refusal is remembered.
unfoldable pub reserve : ℕ → Encoder → Bool × Encoder
reserve len e =
    if is_some e.error
    then (false, e)
    else if ltb (e.limit - length e.bytes) len
    then (false, record e { error = some limit_exceeded })
    else (true, e)

unfoldable pub raw : List ℕ → Encoder → Encoder
unfolding reserve
raw value e =
    let (room, e') = reserve (length value) e in
    if room then record e' { bytes = e'.bytes ++ value } else e'

unfoldable pub u8 : ℕ → Encoder → Encoder
u8 value = raw (value ∷ [])

unfoldable pub u16 : ℕ → Encoder → Encoder
u16 value = raw (le_bytes 2 value)

unfoldable pub u32 : ℕ → Encoder → Encoder
u32 value = raw (le_bytes 4 value)

unfoldable pub u64 : ℕ → Encoder → Encoder
u64 value = raw (le_bytes 8 value)

unfoldable pub i8 : ℤ → Encoder → Encoder
i8 value = raw (le_bytes 1 (pattern_of (2 ^ 8) value))

unfoldable pub i16 : ℤ → Encoder → Encoder
i16 value = raw (le_bytes 2 (pattern_of (2 ^ 16) value))

unfoldable pub i32 : ℤ → Encoder → Encoder
i32 value = raw (le_bytes 4 (pattern_of (2 ^ 32) value))

unfoldable pub i64 : ℤ → Encoder → Encoder
i64 value = raw (le_bytes 8 (pattern_of (2 ^ 64) value))

abbrev pub bool_byte : Bool → ℕ
bool_byte true = 1
bool_byte false = 0

unfoldable pub bool : Bool → Encoder → Encoder
bool value = u8 (bool_byte value)

-- A length prefix of four bytes, and the bytes; a length over `u32::MAX` is an error.
unfoldable pub bytes : List ℕ → Encoder → Encoder
bytes value e =
    if ltb u32_max (length value)
    then record e { error = some limit_exceeded }
    else raw value (u32 (length value) e)

unfoldable pub string : List ℕ → Encoder → Encoder
string value = bytes value

unfoldable pub finish : Encoder → Result WireError (List ℕ)
finish e = elim e.error [ none ↦ ok e.bytes | some error ↦ err error ]

-- The second half of `versioned`, once the payload is encoded.
unfoldable pub envelope : ℕ → ℕ → Result WireError (List ℕ) → Encoder → Encoder
envelope version compatible (err _) e = record e { error = some limit_exceeded }
envelope version compatible (ok payload) e =
    if ltb u32_max (length payload)
    then record e { error = some limit_exceeded }
    else raw payload (u32 (length payload) (u8 compatible (u8 version e)))

unfoldable pub versioned : ℕ → ℕ → (Encoder → Encoder) → Encoder → Encoder
versioned version compatible encode e =
    envelope version compatible (finish (encode (new (min e.limit u32_max)))) e
