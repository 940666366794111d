-- ===== src/Wire/Runs.antt =====
-- Runs of the codec on concrete values.
use rados_rs.Common.{
  none, ℕ, ◌+◌, ◌^◌, ◌≤◌, ◌≡◌, refl, arith, List, [], ◌∷◌, ◌++◌, length, leb, if◌then◌else◌, ok,
  err, u32_max,
}
use rados_rs.Common.Int.{negsuc}
use rados_rs.Wire.Errors.{WireError}
use rados_rs.Wire.Bytes.{le_bytes, IsSigned}
use rados_rs.Wire.Encoder as Enc
use rados_rs.Wire.Encoder.{finish, new, reserve, raw, u8, u32}
use rados_rs.Wire.Encoder.Emits.{Emits-u8}
use rados_rs.Wire.Decoder as Decoding
use rados_rs.Wire.Decoder.Bounds.{IsWithin, IsTake, take_slice-IsTake}
use rados_rs.Wire.RoundTrip.{
  HasRead, bytes-limit, bytes-round_trip, i64-round_trip, versioned-round_trip,
}

abbrev word : List ℕ
word = 7 ∷ 8 ∷ []

abbrev nothing_more : List ℕ
nothing_more = []

small : 64 ≤ u32_max
small = omega arith

bytes-limit_example : finish (Enc.bytes word (new 64)) ≡ (
    if leb (length word + 4) 64
    then ok (le_bytes 4 (length word) ++ word)
    else err WireError.limit_exceeded)
bytes-limit_example = bytes-limit 64 small word

bytes_written : finish (Enc.bytes (7 ∷ 8 ∷ []) (new 64)) ≡ ok (2 ∷ 0 ∷ 0 ∷ 0 ∷ 7 ∷ 8 ∷ [])
unfolding Enc.bytes new reserve raw u32 finish le_bytes
bytes_written = refl

bytes-round_trip_example :
    HasRead
      (7 ∷ 8 ∷ [])
      (1 ∷ [])
      (Decoding.bytes (Decoding.new ((2 ∷ 0 ∷ 0 ∷ 0 ∷ 7 ∷ 8 ∷ []) ++ (1 ∷ [])) 16))
bytes-round_trip_example =
    bytes-round_trip 64 small (7 ∷ 8 ∷ []) bytes_written 16 (omega arith) (omega arith) (1 ∷ [])

minus_two_written :
    finish (Enc.i64 (negsuc 1) (new 64)) ≡ ok (254 ∷ 255 ∷ 255 ∷ 255 ∷ 255 ∷ 255 ∷ 255 ∷ 255 ∷ [])
unfolding Enc.i64 new reserve raw finish le_bytes
minus_two_written = refl

minus_two-IsSigned : IsSigned (2 ^ 64) (negsuc 1)
minus_two-IsSigned = omega arith

i64-round_trip_example :
    HasRead
      (negsuc 1)
      []
      (Decoding.i64 (Decoding.new ((254 ∷ 255 ∷ 255 ∷ 255 ∷ 255 ∷ 255 ∷ 255 ∷ 255 ∷ []) ++ []) 16))
i64-round_trip_example =
    i64-round_trip 64 small (negsuc 1) minus_two_written minus_two-IsSigned 16 []

envelope_written :
    finish (Enc.versioned 3 1 (Enc.u8 9) (new 64)) ≡ ok (3 ∷ 1 ∷ 1 ∷ 0 ∷ 0 ∷ 0 ∷ 9 ∷ [])
unfolding Enc.versioned Enc.envelope new reserve raw u8 u32 finish le_bytes
envelope_written = refl

versioned-round_trip_example :
    (Decoding.versioned 2 (Decoding.new ((3 ∷ 1 ∷ 1 ∷ 0 ∷ 0 ∷ 0 ∷ 9 ∷ []) ++ []) 16)).0 ≡ 3
    × ((Decoding.versioned 2 (Decoding.new ((3 ∷ 1 ∷ 1 ∷ 0 ∷ 0 ∷ 0 ∷ 9 ∷ []) ++ []) 16)).1
        ≡ Decoding.new (9 ∷ []) 16)
    × (Decoding.remaining
          (Decoding.versioned 2 (Decoding.new ((3 ∷ 1 ∷ 1 ∷ 0 ∷ 0 ∷ 0 ∷ 9 ∷ []) ++ []) 16)).2
        ≡ length nothing_more)
versioned-round_trip_example =
    versioned-round_trip 64 small (Emits-u8 9) 3 1 envelope_written 2 (omega arith) 16 (omega arith)
      (omega arith) nothing_more

abbrev reader : Decoding.Decoder
reader = record { bytes = 4 ∷ 5 ∷ 6 ∷ []; offset = 1; max_bytes = 16; error = none }

reader-IsWithin : IsWithin reader
reader-IsWithin = record { offset = omega arith }

take_slice-IsTake_example :
    IsTake 2 reader (Decoding.take_slice 2 reader).0 (Decoding.take_slice 2 reader).1
take_slice-IsTake_example = take_slice-IsTake 2 reader reader-IsWithin
