-- ===== src/Msgr/Frame/ReadBack.antt =====
-- Writing and then reading the segments and the epilogue of a frame, in src/msgr/frame.rs.
use rados_rs.Common.{
  ℕ, zero, suc, ◌+◌, ◌≤◌, ◌≡◌, refl, ap, ◌∙◌, arith, Bool, true, false, List, [], ◌∷◌, ◌++◌, map,
  append_assoc, length, ok, bind-step, ltb, ◌==◌, eq→==, Bool-cases, inl, inr, u32_max,
}
use rados_rs.Wire.Bytes.{le_bytes, length-le_bytes, from_le-le_bytes}
use rados_rs.Msgr.Frame.{Segment}
use rados_rs.Msgr.Frame.Crc.{crc32c, checksum, first_segment, contents, checksums, epilogue}
use rados_rs.Msgr.Frame.Sizes.{length-checksums}
use rados_rs.Msgr.Frame.Described.{describe}
use rados_rs.Msgr.Frame.Read.{
  is_intact, read_check, read_segments, check_sums, check_status, read_epilogue,
}
use rados_rs.Msgr.Frame.PreambleBack.{read_exact-append, word_take, word_drop, crc-small}

module _ (crc32c_append : ℕ → List ℕ → ℕ) where
  module _ (with_data_crc : Bool) where
    intact :
        (content : List ℕ)
        → is_intact crc32c_append with_data_crc content
            (le_bytes 4 (checksum crc32c_append with_data_crc content))
          ≡ true
    unfolding is_intact checksum
    intact content = elim (Bool-cases with_data_crc) [
      | inl checked ↦ rw checked (
          simp (
            from_le-le_bytes 4 (crc32c crc32c_append u32_max content)
                (crc-small crc32c_append u32_max content),
            eq→== (crc32c crc32c_append u32_max content) _ refl,
          ))
      | inr unchecked ↦ rw unchecked refl
    ]

    read_segments-contents :
        (index : ℕ) (segments : List Segment) (more : List ℕ)
        → (index == 0) ≡ false
        → read_segments crc32c_append with_data_crc index
            (map describe segments)
            (contents crc32c_append segments ++ more)
          ≡ ok (segments, more)
    unfolding read_segments contents
    read_segments-contents index [] more h = refl
    read_segments-contents index (s ∷ rest) more h =
        rw (append_assoc s.content (contents crc32c_append rest) more) (
          bind-step _ _ (
            read_exact-append s.content (contents crc32c_append rest ++ more) (length s.content)
              refl)
          ∙ rw h (bind-step _ _ (read_segments-contents (index + 1) rest more (ground arith))))

    first_split :
        (alignment x : ℕ) (xs after : List ℕ)
        → first_segment crc32c_append with_data_crc
              (record { alignment = alignment; content = x ∷ xs })
            ++ after
          ≡ (x ∷ xs) ++ (le_bytes 4 (checksum crc32c_append with_data_crc (x ∷ xs)) ++ after)
    unfolding first_segment
    first_split alignment x xs after =
        let some_bytes : (length (x ∷ xs) == 0) ≡ false = ground arith in
        rw some_bytes (simp append_assoc)

    -- The first segment, by its content.
    pub read_segments-first :
        (alignment : ℕ) (content : List ℕ) (rest : List Segment) (more : List ℕ)
        → read_segments crc32c_append with_data_crc 0
            (record { len = length content; alignment = alignment } ∷ map describe rest)
            (first_segment crc32c_append with_data_crc
                (record { alignment = alignment; content = content })
              ++ (contents crc32c_append rest ++ more))
          ≡ ok (record { alignment = alignment; content = content } ∷ rest, more)
    unfolding read_segments read_check first_segment
    read_segments-first alignment [] rest more =
        bind-step _ _ (read_exact-append [] (contents crc32c_append rest ++ more) 0 refl)
        ∙ bind-step _ _ (read_segments-contents 1 rest more refl)
    read_segments-first alignment (x ∷ xs) rest more =
        let content = x ∷ xs in
        let sum = le_bytes 4 (checksum crc32c_append with_data_crc content) in
        let after = contents crc32c_append rest ++ more in
        let checked : ltb 0 (length content) ≡ true = ground arith in
        ap
          (λ stream.
            read_segments crc32c_append with_data_crc 0
              (record { len = length content; alignment = alignment } ∷ map describe rest) stream)
          (first_split alignment x xs after)
        ∙ bind-step _ _ (read_exact-append content (sum ++ after) (length content) refl)
        ∙ rw checked (
            simp (
              read_exact-append sum after 4 (length-le_bytes 4 _),
              intact content,
              read_segments-contents 1 rest more refl,
            ))

    check_sums-checksums :
        (k : ℕ) (segments : List Segment)
        → length segments ≤ k
        → check_sums crc32c_append with_data_crc segments
            (checksums crc32c_append with_data_crc k segments)
          ≡ ok tt
    unfolding check_sums checksums
    check_sums-checksums k [] h = refl
    check_sums-checksums zero (s ∷ rest) h = absurd (omega arith)
    check_sums-checksums (suc k) (s ∷ rest) h =
        simp (word_take, word_drop, intact s.content, check_sums-checksums k rest (omega arith))

    pub read_epilogue-epilogue :
        (s : Segment) (rest : List Segment) (more : List ℕ)
        → length rest ≤ 3
        → read_epilogue crc32c_append with_data_crc
            (s ∷ rest)
            (epilogue crc32c_append with_data_crc rest ++ more)
          ≡ ok more
    unfolding read_epilogue epilogue check_status
    read_epilogue-epilogue s [] more h = refl
    read_epilogue-epilogue s (t ∷ rest) more h =
        let bytes = 14 ∷ checksums crc32c_append with_data_crc 3 (t ∷ rest) in
        let long : length bytes ≡ 13 =
          omega (arith, length-checksums crc32c_append with_data_crc 3 (t ∷ rest)) in
        bind-step _ _ (read_exact-append bytes more 13 long)
        ∙ bind-step _ _ (check_sums-checksums 3 (t ∷ rest) h)
