-- ===== src/RowDecoder/Rows/Carriers.antt =====
-- Rows in the carriers that materialised pages keep them in.
use opensqlanywhere.Base.{
  ℕ, suc, ◌+◌, ◌<◌, ◌≡◌, ap, ◌∙◌, List, ◌++◌, arith, length, take, drop, take-length, ok,
}
use opensqlanywhere.Base.Bytes.{to_le_u16}
use opensqlanywhere.RowSegment.{is_continued}
use opensqlanywhere.RowSegment.Parsing.{header_of, declared_of, parse-ok, payload-ok, Fits}
use opensqlanywhere.RowSegment.Encoding.{write_plain}
use opensqlanywhere.RowDecoder.{RowSchema, DecodeError}
use opensqlanywhere.RowDecoder.Rows.{decode_row_exact, decode_materialized_row_record_exact}

-- A plain carrier with no flags, of at most 65535 bytes, is decoded as the row with the payload
-- behind a header of two bytes that states the size of both.
pub carrier-row :
    (p : List ℕ) (schema : RowSchema)
    → 3 + length p < 65536
    → decode_materialized_row_record_exact (write_plain 0 p) schema
      ≡ decode_row_exact (to_le_u16 (length p + 2) ++ p) schema
unfolding decode_materialized_row_record_exact is_continued
carrier-row p schema h =
    rw
      (
        parse-ok input (omega arith) fits,
        payload-ok {E = DecodeError} input fits ∙ ap ok behind,
        declared,
      )
      (ground arith)
  where
    input : List ℕ
    input = write_plain 0 p

    declared : declared_of input ≡ suc (suc (suc (length p)))
    declared = omega arith

    fits : Fits input
    fits = (omega arith, omega arith)

    behind : drop (header_of 0) (take (declared_of input) input) ≡ p
    behind = rw declared (take-length (length p) p (omega arith))
