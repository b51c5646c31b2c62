-- ===== src/Tests/Encodings.antt =====
-- The integer encodings and the compressed amounts on some numbers.
use darcoin.Common.{◌≡◌, ◌≢◌, refl, inl, [], ◌∷◌, ◌++◌, if◌then◌else◌, ltb, length, Bytes, arith}
use darcoin.Serialize.{ok, fail, too_large, max_size}
use darcoin.Serialize.CompactSize.{compact_size_size, write_compact_size, read_compact_size}
use darcoin.Serialize.CompactSize.Laws.{read-write_compact_size}
use darcoin.Amount.{compress_amount, decompress_amount}
use darcoin.Amount.RoundTrip.{decompress-compress_amount, decompress-compress_amount_wraps}

read-write_compact_size_example :
    (length (write_compact_size 70000) ≡ compact_size_size 70000)
    × (read_compact_size (write_compact_size 70000 ++ 9 ∷ [])
        ≡ (if ltb max_size 70000 then fail too_large else ok 70000 (9 ∷ [])))
read-write_compact_size_example = read-write_compact_size 70000 (9 ∷ []) (omega arith)

abbrev two_byte_code : Bytes
two_byte_code = 253 ∷ 44 ∷ 1 ∷ 9 ∷ []

decompress-compress_amount_example : decompress_amount (compress_amount 123456700) ≡ 123456700
decompress-compress_amount_example = decompress-compress_amount 123456700 (omega arith) (inl refl)

decompress-compress_amount_wraps_example :
    decompress_amount (compress_amount 2099999999999999999) ≢ 2099999999999999999
decompress-compress_amount_wraps_example =
    decompress-compress_amount_wraps 2099999999999999999 refl (omega arith)
