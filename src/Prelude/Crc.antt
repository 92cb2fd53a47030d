-- ===== src/Prelude/Crc.antt =====
-- `crc32.ChecksumIEEE` of the Go library, bit by bit, and the decimal text of a number.
use Prim.Native.Nat.{ℕ, zero, suc, ◌+◌, ◌/◌, ◌%◌, bit_xor}
use mathlib.Core.List.{[], ◌∷◌}
use distributed_file_system.Prelude.Tests.{nat_beq, if◌then◌else◌, Bytes}

crc_bit : ℕ → ℕ
crc_bit c = if nat_beq (c % 2) 1 then bit_xor (c / 2) 0xedb88320 else c / 2

crc_bits : ℕ → ℕ → ℕ
unfolding crc_bit
crc_bits zero c = c
crc_bits (suc k) c = crc_bits k (crc_bit c)

crc_bytes : ℕ → Bytes → ℕ
unfolding crc_bits
crc_bytes c [] = c
crc_bytes c (b ∷ bs) = crc_bytes (crc_bits 8 (bit_xor c b)) bs

unfoldable pub checksum_ieee : Bytes → ℕ
unfolding crc_bytes
checksum_ieee bs = bit_xor (crc_bytes 0xffffffff bs) 0xffffffff

-- `%d` of a number that is not negative; the fuel is above the number of digits.
decimal_digits : ℕ → ℕ → Bytes → Bytes
decimal_digits zero n acc = acc
decimal_digits (suc fuel) n acc =
    let rest = decimal_digits fuel (n / 10) ((b'0' + n % 10) ∷ acc) in
    if nat_beq (n / 10) 0 then (b'0' + n % 10) ∷ acc else rest

unfoldable pub decimal : ℕ → Bytes
unfolding decimal_digits
decimal n = decimal_digits (n + 1) n []
