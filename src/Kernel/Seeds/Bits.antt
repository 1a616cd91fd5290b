-- ===== src/Kernel/Seeds/Bits.antt =====
-- The four bits that a call takes from its delta, as arithmetic.
use is_there_entropy_down_th.Common.{ℕ, zero, suc, ◌+◌, ◌*◌, ◌%◌, ◌^◌, ◌<◌, ◌≡◌, arith}
use is_there_entropy_down_th.Common.Words.{sign_extend32}
use is_there_entropy_down_th.Common.BitAnd.{bit_and_nibble}
use is_there_entropy_down_th.Kernel.Seeds.{add_bits}

-- The exact value: a sum of digits to the base 16, widened with its sign at the last digit.
pub add_bits-eq :
    (seed delta j : ℕ)
    → j < 8
    → seed < 16 ^ j
    → add_bits seed delta j ≡ sign_extend32 (seed + delta % 16 * 16 ^ j)
unfolding add_bits
add_bits-eq seed delta zero h b = rw bit_and_nibble (ground arith)
add_bits-eq seed delta (suc zero) h b = rw bit_and_nibble (ground arith)
add_bits-eq seed delta (suc (suc zero)) h b = rw bit_and_nibble (ground arith)
add_bits-eq seed delta (suc (suc (suc zero))) h b = rw bit_and_nibble (ground arith)
add_bits-eq seed delta (suc (suc (suc (suc zero)))) h b = rw bit_and_nibble (ground arith)
add_bits-eq seed delta (suc (suc (suc (suc (suc zero))))) h b = rw bit_and_nibble (ground arith)
add_bits-eq seed delta (suc (suc (suc (suc (suc (suc zero)))))) h b =
    rw bit_and_nibble (ground arith)
add_bits-eq seed delta (suc (suc (suc (suc (suc (suc (suc zero))))))) h b =
    rw bit_and_nibble (ground arith)
add_bits-eq seed delta (suc (suc (suc (suc (suc (suc (suc (suc j)))))))) h b = absurd (omega arith)
