-- ===== src/Concox/Crc.antt =====
-- tcp-server/parser/concoxCrc.js: the table-driven CRC-ITU (CRC-16/X-25) of the Concox frames.
-- The table's equality with the shift register and what the sum detects are in the children.
pub mod Table
pub mod Register
pub mod Detection
use fueltracks.Prelude.{ℕ, ◌/◌, ◌^◌, List, [], ◌∷◌, get_or, bit_and, bit_xor}
use Table.{crc_table}

-- `((crc >> 8) ^ CRC_TABLE[(crc ^ buf[i]) & 0xFF]) & 0xFFFF`
pub crc_step : ℕ → ℕ → ℕ
crc_step crc b =
    bit_and (bit_xor (crc / 2 ^ 8) (get_or crc_table (bit_and (bit_xor crc b) 0xff) 0)) 0xffff

-- the `for` loop over the buffer
pub crc_loop : ℕ → List ℕ → ℕ
crc_loop crc [] = crc
crc_loop crc (b ∷ buf) = crc_loop (crc_step crc b) buf

unfoldable pub crc_itu : List ℕ → ℕ
unfolding crc_step crc_loop crc_table
crc_itu buf = bit_xor (crc_loop 0xffff buf) 0xffff
