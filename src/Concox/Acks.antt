-- ===== src/Concox/Acks.antt =====
-- The ACK builders of tcp-server/parser/concoxParser.js, and the frame builder of the repository's
-- own devices, scripts/deviceSimulator.js.
pub mod Frames
use fueltracks.Prelude.{ℕ, ◌+◌, ◌/◌, ◌^◌, List, [], ◌∷◌, ◌++◌, bit_and, length}
use fueltracks.Js.Buffer.{Bytes}
use fueltracks.Concox.Crc.{crc_itu}

-- `(n >> 8) & 0xFF` and `n & 0xFF`
abbrev pub high : ℕ → ℕ
high n = bit_and (n / 2 ^ 8) 0xff

abbrev pub low : ℕ → ℕ
low n = bit_and n 0xff

unfoldable pub build_login_ack : ℕ → Bytes
build_login_ack serial =
    let crc = crc_itu (0x05 ∷ 0x01 ∷ high serial ∷ low serial ∷ []) in
    0x78 ∷ 0x78 ∷ 0x05 ∷ 0x01 ∷ high serial ∷ low serial ∷ high crc ∷ low crc ∷ 0x0d ∷ 0x0a ∷ []

unfoldable pub build_heartbeat_ack : ℕ → ℕ → Bytes
build_heartbeat_ack serial protocol =
    let crc = crc_itu (0x05 ∷ protocol ∷ high serial ∷ low serial ∷ []) in
    0x78 ∷ 0x78 ∷ 0x05 ∷ protocol ∷ high serial ∷ low serial ∷ high crc ∷ low crc ∷ 0x0d ∷ 0x0a ∷ []

unfoldable pub build_alarm_ack : ℕ → ℕ → Bytes
build_alarm_ack protocol serial =
    let crc = crc_itu (0x05 ∷ protocol ∷ high serial ∷ low serial ∷ []) in
    0x78 ∷ 0x78 ∷ 0x05 ∷ protocol ∷ high serial ∷ low serial ∷ high crc ∷ low crc ∷ 0x0d ∷ 0x0a ∷ []

-- `buildConcoxFrame(protocolNum, infoBytes, serialNum)`; the length byte is cut to eight bits by
-- `Buffer.from`, as every element is.
unfoldable pub build_concox_frame : ℕ → Bytes → ℕ → Bytes
build_concox_frame protocol content serial =
    let size = bit_and (1 + length content + 2 + 2) 0xff in
    let crc = crc_itu (size ∷ protocol ∷ (content ++ high serial ∷ low serial ∷ [])) in
    0x78
    ∷ 0x78
    ∷ size
    ∷ protocol
    ∷ (content ++ high serial ∷ low serial ∷ high crc ∷ low crc ∷ 0x0d ∷ 0x0a ∷ [])
