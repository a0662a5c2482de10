-- ===== src/Tests/Frames.antt =====
-- The frame extractor and the sum at concrete buffers.
use fueltracks.Prelude.{◌<◌, ◌≡◌, refl, none, some, [], ◌∷◌, ◌++◌, All, length, arith}
use fueltracks.Js.Buffer.{Bytes}
use fueltracks.Concox.Crc.{crc_itu}
use fueltracks.Concox.Crc.Register.{crc_register, crc_itu-eq-crc_register}
use fueltracks.Concox.Acks.{
  build_login_ack, build_heartbeat_ack, build_alarm_ack, build_concox_frame,
}
use fueltracks.Concox.Acks.Frames.{acks-build_concox_frame}
use fueltracks.Concox.Fields.{is_imei}
use fueltracks.Concox.Frames.{dispatch, packets_of, skip, round, put, parse_concox_buffer}
use fueltracks.Concox.Frames.Progress.{Follows, parse_concox_buffer-Follows}
use fueltracks.Concox.Frames.Remainder.{parse_concox_buffer-remainder}
use fueltracks.Concox.Frames.RoundTrip.{parse-build_concox_frame}
use fueltracks.Concox.Frames.Sound.{damaged, round-damaged}
use fueltracks.Concox.Frames.Imeis.{IsSound, parse_concox_buffer-IsSound}
use fueltracks.Tests.{no_date, some_imei}

crc_itu-eq-crc_register_example :
    crc_itu (0x05 ∷ 0x01 ∷ 0x00 ∷ 0x05 ∷ []) ≡ crc_register (0x05 ∷ 0x01 ∷ 0x00 ∷ 0x05 ∷ [])
crc_itu-eq-crc_register_example =
    crc_itu-eq-crc_register (0x05 ∷ 0x01 ∷ 0x00 ∷ 0x05 ∷ [])
      (omega arith, (omega arith, (omega arith, (omega arith, tt))))

acks-build_concox_frame_example :
    (build_login_ack 5 ≡ build_concox_frame 0x01 [] 5)
    × (build_heartbeat_ack 5 0x13 ≡ build_concox_frame 0x13 [] 5)
    × (build_alarm_ack 0x13 5 ≡ build_concox_frame 0x13 [] 5)
acks-build_concox_frame_example = acks-build_concox_frame 0x13 5

-- the login ACK of the protocol's documentation
abbrev ack : Bytes
ack = 0x78 ∷ 0x78 ∷ 0x05 ∷ 0x01 ∷ 0x00 ∷ 0x05 ∷ 0x9f ∷ 0xf8 ∷ 0x0d ∷ 0x0a ∷ []

build_login_ack_test : build_login_ack 5 ≡ ack
unfolding build_login_ack crc_itu
build_login_ack_test = refl

parse-build_concox_frame_example :
    parse_concox_buffer no_date none (build_concox_frame 0x8a [] 5 ++ (0x78 ∷ []))
    ≡ put
        (packets_of (dispatch no_date none 0x8a [] 5) (build_concox_frame 0x8a [] 5))
        (parse_concox_buffer no_date none (0x78 ∷ []))
parse-build_concox_frame_example =
    parse-build_concox_frame 0x8a [] 5 (omega arith) no_date none (0x78 ∷ []) (omega arith)

parse_concox_buffer-Follows_example :
    Follows no_date none ack (round ack) (parse_concox_buffer no_date none ack)
parse_concox_buffer-Follows_example = parse_concox_buffer-Follows no_date none ack

parse_concox_buffer-remainder_example :
    ((consumed : Bytes) × ((0x78 ∷ 0x78 ∷ 0x05 ∷ [])
        ≡ consumed ++ (parse_concox_buffer no_date none (0x78 ∷ 0x78 ∷ 0x05 ∷ [])).remainder))
    × (length (parse_concox_buffer no_date none (0x78 ∷ 0x78 ∷ 0x05 ∷ [])).remainder < 65545)
    × (parse_concox_buffer no_date none
          (parse_concox_buffer no_date none (0x78 ∷ 0x78 ∷ 0x05 ∷ [])).remainder
        ≡ record {
          packets = [];
          remainder = (parse_concox_buffer no_date none (0x78 ∷ 0x78 ∷ 0x05 ∷ [])).remainder;
        })
parse_concox_buffer-remainder_example =
    parse_concox_buffer-remainder no_date none (0x78 ∷ 0x78 ∷ 0x05 ∷ [])
      (omega arith, (omega arith, (omega arith, tt)))

round-damaged_example : round (damaged 0x13 (0x0a ∷ []) [] 1 0x05 0x03 0x06 0x03 ++ []) ≡ skip
round-damaged_example =
    round-damaged 0x13 (0x0a ∷ []) [] 1 0x05 0x03 0x06 0x03 [] (omega arith) (omega arith)
      (omega arith) (omega arith) tt (λ e. absurd (omega (arith, e.0)))

parse_concox_buffer-IsSound_example :
    All IsSound (parse_concox_buffer no_date (some some_imei) ack).packets
unfolding is_imei
parse_concox_buffer-IsSound_example = parse_concox_buffer-IsSound no_date (some some_imei) refl ack
