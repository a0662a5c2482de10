-- ===== src/Concox/Devices/Received.antt =====
-- What `parseConcoxBuffer` makes of the login frame that a device builds.
use fueltracks.Prelude.{
  ℕ, ◌+◌, ◌-◌, ◌^◌, ◌≤◌, ◌<◌, ◌≡◌, refl, ◌∙◌, true, Option, [], ◌∷◌, ◌++◌, length, length-append,
  take-append, get_or-append, arith,
}
use fueltracks.Prelude.Bits.{bit_and_mask}
use fueltracks.Js.Buffer.{Bytes, ok, byte, slice, read_u16_be-ok}
use fueltracks.Js.Text.{Text, upper_hex}
use fueltracks.Concox.Fields.{all_digits}
use fueltracks.Concox.Fields.Imei.{pack_imei, decode_imei-pack_imei, length-pack_imei}
use fueltracks.Concox.Packets.{framed, login}
use fueltracks.Concox.Parsers.{parse_login}
use fueltracks.Concox.Frames.{put, dispatch, packets_of, parse_concox_buffer}
use fueltracks.Concox.Frames.RoundTrip.{parse-build_concox_frame}
use fueltracks.Concox.Devices.{Device, next_serial, send, login_content, make_concox_login}

pub next_serial-lt : (d : Device) → next_serial d < 2 ^ 16
unfolding next_serial
next_serial-lt d = omega (arith, bit_and_mask 16 (d.serial + 1))

slice-append : (xs ys : Bytes) (n : ℕ) → length xs ≡ n → slice 0 n (xs ++ ys) ≡ xs
unfolding slice
slice-append xs ys n e = take-append (n - 0) xs ys (omega (arith, e))

-- the login that the content is read as
login-content :
    (d : Device) (serial : ℕ)
    → all_digits d.imei ≡ true
    → length d.imei ≡ 15
    → parse_login (login_content d) serial
      ≡ ok (record {
        imei = d.imei;
        model_code = 5;
        tz_lang = 0;
        serial_number = serial;
        raw_packet_type = 0x01;
      })
unfolding parse_login
login-content d serial digits fifteen =
    let packed = length-pack_imei d.imei fifteen in
    let tail : Bytes = 0x00 ∷ 0x05 ∷ 0x00 ∷ 0x00 ∷ [] in
    let (same, good) = decode_imei-pack_imei d.imei digits fifteen in
    let size : length (login_content d) ≡ 12 =
      omega (arith, length-append (pack_imei d.imei) tail) in
    let at : (i : ℕ) → byte (login_content d) (8 + i) ≡ byte tail i =
      λ i. get_or-append (8 + i) i (pack_imei d.imei) tail 0 (omega (arith, packed)) in
    rw
      (
        size,
        slice-append (pack_imei d.imei) tail 8 packed,
        read_u16_be-ok (login_content d) 8 (omega (arith, size)),
        read_u16_be-ok (login_content d) 10 (omega (arith, size)),
        at 0,
        at 1,
        at 2,
        at 3,
        good,
        same,
      )
      refl

-- The login frame of a device with an IMEI of fifteen digits is read as a login of that IMEI, under the
-- serial number that the device goes on to, and the bytes behind it are parsed as they would be alone.
pub make_concox_login-received :
    (date_parse : Text → Option ℕ) (known : Option Text) (d : Device) (after : Bytes)
    → all_digits d.imei ≡ true
    → length d.imei ≡ 15
    → let (bytes, d') = make_concox_login d in
      parse_concox_buffer date_parse known (bytes ++ after)
      ≡ put
          (framed
              (login (record {
                imei = d.imei;
                model_code = 5;
                tz_lang = 0;
                serial_number = d'.serial;
                raw_packet_type = 0x01;
              }))
              (upper_hex bytes)
            ∷ [])
          (parse_concox_buffer date_parse known after)
unfolding make_concox_login send dispatch packets_of
make_concox_login-received date_parse known d after digits fifteen =
    let serial : ℕ = next_serial d in
    let short : length (login_content d) ≤ 250 = omega (
      arith,
      length-append (pack_imei d.imei) (0x00 ∷ 0x05 ∷ 0x00 ∷ 0x00 ∷ []),
      length-pack_imei d.imei fifteen,
    ) in
    parse-build_concox_frame 0x01 (login_content d) serial short date_parse known after
      (next_serial-lt d)
    ∙ rw (login-content d serial digits fifteen) refl
