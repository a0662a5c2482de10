-- ===== src/Concox/Frames/RoundTrip.antt =====
-- A built frame is read back, whatever stands behind it in the buffer.
use fueltracks.Prelude.{
  ℕ, ◌+◌, ◌^◌, ◌≤◌, ◌<◌, ◌≡◌, refl, sym, ap, subst, ◌∙◌, Option, ◌++◌, length, drop, drop-append,
  ==-refl,
}
use fueltracks.Js.Buffer.{Bytes}
use fueltracks.Js.Text.{Text}
use fueltracks.Concox.Crc.Register.{crc_itu-lt}
use fueltracks.Concox.Acks.{high, low, build_concox_frame}
use fueltracks.Concox.Acks.Frames.{word-high-low, sum_of, build_concox_frame-summed}
use fueltracks.Concox.Frames.{dispatch, packets_of, Frame, frame, round, put, parse_concox_buffer}
use fueltracks.Concox.Frames.Wire.{checked, length-wire, round-wire}
use fueltracks.Concox.Frames.Progress.{Follows, parse_concox_buffer-Follows}

-- the frame that the parser finds in a built one
abbrev pub found : ℕ → Bytes → ℕ → Frame
found protocol content serial = record {
  protocol = protocol;
  content = content;
  serial = serial;
  raw = build_concox_frame protocol content serial;
  size = length content + 10;
}

module _ (protocol : ℕ) (content : Bytes) (serial : ℕ) (fits : length content ≤ 250) where
  pub length-build_concox_frame :
      length (build_concox_frame protocol content serial) ≡ length content + 10
  length-build_concox_frame =
      let sum = sum_of (length content + 5) protocol content serial in
      ap length (build_concox_frame-summed protocol content serial fits)
      ∙ length-wire (length content + 5) protocol content (high serial) (low serial) (high sum)
          (low sum)

  pub round-build_concox_frame :
      (after : Bytes)
      → serial < 2 ^ 16
      → round (build_concox_frame protocol content serial ++ after)
        ≡ frame (found protocol content serial)
  round-build_concox_frame after word_sized =
      let size : ℕ = length content + 5 in
      let sum = sum_of size protocol content serial in
      let whole = build_concox_frame-summed protocol content serial fits in
      let reads =
        round-wire size protocol content (high serial) (low serial) (high sum) (low sum) after
          (build_concox_frame protocol content serial ++ after) refl (ap (λ t. t ++ after) whole) in
      reads
      ∙ rw
          (
            word-high-low sum
                (crc_itu-lt (checked size protocol content (high serial) (low serial))),
            ==-refl sum,
          )
          (λ i. frame (record {
            protocol = protocol;
            content = content;
            serial = word-high-low serial word_sized i;
            raw = sym whole i;
            size = length content + 10;
          }))

  -- A frame built for a content of at most 250 bytes and a 16-bit serial number is taken off the
  -- front of the buffer, whatever bytes stand behind it: its packet is what the dispatcher makes of
  -- exactly that protocol number, content and serial number, and then come the packets of the rest.
  pub parse-build_concox_frame :
      (date_parse : Text → Option ℕ) (imei : Option Text) (after : Bytes)
      → serial < 2 ^ 16
      → parse_concox_buffer date_parse imei (build_concox_frame protocol content serial ++ after)
        ≡ put
            (packets_of
              (dispatch date_parse imei protocol content serial)
              (build_concox_frame protocol content serial))
            (parse_concox_buffer date_parse imei after)
  parse-build_concox_frame date_parse imei after word_sized =
      let buffer = build_concox_frame protocol content serial ++ after in
      let rest : drop (length content + 10) buffer ≡ after =
        drop-append (length content + 10) (build_concox_frame protocol content serial) after
          length-build_concox_frame in
      let unrolled =
        subst (λ r. Follows date_parse imei buffer r (parse_concox_buffer date_parse imei buffer))
          (round-build_concox_frame after word_sized)
          (parse_concox_buffer-Follows date_parse imei buffer) in
      unrolled
      ∙ ap
          (λ t.
            put
              (packets_of (dispatch date_parse imei protocol content serial)
                (build_concox_frame protocol content serial))
              (parse_concox_buffer date_parse imei t))
          rest
