-- ===== src/Ascii/Bstpl/Lines.antt =====
-- What the parsers of BSTPL-17 read in a line of fields.
use fueltracks.Prelude.{
  ℕ, ◌<◌, Bool, true, lt→ltb, ◌≡◌, refl, ap, ◌∙◌, Option, List, [], ◌∷◌, ◌++◌, All, length, drop,
  ltb-false, arith,
}
use fueltracks.Js.Buffer.{ok, err, too_short}
use fueltracks.Js.Text.{Text, codes, equal}
use fueltracks.Js.Strings.{split, join, trim, remove_first, int_or_zero}
use fueltracks.Js.Strings.Split.{IsFree, split-join, split-append, join-split, split-cons}
use fueltracks.Ascii.{TextLocation, TextAlert, part, integer, float_or_zero}
use fueltracks.Ascii.Coordinates.{ddm_to_decimal, parse_device_time}
use fueltracks.Ascii.Bstpl.{
  or_text, normal_fields, alert_fields, parse_normal_packet, parse_alert_packet, categorize_alert,
}

-- The fields of a packet by the names that the protocol gives them.
pub record NormalLine : Type 0 where
  pub header : Text
  pub imei : Text
  pub gps_valid : Text
  pub date : Text
  pub time : Text
  pub lat : Text
  pub lat_dir : Text
  pub lng : Text
  pub lng_dir : Text
  pub speed : Text
  pub odo : Text
  pub dir : Text
  pub sats : Text
  pub gsm : Text
  pub batt : Text
  pub ign : Text
  pub din2 : Text
  pub din3 : Text
  pub eng : Text
  pub ain : Text
  pub fuel : Text
  pub volt : Text

-- The order in which they are sent: `$10,{IMEI},{GPS_VALID},{DATE},…,{VOLT}`.
abbrev pub sent_fields : NormalLine → List Text
sent_fields l =
    l.imei ∷ l.gps_valid ∷ l.date ∷ l.time ∷ l.lat ∷ l.lat_dir ∷ l.lng ∷ l.lng_dir ∷ l.speed ∷ l.odo
    ∷ l.dir ∷ l.sats ∷ l.gsm ∷ l.batt ∷ l.ign ∷ l.din2 ∷ l.din3 ∷ l.eng ∷ l.ain ∷ l.fuel ∷ l.volt
    ∷ []

-- The flag `{L_OR_H}#` behind them, and whatever follows: a flag that is missing or empty means live.
abbrev pub flag_is_live : List Text → Bool
flag_is_live [] = true
flag_is_live ([] ∷ more) = true
flag_is_live ((c ∷ flag) ∷ more) = equal (trim (remove_first b'#' (c ∷ flag))) (codes "L")

-- The report that the fields mean.
abbrev pub meant : (Text → Option ℕ) → NormalLine → List Text → Text → TextLocation
meant date_parse l more raw = record {
  imei = trim l.imei;
  gps_valid = trim l.gps_valid;
  lat = ddm_to_decimal (trim l.lat) (trim l.lat_dir);
  lng = ddm_to_decimal (trim l.lng) (trim l.lng_dir);
  speed = integer (int_or_zero (trim l.speed));
  odometer = integer (int_or_zero (trim l.odo));
  direction = integer (int_or_zero (trim l.dir));
  satellites = int_or_zero (trim l.sats);
  gsm_signal = int_or_zero (trim l.gsm);
  battery = integer (int_or_zero (trim l.batt));
  ignition = equal (trim l.ign) (codes "1");
  din2 = equal (trim l.din2) (codes "1");
  din3 = equal (trim l.din3) (codes "1");
  engine_hours = float_or_zero (trim l.eng);
  ain = float_or_zero (trim l.ain);
  fuel = float_or_zero (trim l.fuel);
  voltage = float_or_zero (trim l.volt);
  is_live = flag_is_live more;
  device_time = parse_device_time date_parse (trim l.date) (trim l.time);
  raw_packet = raw;
}

live-flag :
    (l : NormalLine) (more : List Text)
    → equal
        (trim (remove_first b'#' (or_text (l.header ∷ (sent_fields l ++ more)) 22 (codes "L"))))
        (codes "L")
      ≡ flag_is_live more
unfolding trim remove_first equal
live-flag l [] = refl
live-flag l ([] ∷ more) = refl
live-flag l ((c ∷ flag) ∷ more) = refl

-- A packet whose fields are in the order of the protocol, without commas in them, is read field by
-- field, each as the name of its place says, whatever fields stand behind the voltage; the first of
-- those says whether the report is live.
pub parse_normal_packet-meant :
    (date_parse : Text → Option ℕ) (l : NormalLine) (more : List Text)
    → All (IsFree b',') (l.header ∷ (sent_fields l ++ more))
    → let line = join b',' (l.header ∷ (sent_fields l ++ more)) in
      parse_normal_packet date_parse line ≡ ok (meant date_parse l more line)
unfolding parse_normal_packet normal_fields
parse_normal_packet-meant date_parse l more free =
    let line = join b',' (l.header ∷ (sent_fields l ++ more)) in
    rw (split-join b',' l.header (sent_fields l ++ more) free) (
      rw (ltb-false (length (l.header ∷ (sent_fields l ++ more))) 22 (omega arith)) (
        ap (λ live. ok (record (meant date_parse l more line) { is_live = live }))
          (live-flag l more)))

-- A packet with less than 22 fields is refused.
pub parse_normal_packet-short :
    (date_parse : Text → Option ℕ) (first : Text) (fields : List Text)
    → All (IsFree b',') (first ∷ fields)
    → length fields < 21
    → parse_normal_packet date_parse (join b',' (first ∷ fields)) ≡ err too_short
unfolding parse_normal_packet
parse_normal_packet-short date_parse first fields free few =
    rw (split-join b',' first fields free)
      (rw (lt→ltb (length (first ∷ fields)) 22 (omega (arith, few))) refl)

-- fields and then a text, with a comma behind each field
abbrev pub before_text : List Text → Text → Text
before_text [] text = text
before_text (field ∷ fields) text = field ++ b',' ∷ before_text fields text

split-before_text :
    (fields : List Text) (text : Text)
    → All (IsFree b',') fields
    → split b',' (before_text fields text) ≡ fields ++ split b',' text
split-before_text [] text free = refl
split-before_text (field ∷ fields) text (f, fs) =
    split-append b',' field (before_text fields text) f
    ∙ ap (λ t. field ∷ t) (split-before_text fields text fs)

-- The text of an alert is whatever stands behind its eight fields, with its own commas: only the first
-- `#` and the white space around it are taken off.
pub parse_alert_packet-before_text :
    (date_parse : Text → Option ℕ) (f0 f1 f2 f3 f4 f5 f6 f7 text : Text)
    → All (IsFree b',') (f0 ∷ f1 ∷ f2 ∷ f3 ∷ f4 ∷ f5 ∷ f6 ∷ f7 ∷ [])
    → (a : TextAlert) × (parse_alert_packet date_parse
          (before_text (f0 ∷ f1 ∷ f2 ∷ f3 ∷ f4 ∷ f5 ∷ f6 ∷ f7 ∷ []) text)
        ≡ ok a)
      × (a.imei ≡ trim f1)
      × (a.alert_text ≡ trim (remove_first b'#' text))
      × (a.alert_type ≡ categorize_alert (trim (remove_first b'#' text)))
unfolding parse_alert_packet alert_fields
parse_alert_packet-before_text date_parse f0 f1 f2 f3 f4 f5 f6 f7 text free =
    let fields = f0 ∷ f1 ∷ f2 ∷ f3 ∷ f4 ∷ f5 ∷ f6 ∷ f7 ∷ [] in
    let line = before_text fields text in
    let splits = split-before_text fields text free in
    let (p, ps, e) = split-cons b',' text in
    let whole : join b',' (drop 8 (split b',' line)) ≡ text =
      ap (λ t. join b',' (drop 8 t)) splits ∙ join-split b',' text in
    (
      alert_fields date_parse (split b',' line) line,
      rw (ltb-false (length (split b',' line)) 9 (omega (arith, ap length splits, ap length e)))
          refl,
      ap (λ t. part t 1) splits,
      ap (λ t. trim (remove_first b'#' t)) whole,
      ap (λ t. categorize_alert (trim (remove_first b'#' t))) whole,
    )
