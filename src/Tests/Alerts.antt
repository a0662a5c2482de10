-- ===== src/Tests/Alerts.antt =====
-- The alert subscriber at two alerts, of which one is saved at the second start only, and an `XACK`
-- that fails.
use fueltracks.Prelude.{true, false, some, List, [], ◌∷◌}
use fueltracks.Js.Text.{codes, equal}
use fueltracks.Writer.{text, null}
use fueltracks.Writer.Vehicles.{resolved}
use fueltracks.Backend.Alerts.{AlertMessage, AlertEntry, AlertAnswers, Profile, Attempt}
use fueltracks.Tests.Writer.{vehicle_seven}

abbrev alert_message : AlertMessage
alert_message = record {
  imei = text (codes "865006049210220");
  alert_type = text (codes "sos");
  alert_text = text (codes "SOS");
  lat = null;
  lng = null;
  device_time = null;
}

abbrev two_alerts : List AlertEntry
two_alerts =
    record { id = codes "1-0"; message = some alert_message }
    ∷ record { id = codes "2-0"; message = some alert_message }
    ∷ []

abbrev mail_only : Profile
mail_only = record {
  email_enabled = true;
  email = codes "a@b.c";
  whatsapp_enabled = false;
  mobile = codes "1";
}

abbrev save_first : AlertEntry → AlertAnswers
save_first e = record {
  resolution = resolved vehicle_seven;
  saved = equal e.id (codes "1-0");
  profile = some mail_only;
  time = codes "now";
}

abbrev save_all : AlertEntry → AlertAnswers
save_all e = record (save_first e) { saved = true }

-- The first `XACK` fails, so that the first alert is saved twice.
abbrev two_attempts : List Attempt
two_attempts =
    record { answers = save_first; xack = false } ∷ record { answers = save_all; xack = true } ∷ []
