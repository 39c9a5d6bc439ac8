-- ===== src/Notifier/Http/Examples.antt =====
-- The answer about a booking at a concrete table.
use slot.Prelude.{
  ◌≡◌, Bool, true, refl, List, [], ◌∷◌, arith, any_of, leb, text_length, ◌&&◌, some, none, map,
  IsOrdered,
}
use slot.Notifier.Domain.{sent, sending}
use slot.Notifier.Models.{Notification}
use slot.Notifier.Http.{Library, is_before, is_about, serve, notification_out, list_notifications}
use slot.Notifier.Http.Told.{serve_told}

-- Texts in the order of their lengths.
abbrev lib : Library
lib = record { is_identifier = λ s. true; collate = λ s t. leb (text_length s) (text_length t) }

abbrev confirmed : Notification
confirmed = record {
  event_id = "e1";
  booking_id = "b1";
  client_id = "bob";
  event_type = "booking.confirmed";
  text = "2030-01-01";
  status = sent;
  attempts = 0;
  last_error = none;
  gateway_message_id = some "g1";
  created_at = 100;
  updated_at = 200;
}

abbrev table : List Notification
table =
    record confirmed { event_id = "e2"; status = sending; created_at = 300 }
    ∷ confirmed
    ∷ record confirmed { event_id = "e3"; booking_id = "b2" }
    ∷ []

told_in_order :
    (serve lib table "b1").body
    ≡ some (
        map notification_out (
          confirmed
          ∷ record confirmed { event_id = "e2"; status = sending; created_at = 300 }
          ∷ []))
unfolding serve list_notifications
told_in_order = refl

serve_told_example :
    (found : List Notification) × ((serve lib table "b1").body ≡ some (map notification_out found))
    × ((p : Notification → Bool) → any_of p found ≡ any_of (λ n. is_about lib "b1" n && p n) table)
    × IsOrdered (is_before lib) found
serve_told_example =
    serve_told lib (λ s t h. ground arith) (λ s t u h h'. ground arith) table "b1" refl
