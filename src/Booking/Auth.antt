-- ===== src/Booking/Auth.antt =====
-- services/booking/src/booking/auth.py: who the caller is, and what is theirs.
use slot.Prelude.{String, Bool, true, false, Result, ok, err, str_eq, if◌then◌else◌}
use slot.Booking.Domain.{Failure, domain, booking_not_found, forbidden}

pub data Role : Type 0 where
  client master : Role

abbrev pub role_eq : Role → Role → Bool
role_eq client client = true
role_eq master master = true
role_eq _ _ = false

pub record Identity : Type 0 where
  pub subject : String
  pub role : Role

unfoldable pub ensure_owner : Identity → String → String → Result Failure (Unit {0})
ensure_owner identity client_id master_id =
    let owner = if role_eq identity.role client then client_id else master_id in
    if str_eq identity.subject owner then ok tt else err (domain booking_not_found)

unfoldable pub ensure_role : Identity → Role → Result Failure (Unit {0})
ensure_role identity required =
    if role_eq identity.role required then ok tt else err (domain forbidden)
