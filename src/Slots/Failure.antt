-- ===== src/Slots/Failure.antt =====
-- The errors of internal/slots, one constructor for each message.
use district_scheduler.Common.{ℕ, List}
use district_scheduler.Common.Fallible.{Fallible}
pub use district_scheduler.Common.Fallible.{ok, err, ◌>>=◌, wrap, or_fail, Result-cases, >>=-eq-ok}

pub data Error : Type 0 where
  invalid_time invalid_hour invalid_minute : List ℕ → Error
  start_error end_error : Error → Error
  override_error rule_error : Error → Error
  duration_not_positive interval_not_positive booker_zone_missing : Error
  host_zone_missing : ℕ → Error

abbrev pub Result {ℓ} : Type ℓ → Type ℓ
Result A = Fallible Error A
