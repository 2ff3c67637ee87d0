-- ===== src/Claims/Fields/Writing/Laws.antt =====
-- What is written for standard claims is read as the same claims.

use openidconnect_rs.Prelude.{◌≡◌, refl, false, some, Result, ok, >>=-intro}
use openidconnect_rs.Types.Platform.{Platform}
use openidconnect_rs.Types.Timestamp.{TimesLaws, utc_to_seconds, timestamp_to_utc-utc_to_seconds}
use openidconnect_rs.Claims.Fields.{ClaimValues, next_value, next_option, utc_or_error, next_time}
use openidconnect_rs.Claims.Fields.Writing.{ClaimWriters}

-- A value that is written is not null and is read again.
abbrev pub Rereads :
    {p : Platform} {GC J E V : Type 0} (r : ClaimValues p GC J E)
    → (V → J)
    → (J → Result V E)
    → Type 0
Rereads {V = V} r write read = (v : V) → (r.is_null (write v) ≡ false) × (read (write v) ≡ ok v)

pub record WriterLaws {p : Platform} {GC J E : Type 0} (r : ClaimValues p GC J E)
    (w : ClaimWriters r) : Type 0 where
  pub text_again : Rereads r w.write_text r.text
  pub flag_again : Rereads r w.write_flag r.flag
  pub gender_again : Rereads r w.write_gender r.gender
  pub address_again : Rereads r w.write_address r.address
  pub times_laws : TimesLaws r.times
  pub timestamp_again : Rereads r w.write_timestamp r.timestamp

module _ {p : Platform} {GC J E : Type 0} (r : ClaimValues p GC J E) where
  pub next_value_again :
      {V : Type 0} (write : V → J) (read : J → Result V E)
      → Rereads r write read
      → (v : V) → next_value r read (write v) ≡ ok v
  unfolding next_value
  next_value_again write read again v = rw ((again v).1) refl

  pub next_option_again :
      {V : Type 0} (write : V → J) (read : J → Result V E)
      → Rereads r write read
      → (v : V) → next_option r read (write v) ≡ ok (some v)
  unfolding next_option
  next_option_again write read again v = rw ((again v).0, (again v).1) refl

  pub next_time_again :
      (w : ClaimWriters r) (laws : WriterLaws r w) (d : p.DateTime)
      → r.times.timestamp_subsec_nanos d ≡ 0
      → next_time r "updated_at" (w.write_timestamp (utc_to_seconds r.times d)) ≡ ok (some d)
  unfolding next_time utc_or_error
  next_time_again w laws d whole =
      >>=-intro _
        (next_option_again w.write_timestamp r.timestamp laws.timestamp_again
          (utc_to_seconds r.times d))
        (rw (timestamp_to_utc-utc_to_seconds r.times laws.times_laws d whole) refl)
