-- ===== src/Types/Timestamp.antt =====
-- src/types.rs: Timestamp, helpers::timestamp_to_utc and helpers::utc_to_seconds.
use openidconnect_rs.Prelude.{ℕ, String, ◌≡◌, Bool, true, Option, none, some, if◌then◌else◌}
use openidconnect_rs.Types.Platform.{Platform}

-- What the code uses of serde_json::Number, of floating-point numbers, and of chrono.
pub record Times (p : Platform) : Type 1 where
  pub Int : Type 0
  pub Float : Type 0
  pub Number : Type 0
  pub is_i64 : Number → Bool
  pub as_i64 : Number → Option Int
  pub as_f64 : Number → Option Float
  -- `i64::into`
  pub from_i64 : Int → Number
  pub number_text : Number → String
  pub floor : Float → Float
  pub minus : Float → Float → Float
  pub times_billion : Float → Float
  -- `as i64` and `as u32`
  pub to_i64 : Float → Int
  pub to_u32 : Float → ℕ
  -- `Utc.timestamp_opt(secs, nsecs).single()`
  pub timestamp_opt : Int → ℕ → Option p.DateTime
  pub timestamp : p.DateTime → Int
  pub timestamp_subsec_nanos : p.DateTime → ℕ
  pub parse_from_rfc3339 : String → Option p.DateTime

-- A number made of an integer is that integer, and a time is that of its seconds and nanoseconds.
pub record TimesLaws {p : Platform} (c : Times p) : Type 0 where
  pub is_i64-from_i64 : (i : c.Int) → c.is_i64 (c.from_i64 i) ≡ true
  pub as_i64-from_i64 : (i : c.Int) → c.as_i64 (c.from_i64 i) ≡ some i
  pub timestamp_opt-timestamp :
      (d : p.DateTime) → c.timestamp_opt (c.timestamp d) (c.timestamp_subsec_nanos d) ≡ some d

-- `rfc3339` is there with the feature accept-rfc3339-timestamps only.
pub data Timestamp (Number : Type 0) : Type 0 where
  seconds : Number → Timestamp Number
  rfc3339 : String → Timestamp Number

module _ {p : Platform} (c : Times p) where
  -- `Display for Timestamp`
  unfoldable pub timestamp_text : Timestamp c.Number → String
  timestamp_text (seconds n) = c.number_text n
  timestamp_text (rfc3339 iso) = iso

  -- The arm of a number that is an integer.
  unfoldable pub whole_to_utc : Option c.Int → Option p.DateTime
  whole_to_utc none = none
  whole_to_utc (some secs) = c.timestamp_opt secs 0

  -- The arm of any other number.
  unfoldable pub fraction_to_utc : Option c.Float → Option p.DateTime
  fraction_to_utc none = none
  fraction_to_utc (some secs_f64) =
      let secs = c.floor secs_f64 in
      c.timestamp_opt (c.to_i64 secs) (c.to_u32 (c.floor (c.times_billion (c.minus secs_f64 secs))))

  -- Nothing stands for `Err(())`.
  unfoldable pub timestamp_to_utc : Timestamp c.Number → Option p.DateTime
  unfolding whole_to_utc fraction_to_utc
  timestamp_to_utc (seconds n) =
      if c.is_i64 n then whole_to_utc (c.as_i64 n) else fraction_to_utc (c.as_f64 n)
  timestamp_to_utc (rfc3339 iso) = c.parse_from_rfc3339 iso

  unfoldable pub utc_to_seconds : p.DateTime → Timestamp c.Number
  utc_to_seconds utc = seconds (c.from_i64 (c.timestamp utc))

  -- A time of a whole number of seconds is read again.
  pub timestamp_to_utc-utc_to_seconds :
      TimesLaws c
      → (d : p.DateTime) → c.timestamp_subsec_nanos d ≡ 0
      → timestamp_to_utc (utc_to_seconds d) ≡ some d
  unfolding timestamp_to_utc utc_to_seconds
  timestamp_to_utc-utc_to_seconds laws d whole =
      rw (laws.is_i64-from_i64 (c.timestamp d), laws.as_i64-from_i64 (c.timestamp d))
        (rw whole at (laws.timestamp_opt-timestamp d))
