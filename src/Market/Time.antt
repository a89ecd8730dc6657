-- ===== src/Market/Time.antt =====
-- Python's `datetime` as microseconds since the epoch, and the constants of defs.py. Differences are
-- exact: `total_seconds()` is a float, which holds every difference below 285 years exactly.
use esdx_scion.Base.{
  ℕ, suc, ◌-◌, ◌≡◌, refl, arith, ◌*◌, ◌/◌, ◌^◌, Bool, true, false, Result, ok, err, type_error,
  if◌then◌else◌,
}
use esdx_scion.Base.Int.{ℤ, pos, negsuc, neg_ℕ, ◌-ℤ◌, ltb_ℤ}

abbrev pub bw_step : ℕ
bw_step = 1000000

-- in seconds
abbrev pub bw_period : ℕ
bw_period = 600

abbrev pub unit : ℕ
unit = bw_step * bw_period

-- `aware` is false for a `datetime` without a time zone.
pub record DateTime : Type 0 where
  pub micros : ℤ
  pub aware : Bool

abbrev pub same_kind : DateTime → DateTime → Bool
same_kind s t = if s.aware then t.aware else (if t.aware then false else true)

-- `(s - t).total_seconds()`, in microseconds
unfoldable pub elapsed : DateTime → DateTime → Result ℤ
elapsed s t = if same_kind s t then ok (s.micros -ℤ t.micros) else err type_error

-- `s < t`
unfoldable pub before : DateTime → DateTime → Result Bool
before s t = if same_kind s t then ok (ltb_ℤ s.micros t.micros) else err type_error

-- `int(t.timestamp())`, which is rounded towards zero
abbrev pub timestamp : DateTime → ℤ
timestamp t = elim t.micros [ pos n ↦ pos (n / 10 ^ 6) | negsuc n ↦ neg_ℕ (suc n / 10 ^ 6) ]

-- a `BW_PERIOD` in microseconds
abbrev pub period_micros : ℕ
period_micros = bw_period * 10 ^ 6

-- `pb_timestamp_from_time`, as its number of seconds
abbrev pub pb_timestamp_from_time : DateTime → ℤ
pb_timestamp_from_time t = timestamp t

-- `time_from_pb_timestamp`, of a timestamp in whole seconds
abbrev pub time_from_pb_timestamp : ℤ → DateTime
time_from_pb_timestamp s = record {
  micros = elim s [ pos n ↦ pos (n * 10 ^ 6) | negsuc n ↦ negsuc (suc n * 10 ^ 6 - 1) ];
  aware = true;
}

-- A timestamp that is made of the time of another one is that one.
pub pb_timestamp_from_time-time_from_pb_timestamp :
    (s : ℤ) → pb_timestamp_from_time (time_from_pb_timestamp s) ≡ s
pb_timestamp_from_time-time_from_pb_timestamp (pos n) =
    let e : n * 10 ^ 6 / 10 ^ 6 ≡ n = omega arith in rw e refl
pb_timestamp_from_time-time_from_pb_timestamp (negsuc n) =
    let e : suc (suc n * 10 ^ 6 - 1) / 10 ^ 6 ≡ suc n = omega arith in rw e refl
