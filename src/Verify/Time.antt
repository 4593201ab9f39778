-- ===== src/Verify/Time.antt =====
-- src/verify.rs: the times and windows that the verifiers check.
pub mod Windows
use identity_crypto.Prelude.{ℕ, ◌*◌, Bool, true, false, ◌||◌, ltb, String}
use identity_crypto.Prelude.Int.{ℤ, pos, ltb_ℤ, leb_ℤ, ◌-ℤ◌, abs_diff}
use identity_crypto.Error.{Result, ok, reject_if, skew, invalid_field}

abbrev pub skew_seconds : ℕ
skew_seconds = 30

abbrev pub max_session_seconds : ℕ
max_session_seconds = 86_400

abbrev pub max_unlisted_delegation_seconds : ℕ
max_unlisted_delegation_seconds = 31 * 86_400

-- `accepted` holds the seconds of an `AcceptedAt`.
pub data When : Type 0 where
  live : ℤ → When
  accepted : ℤ → When

-- `When::at`
abbrev pub time_of : When → ℤ
time_of (live now) = now
time_of (accepted a) = a

-- `When::check_skew`
unfoldable pub check_skew : When → ℤ → Result (Unit {0})
unfolding abs_diff
check_skew (live now) issued_at = reject_if (ltb skew_seconds (abs_diff issued_at now)) skew
check_skew (accepted a) issued_at = ok tt

-- The difference is an i128, which no pair of i64 values overflows.
unfoldable pub check_session_span : ℤ → ℤ → Result (Unit {0})
unfolding ◌-ℤ◌
check_session_span not_before not_after =
    let span = not_after -ℤ not_before in
    reject_if (leb_ℤ span (pos 0) || ltb_ℤ (pos max_session_seconds) span)
      (invalid_field "session.not_after_unix_seconds" "must be within 24 hours after not_before")

unfoldable pub check_unlisted_span : String → ℤ → ℤ → Result (Unit {0})
unfolding ◌-ℤ◌
check_unlisted_span field issued not_after =
    let span = not_after -ℤ issued in
    reject_if (leb_ℤ span (pos 0) || ltb_ℤ (pos max_unlisted_delegation_seconds) span)
      (invalid_field field "must be within 31 days after issued_at")
