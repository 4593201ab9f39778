-- ===== src/Verify/Time/Windows.antt =====
-- The windows of src/verify.rs in plain arithmetic.
use identity_crypto.Prelude.{◌≡◌, ◌↔◌, arith, String}
use identity_crypto.Prelude.Int.{ℤ, pos, ◌+ℤ◌, ◌≤ℤ◌, ◌<ℤ◌}
use identity_crypto.Error.{ok, reject_if}
use identity_crypto.Verify.Time.{live, check_skew, check_session_span, check_unlisted_span}

-- A session window is accepted exactly when it ends after its start, by at most 24 hours.
pub check_session_span_iff :
    (nb na : ℤ) → (check_session_span nb na ≡ ok tt) ↔ ((nb <ℤ na) × (na ≤ℤ nb +ℤ pos 86_400))
unfolding check_session_span reject_if ◌+ℤ◌
check_session_span_iff nb na = ground arith

-- A window of an unlisted device is accepted exactly when it ends after its start, by at most 31 days.
pub check_unlisted_span_iff :
    (field : String) (issued na : ℤ)
    → (check_unlisted_span field issued na ≡ ok tt)
      ↔ ((issued <ℤ na) × (na ≤ℤ issued +ℤ pos 2_678_400))
unfolding check_unlisted_span reject_if ◌+ℤ◌
check_unlisted_span_iff field issued na = ground arith

-- A live message is accepted exactly within 30 seconds of its time, before or after.
pub check_skew_live_iff :
    (now issued : ℤ)
    → (check_skew (live now) issued ≡ ok tt)
      ↔ ((issued ≤ℤ now +ℤ pos 30) × (now ≤ℤ issued +ℤ pos 30))
unfolding check_skew reject_if ◌+ℤ◌
check_skew_live_iff now issued = ground arith
