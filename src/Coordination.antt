-- ===== src/Coordination.antt =====
-- internal/coordination: the values and errors of the nonce, lease and capability-budget ports.
use Prim.Native.Nat.{bit_or}
use mathlib.Core.List.{foldl}
use yukh_coordination.Base.{
  ℕ, Bool, not, ◌&&◌, ◌||◌, leb, ltb, ◌==◌, nat_eq, Text, Result, ok, err, length, all,
  if◌then◌else◌,
}
use yukh_coordination.Time.{Time, is_utc, whole_millis}

pub data Error : Type 0 where
  invalid_argument unavailable conflict invariant : Error

pub data NonceOutcome : Type 0 where
  consumed replayed : NonceOutcome

pub data LeaseStatus : Type 0 where
  valid expired released stale : LeaseStatus

pub record NonceValue : Type 0 where
  pub value_digest : Text
  pub expires_at : Time
  pub epoch : ℕ

pub record LeaseValue : Type 0 where
  pub holder_digest : Text
  pub expires_at : Time
  pub epoch : ℕ

pub record LeaseResumeValue : Type 0 where
  pub holder_digest : Text
  pub expires_at : Time
  pub epoch : ℕ
  pub fencing_token : ℕ

-- `^[a-f0-9]{64}$`
abbrev pub is_hex : ℕ → Bool
is_hex c = (leb b'a' c && leb c b'f') || (leb b'0' c && leb c b'9')

unfoldable pub is_digest : Text → Bool
is_digest d = length d == 64 && all is_hex d

abbrev pub max_safe_integer : ℕ
max_safe_integer = 9_007_199_254_740_991

unfoldable pub new_lease_resume_value : Text → Time → ℕ → ℕ → Result Error LeaseResumeValue
new_lease_resume_value holder expires epoch token =
    if not (is_digest holder)
      || not (is_utc expires)
      || not (whole_millis expires)
      || epoch == 0
      || ltb max_safe_integer epoch
      || token == 0
      || ltb max_safe_integer token
    then err Error.invalid_argument
    else ok (record {
      holder_digest = holder;
      expires_at = expires;
      epoch = epoch;
      fencing_token = token;
    })

-- A [16]byte; the zero identifier is refused.
unfoldable pub new_capability_token_id : Text → Result Error Text
new_capability_token_id raw = if foldl bit_or 0 raw == 0 then err Error.invalid_argument else ok raw
