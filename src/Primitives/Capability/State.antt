-- ===== src/Primitives/Capability/State.antt =====
-- internal/primitives/capability.go: what decodeState reads of what encodeState has written.
use yukh_coordination.Base.{
  ℕ, ◌+◌, ◌*◌, ◌/◌, ◌≤◌, ◌≡◌, refl, sym, ap, subst, ◌∙◌, inl, inr, true, false, ◌++◌, ltb, ◌!=◌,
  nat_eq, Text, Result, ok, length, arith, Result-cases, length-append, ok-injective,
}
use yukh_coordination.Time.{Time, Location, utc, zone, is_utc, whole_millis, millisecond}
use yukh_coordination.Coordination.{
  LeaseResumeValue, max_safe_integer, is_digest, new_lease_resume_value,
}
use yukh_coordination.Merkle.Powers.{length-big_endian}
use yukh_coordination.Merkle.{big_endian}
use yukh_coordination.Primitives.Sealed.{new_lease_resume_value-ok}
use yukh_coordination.Primitives.{Error, CapabilityState, new_capability_state}
use yukh_coordination.Primitives.Capability.{
  unix_millis, unix_epoch, from_unix_millis, from_big_endian, slice, encoded, encode_state,
  as_conflict, decode_state, capability_plaintext_bytes,
}
use yukh_coordination.Primitives.Capability.Slices.{
  from_big_endian-big_endian, slice_here, slice_later, slice_whole,
}

abbrev renewed : CapabilityState → Result Error CapabilityState
renewed c = new_capability_state c.key c.holder c.expires_at c.epoch c.fencing_token c.token_id

renewed-same : (c v : CapabilityState) → renewed c ≡ ok v → v ≡ c
unfolding new_capability_state
renewed-same c v h =
    elim (Result-cases (new_lease_resume_value c.holder c.expires_at c.epoch c.fencing_token)) [
      | inl (e, a) ↦ absurd (ground (arith, a, h))
      | inr (l, a) ↦
          let same = new_lease_resume_value-ok c.holder c.expires_at c.epoch c.fencing_token l a in
          ground (arith, a, h, same)
    ]

-- What NewLeaseResumeValue has checked.
resume_checked :
    (holder : Text) (t : Time) (epoch token : ℕ) (v : LeaseResumeValue)
    → new_lease_resume_value holder t epoch token ≡ ok v
    → (length holder ≡ 64)
      × (is_utc t ≡ true)
      × (whole_millis t ≡ true)
      × (epoch ≤ max_safe_integer)
      × (token ≤ max_safe_integer)
unfolding new_lease_resume_value is_digest
resume_checked holder t epoch token v h =
    (ground (arith, h), ground (arith, h), ground (arith, h), ground (arith, h), ground (arith, h))

-- What NewCapabilityState has checked.
renewed_checked :
    (c v : CapabilityState)
    → renewed c ≡ ok v
    → (length c.key ≡ 64)
      × (length c.holder ≡ 64)
      × (is_utc c.expires_at ≡ true)
      × (whole_millis c.expires_at ≡ true)
      × (c.epoch ≤ max_safe_integer)
      × (c.fencing_token ≤ max_safe_integer)
unfolding new_capability_state is_digest
renewed_checked c v h =
    elim (Result-cases (new_lease_resume_value c.holder c.expires_at c.epoch c.fencing_token)) [
      | inl (e, a) ↦ absurd (ground (arith, a, h))
      | inr (l, a) ↦
          let key_size : length c.key ≡ 64 = ground (arith, a, h) in
          let (holder, u, w, epoch, token) =
            resume_checked c.holder c.expires_at c.epoch c.fencing_token l a in
          (key_size, holder, u, w, epoch, token)
    ]

utc_time : (n : ℕ) (l : Location) → is_utc (record { instant = n; location = l }) ≡ true → l ≡ utc
utc_time n utc u = refl
utc_time n (zone k) u = absurd (ground (arith, u))

-- A time with whole milliseconds in UTC is what its milliseconds say.
from_unix_millis-unix_millis :
    (t : Time)
    → is_utc t ≡ true
    → whole_millis t ≡ true
    → unix_epoch ≤ t.instant / millisecond
    → t.instant / millisecond ≤ unix_epoch + max_safe_integer
    → from_unix_millis (unix_millis t) ≡ t
from_unix_millis-unix_millis t u w low high =
    let exact : (unix_millis t + unix_epoch) * millisecond ≡ t.instant = ground arith in
    let place = utc_time t.instant t.location u in
    ap (λ n. record { instant = n; location = utc }) exact
    ∙ ap (λ l. record { instant = t.instant; location = l }) (sym place)

-- The slices of six parts laid end to end.
module _ (k h p q r t : Text) (hk : length k ≡ 64) (hh : length h ≡ 64) (hp : length p ≡ 8)
    (hq : length q ≡ 8) (hr : length r ≡ 8) (ht : length t ≡ 16) where
  abbrev laid : Text
  laid = k ++ (h ++ (p ++ (q ++ (r ++ t))))

  slice_2 : slice laid 64 128 ≡ h
  slice_2 =
      slice_later 64 0 64 k (h ++ (p ++ (q ++ (r ++ t)))) hk
      ∙ slice_here 64 h (p ++ (q ++ (r ++ t))) hh

  after_digests :
      (i j : ℕ) → slice laid (64 + (64 + i)) (64 + (64 + j)) ≡ slice (p ++ (q ++ (r ++ t))) i j
  after_digests i j =
      slice_later 64 (64 + i) (64 + j) k (h ++ (p ++ (q ++ (r ++ t)))) hk
      ∙ slice_later 64 i j h (p ++ (q ++ (r ++ t))) hh

  slice_3 : slice laid 128 136 ≡ p
  slice_3 = after_digests 0 8 ∙ slice_here 8 p (q ++ (r ++ t)) hp

  slice_4 : slice laid 136 144 ≡ q
  slice_4 =
      after_digests 8 16 ∙ (slice_later 8 0 8 p (q ++ (r ++ t)) hp ∙ slice_here 8 q (r ++ t) hq)

  slice_5 : slice laid 144 152 ≡ r
  slice_5 =
      after_digests 16 24
      ∙ (slice_later 8 8 16 p (q ++ (r ++ t)) hp
          ∙ (slice_later 8 0 8 q (r ++ t) hq ∙ slice_here 8 r t hr))

  slice_6 : slice laid 152 168 ≡ t
  slice_6 =
      after_digests 24 40
      ∙ (slice_later 8 16 32 p (q ++ (r ++ t)) hp
          ∙ (slice_later 8 8 24 q (r ++ t) hq ∙ (slice_later 8 0 16 r t hr ∙ slice_whole 16 t ht)))

  laid_size : length laid ≡ 168
  laid_size = omega (
    arith,
    length-append k (h ++ (p ++ (q ++ (r ++ t)))),
    length-append h (p ++ (q ++ (r ++ t))),
    length-append p (q ++ (r ++ t)),
    length-append q (r ++ t),
    length-append r t,
  )

  decode_state-laid :
      from_big_endian p ≤ max_safe_integer
      → decode_state laid
        ≡ as_conflict (
            new_capability_state k h
              (from_unix_millis (from_big_endian p))
              (from_big_endian q)
              (from_big_endian r)
              t)
  unfolding decode_state
  decode_state-laid small =
      let whole : (length laid != capability_plaintext_bytes) ≡ false = ground (arith, laid_size) in
      let first : slice laid 0 64 ≡ k = slice_here 64 k (h ++ (p ++ (q ++ (r ++ t)))) hk in
      let fits : ltb max_safe_integer (from_big_endian p) ≡ false = ground (arith, small) in
      rw (whole, decode_state)
        (rw slice_3 (rw fits (rw first (rw slice_2 (rw slice_4 (rw slice_5 (rw slice_6 refl)))))))

decode_state-encoded :
    (c : CapabilityState)
    → length c.token_id ≡ 16
    → unix_epoch ≤ c.expires_at.instant / millisecond
    → c.expires_at.instant / millisecond ≤ unix_epoch + max_safe_integer
    → renewed c ≡ ok c
    → decode_state (encoded c) ≡ ok c
unfolding encoded
decode_state-encoded c id_size low high a =
    let (key_size, holder_size, u, w, epoch, token) = renewed_checked c c a in
    let m = unix_millis c.expires_at in
    let small : m ≤ max_safe_integer = ground arith in
    let time = from_unix_millis-unix_millis c.expires_at u w low high in
    let p = from_big_endian-big_endian m (omega arith) in
    decode_state-laid c.key c.holder (big_endian 8 m) (big_endian 8 c.epoch)
      (big_endian 8 c.fencing_token) c.token_id key_size holder_size (length-big_endian 8 m)
      (length-big_endian 8 c.epoch) (length-big_endian 8 c.fencing_token) id_size
      (omega (arith, p, small))
    ∙ rw p (
        rw time (
          rw (from_big_endian-big_endian c.epoch (omega arith))
            (rw (from_big_endian-big_endian c.fencing_token (omega arith)) (rw a refl))))

pub length-encode_state :
    (c : CapabilityState) (raw : Text)
    → length c.token_id ≡ 16
    → encode_state c ≡ ok raw
    → length raw ≡ 168
unfolding encode_state encoded
length-encode_state c raw id_size e = elim (Result-cases (renewed c)) [
  | inl (x, a) ↦ absurd (ground (arith, a, e))
  | inr (v, a) ↦
      let (key_size, holder_size, _, _, _, _) = renewed_checked c v a in
      let same = renewed-same c v a in
      let m = unix_millis c.expires_at in
      let made : encode_state c ≡ ok (encoded v) = rw (a, encode_state) refl in
      let written : encoded c ≡ raw =
        ap encoded (sym same) ∙ ok-injective (encoded v) raw (sym made ∙ e) in
      ap length (sym written)
      ∙ laid_size c.key c.holder (big_endian 8 m) (big_endian 8 c.epoch)
          (big_endian 8 c.fencing_token) c.token_id key_size holder_size (length-big_endian 8 m)
          (length-big_endian 8 c.epoch) (length-big_endian 8 c.fencing_token) id_size
]

-- decodeState reads back what encodeState has written: where the token identifier has its 16 bytes and
-- the expiry lies between the Unix epoch and maxSafeInteger milliseconds after it, decoding what an
-- accepted state is encoded to gives that state.
pub decode_state-encode_state :
    (c : CapabilityState) (raw : Text)
    → length c.token_id ≡ 16
    → unix_epoch ≤ c.expires_at.instant / millisecond
    → c.expires_at.instant / millisecond ≤ unix_epoch + max_safe_integer
    → encode_state c ≡ ok raw
    → decode_state raw ≡ ok c
unfolding encode_state
decode_state-encode_state c raw id_size low high e = elim (Result-cases (renewed c)) [
  | inl (x, a) ↦ absurd (ground (arith, a, e))
  | inr (v, a) ↦
      let same = renewed-same c v a in
      let made : encode_state c ≡ ok (encoded v) = rw (a, encode_state) refl in
      let written : encoded c ≡ raw =
        ap encoded (sym same) ∙ ok-injective (encoded v) raw (sym made ∙ e) in
      subst (λ x. decode_state x ≡ ok c) written
        (decode_state-encoded c id_size low high
          (a ∙ ap {B = Result Error CapabilityState} ok same))
]
