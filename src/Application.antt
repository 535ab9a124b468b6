-- ===== src/Application.antt =====
-- internal/relay/service/application.go: the relay application, over the relay store in memory. JSON and
-- its canonical form, base64, strconv and the validator of internal/relay/protocol are parameters; an
-- error of theirs is `none`.
pub mod Live
pub mod Subscribers
pub mod Signals
pub mod Append
pub mod Admission
pub mod Pages
pub mod Stream
pub mod Contiguous
mod AdmissionTests
mod Tests
use yukh_coordination.Base.{
  ℕ, zero, suc, ◌+◌, Bool, true, false, not, ◌||◌, Option, none, some, List, [], ◌∷◌, ◌++◌, ltb,
  ◌==◌, ◌!=◌, Eq, nat_eq, text_eq, Text, text, Result, ok, err, if◌then◌else◌, length,
}
use yukh_coordination.Relay.{Error, ChannelKey, Channel, AcceptedRecord, is_empty, event_digest_of}
use yukh_coordination.Relay.Memory.{Store, lookup_channel, read}

-- An error that wraps none of the relay's.
abbrev pub failure : Error
failure = Error.external 0

abbrev pub max_safe_integer : ℕ
max_safe_integer = 9_007_199_254_740_991

-- httpapi.Identity, as far as the application reads it.
pub record Identity : Type 0 where
  pub tenant_id : Text
  pub principal_id : Text
  pub participant_instance_id : Text
  pub session_epoch : ℕ

pub record AdmittedRequest : Type 0 where
  pub identity : Identity
  pub channel : ChannelKey
  pub authorization_binding : Text
  pub acl_policy_version : Text
  pub acl_policy_digest : Text
  pub acl_decision_receipt_id : Text

pub record ReplayRequest : Type 0 where
  pub admitted : AdmittedRequest
  pub after : ℕ
  pub limit : ℕ

pub record ChannelMetadata : Type 0 where
  pub tenant_id : Text
  pub channel_id : Text
  pub channel_uri : Text
  pub acl_policy_version : Text
  pub acl_policy_digest : Text
  pub digest : Text

-- The members of a stored preimage; `none` where a member is missing or of another type. A number is
-- a float64, which holds the numbers up to maxSafeInteger exactly.
pub record Preimage : Type 0 where
  pub event_id : Option Text
  pub event_digest : Option Text
  pub tenant_id : Option Text
  pub channel_id : Option Text
  pub receipt_id : Option Text
  pub key_id : Option Text
  pub signature_algorithm : Option Text
  pub sequence : Option ℕ
  pub transcript_epoch : Option ℕ

pub record Page : Type 0 where
  pub channel_id : Text
  pub channel_uri : Text
  pub transcript_epoch : ℕ
  pub after : ℕ
  pub high_water_sequence : ℕ
  pub records : List Text
  -- `boundary_sequence` of an incomplete page
  pub boundary : Option ℕ

-- `signed_json` puts the encoded signature into the preimage, and `record_json` an event and its receipt
-- into one object; both end in canonicalJSON.
pub record Codec : Type 0 where
  pub parse_uint : Text → Option ℕ
  pub validate_metadata : Text → Option ChannelMetadata
  pub parse_preimage : Text → Option Preimage
  pub transform : Text → Option Text
  pub encode_base64 : Text → Text
  pub signed_json : Text → Text → Option Text
  pub valid_receipt : Text → Bool
  pub record_json : Text → Text → Option Text
  pub page_json : Page → Option Text

abbrev pub is {ℓ} : {A : Type ℓ} ⦃e : Eq A⦄ → Option A → A → Bool
is none a = false
is (some b) a = b == a

abbrev pub or_failure : {A : Type 0} → Option A → Result Error A
or_failure none = err failure
or_failure (some a) = ok a

abbrev pub malformed : AdmittedRequest → Bool
malformed a =
    is_empty a.identity.tenant_id
    || is_empty a.identity.principal_id
    || is_empty a.identity.participant_instance_id
    || a.channel.tenant_id != a.identity.tenant_id
    || is_empty a.authorization_binding
    || is_empty a.acl_policy_version
    || is_empty a.acl_policy_digest
    || is_empty a.acl_decision_receipt_id

-- The channel's metadata is not what the request was admitted for.
abbrev pub unfit : AdmittedRequest → Channel → ChannelMetadata → Bool
unfit a channel m =
    m.digest != channel.metadata_digest
    || m.tenant_id != a.identity.tenant_id
    || m.channel_id != a.channel.channel_id
    || m.channel_uri != channel.uri
    || m.acl_policy_version != a.acl_policy_version
    || m.acl_policy_digest != a.acl_policy_digest
    || channel.lifecycle != text "active"

abbrev pub bound_preimage : AcceptedRecord → Preimage → Bool
bound_preimage r p = not (
    not (is p.event_id r.event_id)
    || not (is p.event_digest r.event_digest)
    || not (is p.tenant_id r.channel.tenant_id)
    || not (is p.channel_id r.channel.channel_id)
    || not (is p.receipt_id r.receipt_id)
    || not (is p.key_id r.signing_key_id)
    || not (is p.signature_algorithm r.signature_algorithm)
    || not (is p.sequence r.sequence))

module _ (codec : Codec) where
  unfoldable pub resolve :
      Option Error → Store → AdmittedRequest → Result Error (Channel × ChannelMetadata × ℕ)
  resolve ctx s a =
      if malformed a
      then err Error.invalid_argument
      else elim (codec.parse_uint a.channel.transcript_epoch) [
        | none ↦ err Error.invalid_argument
        | some epoch ↦
            if ltb max_safe_integer epoch || ltb max_safe_integer a.identity.session_epoch
            then err Error.invalid_argument
            else elim (lookup_channel ctx s a.channel) [
              | err e ↦ err e
              | ok channel ↦ elim (codec.validate_metadata channel.canonical_metadata) [
                | none ↦ err Error.channel_not_found
                | some m ↦
                    if unfit a channel m
                    then err Error.channel_not_found
                    else ok (channel, m, epoch)
              ]
            ]
      ]

  unfoldable pub signed_receipt : AcceptedRecord → Result Error Text
  signed_receipt r =
      if is_empty r.signature
      then err Error.signature_pending
      else elim (codec.parse_preimage r.unsigned_receipt_preimage) [
        | none ↦ err failure
        | some p ↦
            if not (is (codec.transform r.unsigned_receipt_preimage) r.unsigned_receipt_preimage)
              || not (bound_preimage r p)
            then err failure
            else elim (codec.parse_uint r.channel.transcript_epoch) [
              | none ↦ err failure
              | some epoch ↦
                  if not (is p.transcript_epoch epoch)
                  then err failure
                  else or_failure (
                      codec.signed_json r.unsigned_receipt_preimage
                        (codec.encode_base64 r.signature))
            ]
      ]

module _ (sha256 : Text → Text) (codec : Codec) where
  unfoldable pub canonical_record : AcceptedRecord → Result Error Text
  unfolding signed_receipt
  canonical_record r =
      if event_digest_of sha256 r.canonical_event != r.event_digest
      then err failure
      else elim (signed_receipt codec r) [
        | err e ↦ err e
        | ok receipt ↦
            if not (codec.valid_receipt receipt)
            then err failure
            else or_failure (codec.record_json r.canonical_event receipt)
      ]

  -- The loop of buildPage: the records of the page, the high-water mark and the boundary. The handler
  -- takes no `after` above maxSafeInteger, so that the sum does not wrap to 0, which stands for none.
  unfoldable pub page_loop : ℕ → List AcceptedRecord → List Text × ℕ × Option ℕ
  unfolding canonical_record
  page_loop high_water [] = ([], high_water, none)
  page_loop high_water (r ∷ rs) =
      if r.sequence != high_water + 1 || is_empty r.signature
      then ([], high_water, some (high_water + 1))
      else elim (canonical_record r) [
        | err e ↦ ([], high_water, some (high_water + 1))
        | ok encoded ↦
            let (texts, last, boundary) = page_loop r.sequence rs in
            (encoded ∷ texts, last, boundary)
      ]

  unfoldable pub build_page : Channel → ℕ → ℕ → List AcceptedRecord → Page
  unfolding page_loop
  build_page channel epoch after records =
      let (texts, high_water, boundary) = page_loop after records in
      record {
        channel_id = channel.key.channel_id;
        channel_uri = channel.uri;
        transcript_epoch = epoch;
        after = after;
        high_water_sequence = high_water;
        records = texts;
        boundary = boundary;
      }

  unfoldable pub replay : (ℕ → Option Error) → Store → ReplayRequest → Result Error Text
  unfolding build_page resolve
  replay ctx s request = elim (resolve codec (ctx 0) s request.admitted) [
    | err e ↦ err e
    | ok (channel, m, epoch) ↦
        elim (read (ctx 1) s request.admitted.channel request.after request.limit) [
          | err e ↦ err e
          | ok records ↦
              or_failure (codec.page_json (build_page channel epoch request.after records))
        ]
  ]
