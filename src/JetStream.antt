-- ===== src/JetStream.antt =====
-- internal/relay/jetstream/command.go, and the subjects of store.go: the commands of a tenant's log.
-- JSON, its canonical form, base64, base32, UUIDs and SHA-256 are parameters; an error of theirs is
-- `none`.
pub mod Reducer
pub mod Operations
pub mod Store
pub mod Commands
pub mod Replay
pub mod Records
pub mod Signatures
mod Soundness
pub mod Histories
pub mod Reduces
pub mod Rounds
pub mod Visible
mod Packing
mod Tests
use yukh_coordination.Base.{
  ℕ, ◌+◌, Bool, not, ◌&&◌, ◌||◌, Option, none, some, List, [], ◌∷◌, ◌++◌, ltb, leb, ◌==◌, ◌!=◌,
  nat_eq, text_eq, Text, text, Result, ok, err, if◌then◌else◌, length, map,
}
use yukh_coordination.Relay.{Error, hex_encode}

-- An error that wraps none of the relay's.
abbrev pub failure : Error
failure = Error.external 0

pub record Command : Type 0 where
  pub command_id : Text
  pub command_type : Text
  pub command_version : Text
  pub payload : Text
  pub tenant_id : Text

pub record ChannelPayload : Type 0 where
  pub canonical_metadata : Text
  pub channel_id : Text
  pub lifecycle : Text
  pub metadata_digest : Text
  pub transcript_epoch : Text
  pub uri : Text

pub record RecordPayload : Type 0 where
  pub authenticated_binding : Text
  pub authorization_binding : Text
  pub canonical_event : Text
  pub channel_id : Text
  pub event_digest : Text
  pub event_id : Text
  pub receipt_id : Text
  pub sequence : ℕ
  pub signature_algorithm : Text
  pub signing_key_id : Text
  pub transcript_epoch : Text
  pub unsigned_receipt_preimage : Text

pub record SignaturePayload : Type 0 where
  pub channel_id : Text
  pub preimage_digest : Text
  pub receipt_id : Text
  pub signature : Text
  pub transcript_epoch : Text

-- json.Marshal and decodeClosed for each type, jsoncanonicalizer.Transform, uuid.Parse with Version,
-- base64.RawURLEncoding, and the lower-case base32 of TenantToken.
pub record Codec : Type 0 where
  pub marshal_command : Command → Option Text
  pub decode_command : Text → Option Command
  pub marshal_channel : ChannelPayload → Option Text
  pub decode_channel : Text → Option ChannelPayload
  pub marshal_record : RecordPayload → Option Text
  pub decode_record : Text → Option RecordPayload
  pub marshal_signature : SignaturePayload → Option Text
  pub decode_signature : Text → Option SignaturePayload
  pub transform : Text → Option Text
  pub uuid_version : Text → Option ℕ
  pub encode_bytes : Text → Text
  pub decode_base64 : Text → Option Text
  pub base32 : Text → Text

abbrev pub command_version : Text
command_version = text "1"

abbrev pub channel_created : Text
channel_created = text "channel_created"

abbrev pub record_appended : Text
record_appended = text "record_appended"

abbrev pub signature_attached : Text
signature_attached = text "signature_attached"

abbrev pub max_command_bytes : ℕ
max_command_bytes = 131_072

abbrev pub known_type : Text → Bool
known_type t = t == channel_created || t == record_appended || t == signature_attached

-- strings.ToLower of ASCII text
abbrev pub lower : ℕ → ℕ
lower c = if leb b'A' c && leb c b'Z' then c + 32 else c

unfoldable pub preimage_digest : (Text → Text) → Text → Text
preimage_digest sha256 value = text "sha-256:" ++ hex_encode (sha256 value)

module _ (sha256 : Text → Text) (codec : Codec) where
  unfoldable pub tenant_token : Text → Result Error Text
  tenant_token tenant_id =
      if tenant_id == []
      then err Error.invalid_argument
      else ok (map lower (codec.base32 (sha256 tenant_id)))

  unfoldable pub tenant_subject : Text → Result Error Text
  unfolding tenant_token
  tenant_subject tenant_id = elim (tenant_token tenant_id) [
    | err e ↦ err e
    | ok token ↦ ok (text "yukh.coordination.v1.tenant." ++ (token ++ text ".log"))
  ]

abbrev pub valid_envelope : Command → Option ℕ → Bool
valid_envelope value none = Bool.false
valid_envelope value (some version) =
    version == 7
    && value.command_version == command_version
    && not (value.tenant_id == [])
    && known_type value.command_type

module _ (codec : Codec) where
  -- newCommand from the payload's bytes on; the identifier is what uuid.NewV7 returns.
  unfoldable pub new_command : Option Text → Text → Text → Option Text → Result Error Text
  new_command none tenant_id kind payload = err failure
  new_command (some id) tenant_id kind none = err failure
  new_command (some id) tenant_id kind (some payload) =
      elim (codec.marshal_command (record {
        command_id = id;
        command_type = kind;
        command_version = command_version;
        payload = payload;
        tenant_id = tenant_id;
      })) [
        | none ↦ err failure
        | some raw ↦ elim (codec.transform raw) [
          | none ↦ err failure
          | some canonical ↦
              if ltb max_command_bytes (length canonical)
              then err Error.resource_limit
              else ok canonical
        ]
      ]

  unfoldable pub decode_command : Text → Result Error Command
  decode_command raw =
      if length raw == 0 || ltb max_command_bytes (length raw)
      then err failure
      else elim (codec.transform raw) [
        | none ↦ err failure
        | some canonical ↦
            if canonical != raw then err failure else elim (codec.decode_command raw) [
              | none ↦ err failure
              | some value ↦
                  if valid_envelope value (codec.uuid_version value.command_id)
                  then ok value
                  else err failure
            ]
      ]

  unfoldable pub decode_bytes : Text → Result Error Text
  decode_bytes value = elim (codec.decode_base64 value) [
    | none ↦ err failure
    | some decoded ↦ if codec.encode_bytes decoded != value then err failure else ok decoded
  ]
