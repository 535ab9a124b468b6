-- ===== src/JetStream/Commands.antt =====
-- internal/relay/jetstream/command.go: what decodeCommand reads of what newCommand has written.
use yukh_coordination.Base.{
  ◌≡◌, ◌≢◌, ◌⊎◌, ◌<◌, ◌^◌, subst, refl, sym, ap, ◌∙◌, inl, inr, Bool, true, false, ◌||◌, Option,
  none, some, some-injective, List, [], ◌∷◌, ltb, ◌==◌, ◌!=◌, nat_eq, text_eq, Text, ok, length,
  all, arith, Option-cases, Bool-cases, eq_refl, ok-injective, ℕ_discrete,
}
use yukh_coordination.JetStream.{
  Command, ChannelPayload, RecordPayload, SignaturePayload, Codec, command_version,
  max_command_bytes, known_type, valid_envelope, new_command, decode_command, decode_bytes,
}

abbrev pub channel_texts : ChannelPayload → List Text
channel_texts p =
    p.canonical_metadata ∷ p.channel_id ∷ p.lifecycle ∷ p.metadata_digest ∷ p.transcript_epoch
    ∷ p.uri ∷ []

abbrev pub record_texts : RecordPayload → List Text
record_texts p =
    p.authenticated_binding ∷ p.authorization_binding ∷ p.canonical_event ∷ p.channel_id
    ∷ p.event_digest ∷ p.event_id ∷ p.receipt_id ∷ p.signature_algorithm ∷ p.signing_key_id
    ∷ p.transcript_epoch ∷ p.unsigned_receipt_preimage ∷ []

abbrev pub signature_texts : SignaturePayload → List Text
signature_texts p =
    p.channel_id ∷ p.preimage_digest ∷ p.receipt_id ∷ p.signature ∷ p.transcript_epoch ∷ []

-- A payload that newCommand wraps: what json.Marshal has written of one of the three payloads.
abbrev pub IsPayload : Codec → Text → Type 0
IsPayload codec t =
    ((p : ChannelPayload) × (codec.marshal_channel p ≡ some t))
    ⊎ (((p : RecordPayload) × (codec.marshal_record p ≡ some t))
        ⊎ ((p : SignaturePayload) × (codec.marshal_signature p ≡ some t)))

-- The JSON text `t` is in UTF-8 and has a canonical form, which is read as `x`.
pub record IsWritten (is_utf8 : Text → Bool) (codec : Codec) {A : Type 0} (decode : Text → Option A)
    (x : A) (t : Text) : Type 0 where
  pub utf8 : is_utf8 t ≡ true
  pub raw : Text
  pub form : codec.transform t ≡ some raw
  pub read : decode raw ≡ some x

-- What uuid.NewV7 returns, as a string: an identifier of version 7, in UTF-8.
pub record IsCommandId (is_utf8 : Text → Bool) (codec : Codec) (id : Text) : Type 0 where
  pub version : codec.uuid_version id ≡ some 7
  pub utf8 : is_utf8 id ≡ true

-- What the libraries document. base64 decodes what it encodes. The canonical form of JSON in UTF-8 is its
-- own canonical form, and is not empty. What json.Marshal writes is in UTF-8 and has a canonical form;
-- of a struct whose texts are in UTF-8, and whose number is one that a float64 holds exactly, that form
-- is read back as the struct. A raw payload is written in place, and read back in canonical form.
pub record IsCodec (is_utf8 : Text → Bool) (codec : Codec) : Type 0 where
  pub base64 : (t : Text) → codec.decode_base64 (codec.encode_bytes t) ≡ some t
  pub canonical_again :
      (t c : Text) → is_utf8 t ≡ true → codec.transform t ≡ some c → codec.transform c ≡ some c
  pub canonical_filled : (t c : Text) → codec.transform t ≡ some c → c ≢ []
  pub command :
      (c : Command) (t p : Text)
      → is_utf8 c.command_id ≡ true
      → known_type c.command_type ≡ true
      → c.command_version ≡ command_version
      → is_utf8 c.tenant_id ≡ true
      → IsPayload codec c.payload
      → codec.transform c.payload ≡ some p
      → codec.marshal_command c ≡ some t
      → IsWritten is_utf8 codec codec.decode_command (record c { payload = p }) t
  pub channel :
      (p : ChannelPayload) (t : Text)
      → all is_utf8 (channel_texts p) ≡ true
      → codec.marshal_channel p ≡ some t
      → IsWritten is_utf8 codec codec.decode_channel p t
  pub record_ :
      (p : RecordPayload) (t : Text)
      → all is_utf8 (record_texts p) ≡ true
      → p.sequence < 2 ^ 53
      → codec.marshal_record p ≡ some t
      → IsWritten is_utf8 codec codec.decode_record p t
  pub signature :
      (p : SignaturePayload) (t : Text)
      → all is_utf8 (signature_texts p) ≡ true
      → codec.marshal_signature p ≡ some t
      → IsWritten is_utf8 codec codec.decode_signature p t

-- The canonical form, whichever way it was found, is read as the struct.
pub IsWritten-read :
    (is_utf8 : Text → Bool) (codec : Codec) {A : Type 0} (decode : Text → Option A) (x : A)
    (t raw : Text)
    → IsWritten is_utf8 codec decode x t
    → codec.transform t ≡ some raw
    → decode raw ≡ some x
IsWritten-read is_utf8 codec decode x t raw w form =
    subst (λ r. decode r ≡ some x) (some-injective w.raw raw (sym w.form ∙ form)) w.read

nonempty_size : (t : Text) → t ≢ [] → (length t == 0) ≡ false
nonempty_size [] h = absurd (h refl)
nonempty_size (x ∷ t) h = ground arith

module _ (is_utf8 : Text → Bool) (codec : Codec) (laws : IsCodec is_utf8 codec) where
  pub decode_bytes-encode_bytes : (t : Text) → decode_bytes codec (codec.encode_bytes t) ≡ ok t
  unfolding decode_bytes
  decode_bytes-encode_bytes t =
      let same : (codec.encode_bytes t != codec.encode_bytes t) ≡ false = ground arith in
      rw (laws.base64 t, decode_bytes) (rw same refl)

  abbrev pub envelope : Text → Text → Text → Text → Command
  envelope id tenant_id kind payload = record {
    command_id = id;
    command_type = kind;
    command_version = command_version;
    payload = payload;
    tenant_id = tenant_id;
  }

  decode_command-canonical :
      (t raw : Text) (c : Command)
      → is_utf8 t ≡ true
      → codec.transform t ≡ some raw
      → ltb max_command_bytes (length raw) ≡ false
      → codec.decode_command raw ≡ some c
      → valid_envelope c (codec.uuid_version c.command_id) ≡ true
      → decode_command codec raw ≡ ok c
  unfolding decode_command
  decode_command-canonical t raw c utf8 canonical fits read valid =
      let filled = laws.canonical_filled t raw canonical in
      let sized : (length raw == 0 || ltb max_command_bytes (length raw)) ≡ false =
        ground (arith, nonempty_size raw filled) in
      let same : (raw != raw) ≡ false = ground arith in
      rw (sized, decode_command)
        (rw (laws.canonical_again t raw utf8 canonical) (rw same (rw read (rw valid refl))))

  -- decodeCommand reads what newCommand has written, its payload in canonical form.
  pub decode_command-new_command :
      (id tenant_id kind raw : Text) (payload : Option Text)
      → IsCommandId is_utf8 codec id
      → tenant_id ≢ []
      → known_type kind ≡ true
      → is_utf8 tenant_id ≡ true
      → ((t : Text)
          → payload ≡ some t
          → (p : Text) × IsPayload codec t × (codec.transform t ≡ some p))
      → new_command codec (some id) tenant_id kind payload ≡ ok raw
      → (t : Text) × (p : Text) × (payload ≡ some t)
        × (codec.transform t ≡ some p)
        × (decode_command codec raw ≡ ok (envelope id tenant_id kind p))
  unfolding new_command ℕ_discrete
  decode_command-new_command id tenant_id kind raw none v7 tenant known utf8 formed h =
      absurd (ground (arith, h))
  decode_command-new_command id tenant_id kind raw (some t) v7 tenant known utf8 formed h =
      elim (Option-cases (codec.marshal_command (envelope id tenant_id kind t))) [
        | inl a ↦ absurd (ground (arith, a, h))
        | inr (json, a) ↦ elim (Option-cases (codec.transform json)) [
          | inl b ↦ absurd (ground (arith, a, b, h))
          | inr (canonical, b) ↦ elim (Bool-cases (ltb max_command_bytes (length canonical))) [
            | inl d ↦ absurd (ground (arith, a, b, d, h))
            | inr d ↦
                let (p, wrapped, form) = formed t refl in
                let w =
                  laws.command (envelope id tenant_id kind t) json p v7.utf8 known refl utf8 wrapped
                    form a in
                let read =
                  IsWritten-read is_utf8 codec codec.decode_command (envelope id tenant_id kind p)
                    json canonical w b in
                let valid : valid_envelope (envelope id tenant_id kind p) (codec.uuid_version id)
                    ≡ true =
                  let other : (tenant_id == []) ≡ false = ground (arith, tenant) in
                  rw v7.version (rw (eq_refl command_version) (rw other (rw known refl))) in
                let made : new_command codec (some id) tenant_id kind (some t) ≡ ok canonical =
                  rw (a, new_command) (rw b (rw d refl)) in
                let same = ok-injective canonical raw (sym made ∙ h) in
                (
                  t,
                  p,
                  refl,
                  form,
                  ap (λ r. decode_command codec r) (sym same)
                      ∙ decode_command-canonical json canonical (envelope id tenant_id kind p)
                          w.utf8 b d read valid,
                )
          ]
        ]
      ]
