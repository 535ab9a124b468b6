-- ===== src/JetStream/Packing.antt =====
-- A codec for tests, that packs the fields of a command with their lengths.
use yukh_coordination.Base.{
  ℕ, zero, suc, ◌≡◌, ◌≢◌, refl, sym, ap, subst, ◌∙◌, Bool, true, Option, none, some, some-injective,
  List, [], ◌∷◌, ◌++◌, Text, text_eq, arith, length, take, drop, drop-length,
}
use yukh_coordination.JetStream.{Command, ChannelPayload, RecordPayload, SignaturePayload, Codec}
use yukh_coordination.JetStream.Commands.{
  IsCodec, IsWritten, channel_texts, record_texts, signature_texts,
}

abbrev pub pack : List Text → Text
pack [] = []
pack (f ∷ fs) = length f ∷ f ++ pack fs

abbrev unpack : ℕ → Text → List Text
unpack zero t = []
unpack (suc n) [] = []
unpack (suc n) (k ∷ t) = take k t ∷ unpack n (drop k t)

take-length : (a b : Text) → take (length a) (a ++ b) ≡ a
take-length [] b = refl
take-length (x ∷ a) b = ap (λ r. x ∷ r) (take-length a b)

unpack-pack : (fs : List Text) → unpack (length fs) (pack fs) ≡ fs
unpack-pack [] = refl
unpack-pack (f ∷ fs) =
    rw (take-length f (pack fs)) (rw (drop-length f (pack fs)) (rw (unpack-pack fs) refl))

abbrev command_of : List Text → Option Command
command_of (a ∷ b ∷ c ∷ d ∷ e ∷ []) =
    some
      (record { command_id = a; command_type = b; command_version = c; payload = d; tenant_id = e })
command_of _ = none

abbrev channel_of : List Text → Option ChannelPayload
channel_of (a ∷ b ∷ c ∷ d ∷ e ∷ f ∷ []) = some (record {
  canonical_metadata = a;
  channel_id = b;
  lifecycle = c;
  metadata_digest = d;
  transcript_epoch = e;
  uri = f;
})
channel_of _ = none

abbrev record_of : ℕ → List Text → Option RecordPayload
record_of n (a ∷ b ∷ c ∷ d ∷ e ∷ f ∷ g ∷ h ∷ i ∷ j ∷ k ∷ []) = some (record {
  authenticated_binding = a;
  authorization_binding = b;
  canonical_event = c;
  channel_id = d;
  event_digest = e;
  event_id = f;
  receipt_id = g;
  sequence = n;
  signature_algorithm = h;
  signing_key_id = i;
  transcript_epoch = j;
  unsigned_receipt_preimage = k;
})
record_of _ _ = none

abbrev numbered_record : Text → Option RecordPayload
numbered_record [] = none
numbered_record (n ∷ t) = record_of n (unpack 11 t)

abbrev signature_of : List Text → Option SignaturePayload
signature_of (a ∷ b ∷ c ∷ d ∷ e ∷ []) = some (record {
  channel_id = a;
  preimage_digest = b;
  receipt_id = c;
  signature = d;
  transcript_epoch = e;
})
signature_of _ = none

abbrev filled : Text → Option Text
filled [] = none
filled (x ∷ t) = some (x ∷ t)

abbrev pub command_texts : Command → List Text
command_texts c = c.command_id ∷ c.command_type ∷ c.command_version ∷ c.payload ∷ c.tenant_id ∷ []

abbrev marshal_filled : Command → Option Text → Option Text
marshal_filled c none = none
marshal_filled c (some p) = some (pack (command_texts c))

abbrev pub packing : Codec
packing = record {
  marshal_command = λ c. marshal_filled c (filled c.payload);
  decode_command = λ t. command_of (unpack 5 t);
  marshal_channel = λ p. some (pack (channel_texts p));
  decode_channel = λ t. channel_of (unpack 6 t);
  marshal_record = λ p. some (p.sequence ∷ pack (record_texts p));
  decode_record = numbered_record;
  marshal_signature = λ p. some (pack (signature_texts p));
  decode_signature = λ t. signature_of (unpack 5 t);
  transform = filled;
  uuid_version = λ t. some 7;
  encode_bytes = λ t. t;
  decode_base64 = λ t. some t;
  base32 = λ t. t;
}

filled-same : (t c : Text) → filled t ≡ some c → c ≡ t
filled-same [] c h = absurd (cc)
filled-same (x ∷ t) c h = cc

filled-nonempty : (t c : Text) → filled t ≡ some c → c ≢ []
filled-nonempty [] c h e = absurd (cc)
filled-nonempty (x ∷ t) c h e = absurd (ground (arith, h, e))

abbrev pub anything : Text → Bool
anything t = true

-- What was packed, and is not empty, is read back.
packed :
    {A : Type 0} (decode : Text → Option A) (a : A) (x t : Text)
    → some x ≡ some t
    → filled x ≡ some x
    → decode x ≡ some a
    → IsWritten anything packing decode a t
packed decode a x t h f d =
    subst (λ y. IsWritten anything packing decode a y) (some-injective x t h)
      (record { utf8 = refl; raw = x; form = f; read = d })

packing_command :
    (c : Command) (t p : Text)
    → filled c.payload ≡ some p
    → marshal_filled c (filled c.payload) ≡ some t
    → IsWritten anything packing packing.decode_command (record c { payload = p }) t
packing_command c t p a h =
    packed packing.decode_command (record c { payload = p }) (pack (command_texts c)) t
      (ap (marshal_filled c) (sym a) ∙ h) refl
      (ap command_of (unpack-pack (command_texts c))
        ∙ ap (λ x. some (record c { payload = x })) (sym (filled-same c.payload p a)))

pub packing-IsCodec : IsCodec anything packing
packing-IsCodec = record {
  base64 = λ t. refl;
  canonical_again = λ t c u h. ap filled (filled-same t c h) ∙ h;
  canonical_filled = λ t c h. filled-nonempty t c h;
  command = λ c t p id kind version tenant wrapped form h. packing_command c t p form h;
  channel = λ p t u h.
      packed packing.decode_channel p (pack (channel_texts p)) t h refl
        (ap channel_of (unpack-pack (channel_texts p)));
  record_ = λ p t u exact h.
      packed packing.decode_record p (p.sequence ∷ pack (record_texts p)) t h refl
        (ap (record_of p.sequence) (unpack-pack (record_texts p)));
  signature = λ p t u h.
      packed packing.decode_signature p (pack (signature_texts p)) t h refl
        (ap signature_of (unpack-pack (signature_texts p)));
}
