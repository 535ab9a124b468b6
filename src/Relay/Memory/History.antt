-- ===== src/Relay/Memory/History.antt =====
-- Histories of the relay store in memory. The mutex makes each method one step.
use yukh_coordination.Base.{◌≡◌, refl, Option, List, [], ◌∷◌, ◌++◌, Text}
use yukh_coordination.Relay.{
  Error, Channel, AppendIntent, SignatureAttachment, PrepareRecord, Admit,
}
use yukh_coordination.Relay.Memory.{Store, create_channel, append_checked, attach_signature}

-- A call of a method that writes; the callbacks are what the caller passes.
pub data Call : Type 0 where
  creates : Option Error → Channel → Call
  appends : Option Error → AppendIntent → Option Admit → Option PrepareRecord → Call
  attaches : Option Error → SignatureAttachment → Call

unfoldable pub perform : (Text → Text) → Store → Call → Store
perform sha256 s (creates ctx c) = (create_channel ctx s c).0
perform sha256 s (appends ctx intent admit prepare) =
    (append_checked sha256 ctx s intent admit prepare).0
perform sha256 s (attaches ctx a) = (attach_signature ctx s a).0

unfoldable pub run : (Text → Text) → Store → List Call → Store
run sha256 s [] = s
run sha256 s (c ∷ cs) = run sha256 (perform sha256 s c) cs

pub run-append :
    (sha256 : Text → Text) (s : Store) (cs more : List Call)
    → run sha256 (run sha256 s cs) more ≡ run sha256 s (cs ++ more)
unfolding run
run-append sha256 s [] more = refl
run-append sha256 s (c ∷ cs) more = run-append sha256 (perform sha256 s c) cs more
