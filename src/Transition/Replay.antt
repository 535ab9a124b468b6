-- ===== src/Transition/Replay.antt =====
-- internal/relay/service/transition.go: the page loop of Validate over the relay store in memory.
use yukh_coordination.Base.{
  ℕ, zero, suc, ◌+◌, ◌-◌, ◌*◌, ◌≤◌, ◌<◌, ◌≡◌, refl, sym, ap, ◌∙◌, inl, inr, true, false, Option,
  some, List, [], ◌∷◌, ◌++◌, arith, ltb, Text, lookup, Result, ok, err, length, take, drop,
  get_elem?, length-take, length-drop, drop-all, drop-add, take-append-drop, Result-cases,
  Bool-cases, ltb→lt, not_ltb→le, subst,
}
use yukh_coordination.Relay.{AcceptedRecord, AdmissionView, ChannelKey, channel_key_eq, is_empty}
use yukh_coordination.Relay.Memory.{Transcript, Store, new, admission_view, view_read}
use yukh_coordination.Relay.Memory.History.{Call, run}
use yukh_coordination.Relay.Memory.Invariant.{run-records-Placed}
use yukh_coordination.Relay.Memory.Reads.{window-take-drop}
use yukh_coordination.Transition.{
  Descriptor, TransitionEvent, TranscriptState, empty_state, Failure,
}
use yukh_coordination.Transition.Validate.{
  replay, replay_all, last_sequence, read_pages, judge, validate,
}

-- The records have the sequences that follow `n`.
Counted : ℕ → List AcceptedRecord → Type 0
Counted n [] = Unit
Counted n (r ∷ rs) = (r.sequence ≡ n + 1) × Counted (n + 1) rs

get_elem?-Counted :
    (n : ℕ) (l : List AcceptedRecord)
    → ((i : ℕ) (r : AcceptedRecord) → get_elem? l i ≡ some r → r.sequence ≡ n + i + 1)
    → Counted n l
unfolding Counted
get_elem?-Counted n [] h = tt
get_elem?-Counted n (x ∷ l) h =
    (omega (arith, h 0 x refl), get_elem?-Counted (n + 1) l (λ i r e. omega (arith, h (suc i) r e)))

drop-Counted :
    (k n m : ℕ) (l : List AcceptedRecord)
    → k ≤ length l
    → m ≡ n + k
    → Counted n l
    → Counted m (drop k l)
unfolding Counted
drop-Counted zero n m l h e c = subst (λ x. Counted x l) (omega arith) c
drop-Counted (suc k) n m [] h e c = tt
drop-Counted (suc k) n m (x ∷ l) h e c = drop-Counted k (n + 1) m l (omega arith) (omega arith) c.1

last_sequence-take :
    (k n : ℕ) (l : List AcceptedRecord)
    → k ≤ length l
    → Counted n l
    → last_sequence n (take k l) ≡ n + k
unfolding Counted
last_sequence-take zero n l h c = omega arith
last_sequence-take (suc k) n [] h c = absurd (omega arith)
last_sequence-take (suc k) n (x ∷ l) h c =
    ap (λ m. last_sequence m (take k l)) c.0
    ∙ (last_sequence-take k (n + 1) l (omega arith) c.1 ∙ omega arith)

module _ (sha256 : Text → Text) (canonical_evidence : List Descriptor → Text)
    (canonical_boundary : Text → Text → Text → Text → Text → Text → Text)
    (parse : Text → Option TransitionEvent) (receipt_participant : Text → Text) where
  abbrev fold : TranscriptState → List AcceptedRecord → Result Failure TranscriptState
  fold = replay_all sha256 canonical_evidence canonical_boundary parse receipt_participant

  abbrev then_fold :
      List AcceptedRecord → Result Failure TranscriptState → Result Failure TranscriptState
  then_fold b (err e) = err e
  then_fold b (ok t) = fold t b

  replay_all-append :
      (s : TranscriptState) (a b : List AcceptedRecord) → fold s (a ++ b) ≡ then_fold b (fold s a)
  unfolding replay_all
  replay_all-append s [] b = refl
  replay_all-append s (r ∷ a) b =
      elim (Result-cases
        (replay sha256 canonical_evidence canonical_boundary parse receipt_participant s r)) [
          | inl (e, p) ↦ rw (p, replay_all) refl
          | inr (t, p) ↦ rw (p, replay_all) (replay_all-append t a b)
        ]

  some_ap :
      {a b : Result Failure TranscriptState}
      → a ≡ b
      → ◌≡◌ {A = Option (Result Failure TranscriptState)} (some a) (some b)
  some_ap e = ap {B = Option (Result Failure TranscriptState)} some e

  abbrev pages : ℕ → AdmissionView → TranscriptState → ℕ → Option (Result Failure TranscriptState)
  pages = read_pages sha256 canonical_evidence canonical_boundary parse receipt_participant

  -- What the loop does once a page is replayed.
  abbrev turn :
      ℕ
      → AdmissionView
      → ℕ
      → List AcceptedRecord
      → Result Failure TranscriptState
      → Option (Result Failure TranscriptState)
  turn fuel view after page r = elim r [
    | err e ↦ some (err e)
    | ok u ↦ elim (ltb (length page) 1000) [
      | true ↦ some (ok u)
      | false ↦ pages fuel view u (last_sequence after page)
    ]
  ]

  turn_short :
      (fuel : ℕ) (view : AdmissionView) (after : ℕ) (page : List AcceptedRecord)
      (u : TranscriptState)
      → ltb (length page) 1000 ≡ true
      → turn fuel view after page (ok u) ≡ some (ok u)
  turn_short fuel view after page u h = rw (h, turn) refl

  turn_full :
      (fuel : ℕ) (view : AdmissionView) (after : ℕ) (page : List AcceptedRecord)
      (u : TranscriptState)
      → ltb (length page) 1000 ≡ false
      → turn fuel view after page (ok u) ≡ pages fuel view u (last_sequence after page)
  turn_full fuel view after page u h = rw (h, turn) refl

  pages-turn :
      (fuel : ℕ) (m : Store) (key : ChannelKey) (t : Transcript) (s : TranscriptState) (after : ℕ)
      → pages (suc fuel) (admission_view m key t) s after
        ≡ turn fuel
            (admission_view m key t)
            after
            (take 1000 (drop after t.records))
            (fold s (take 1000 (drop after t.records)))
  unfolding read_pages view_read
  pages-turn fuel m key t s after =
      ap (λ page. turn fuel (admission_view m key t) after page (fold s page))
        (window-take-drop t.records after 1000)

  -- The loop from `after` on folds over what follows.
  pages-drop :
      (fuel : ℕ) (m : Store) (key : ChannelKey) (t : Transcript) (s : TranscriptState) (after : ℕ)
      → Counted 0 t.records
      → after ≤ length t.records
      → length t.records - after < fuel * 1000
      → pages fuel (admission_view m key t) s after ≡ some (fold s (drop after t.records))
  unfolding replay_all
  pages-drop zero m key t s after c h room = absurd (omega arith)
  pages-drop (suc fuel) m key t s after c h room =
      let page = take 1000 (drop after t.records) in
      let rest = drop (after + 1000) t.records in
      let view = admission_view m key t in
      let whole : drop after t.records ≡ page ++ rest =
        sym (take-append-drop 1000 (drop after t.records))
        ∙ ap (λ x. page ++ x) (sym (drop-add after 1000 t.records)) in
      let both = ap (fold s) whole ∙ replay_all-append s page rest in
      let many = length-take 1000 (drop after t.records) in
      let left = length-drop after t.records in
      pages-turn fuel m key t s after ∙ elim (Result-cases (fold s page)) [
        | inl (e, p) ↦
            ap (turn fuel view after page) p ∙ some_ap (sym (both ∙ ap (then_fold rest) p))
        | inr (u, p) ↦
            ap (turn fuel view after page) p
            ∙ (elim (Bool-cases (ltb (length page) 1000)) [
              | inl b ↦
                  let ended =
                    drop-all (after + 1000) t.records
                      (omega (arith, many, left, ltb→lt (length page) 1000 b)) in
                  turn_short fuel view after page u b ∙ some_ap (sym (ap (fold u) ended))
              | inr b ↦
                  let full = not_ltb→le (length page) 1000 b in
                  let next : last_sequence after page ≡ after + 1000 =
                    last_sequence-take 1000 after (drop after t.records) (omega (arith, many, left))
                      (drop-Counted after 0 after t.records h (omega arith) c) in
                  turn_full fuel view after page u b
                  ∙ (ap (pages fuel view u) next
                      ∙ pages-drop fuel m key t u (after + 1000) c (omega (arith, many, left))
                          (omega arith))
            ]
                ∙ some_ap (sym (both ∙ ap (then_fold rest) p)))
      ]

  -- Against the view of a transcript that any history of the store in memory leaves, with fuel for more
  -- records than it has, at 1000 a page, Validate ends, and decides by the fold over the whole
  -- transcript: it judges the candidate in the state that all the records, in order, lead to.
  pub validate-transcript :
      (cs : List Call) (key : ChannelKey) (t : Transcript) (fuel : ℕ) (candidate participant : Text)
      → lookup key (run sha256 new cs).transcripts ≡ some t
      → length t.records < fuel * 1000
      → is_empty participant ≡ false
      → validate sha256 canonical_evidence canonical_boundary parse receipt_participant fuel
          (some (admission_view (run sha256 new cs) key t))
          candidate
          participant
        ≡ some (
            judge sha256 canonical_evidence canonical_boundary parse receipt_participant
              (replay_all sha256 canonical_evidence canonical_boundary parse receipt_participant
                empty_state t.records)
              candidate
              participant)
  unfolding validate
  validate-transcript cs key t fuel candidate participant found room named =
      let counted =
        get_elem?-Counted 0 t.records (λ i r at.
          omega (arith, (run-records-Placed sha256 cs key t i r found at).sequence_is)) in
      let folds =
        pages-drop fuel (run sha256 new cs) key t empty_state 0 counted (omega arith)
          (omega arith) in
      rw named (rw (folds, validate) refl)
