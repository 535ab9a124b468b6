-- ===== src/Application/Pages.antt =====
-- internal/relay/service/application.go: what the pages of Replay hold.
use yukh_coordination.Base.{
  ℕ, zero, suc, ◌+◌, ◌≤◌, ◌≡◌, refl, inl, inr, false, ◌||◌, Option, none, some, List, [], ◌∷◌, ◌!=◌,
  nat_eq, text_eq, Text, ok, length, get_elem?, arith, Bool-cases, Result-cases, lookup,
}
use yukh_coordination.Relay.{AcceptedRecord, Channel, is_empty}
use yukh_coordination.Relay.{channel_key_eq, ChannelKey}
use yukh_coordination.Relay.Memory.{Transcript, window, new}
use yukh_coordination.Relay.Memory.Windows.{get_elem?-window}
use yukh_coordination.Relay.Memory.History.{Call, run}
use yukh_coordination.Relay.Memory.Invariant.{run-records-Placed}
use yukh_coordination.Application.{Codec, canonical_record, page_loop, build_page}

module _ (sha256 : Text → Text) (codec : Codec) where
  -- The texts are those of the first records, which follow `after` without a gap; the page is complete
  -- where they are all of the records, and the boundary is otherwise the next sequence.
  pub record IsPage (after : ℕ) (records : List AcceptedRecord) (texts : List Text) (last : ℕ)
      (boundary : Option ℕ) : Type 0 where
    pub high_water : last ≡ after + length texts
    pub first_of : length texts ≤ length records
    pub complete : boundary ≡ none → length texts ≡ length records
    pub incomplete : (b : ℕ) → boundary ≡ some b → b ≡ last + 1
    pub in_order :
        (i : ℕ) (x : Text)
        → get_elem? texts i ≡ some x
        → (r : AcceptedRecord) × (get_elem? records i ≡ some r)
          × (r.sequence ≡ after + i + 1)
          × (is_empty r.signature ≡ false)
          × (canonical_record sha256 codec r ≡ ok x)

  stop-IsPage :
      (after : ℕ) (records : List AcceptedRecord) → IsPage after records [] after (some (after + 1))
  stop-IsPage after records = record {
    high_water = omega arith;
    first_of = omega arith;
    complete = λ h. absurd (cc);
    incomplete = λ b h. ground (arith, h);
    in_order = λ i x h. absurd (cc);
  }

  more-IsPage :
      (after : ℕ) (r : AcceptedRecord) (records : List AcceptedRecord) (x : Text)
      (texts : List Text) (last : ℕ) (boundary : Option ℕ)
      → r.sequence ≡ after + 1
      → is_empty r.signature ≡ false
      → canonical_record sha256 codec r ≡ ok x
      → IsPage r.sequence records texts last boundary
      → IsPage after (r ∷ records) (x ∷ texts) last boundary
  more-IsPage after r records x texts last boundary next signed encoded w = record {
    high_water = omega (arith, w.high_water, next);
    first_of = omega (arith, w.first_of);
    complete = λ h. omega (arith, w.complete h);
    incomplete = λ b h. w.incomplete b h;
    in_order = at;
  }
    where
      at :
          (i : ℕ) (y : Text)
          → get_elem? (x ∷ texts) i ≡ some y
          → (q : AcceptedRecord) × (get_elem? (r ∷ records) i ≡ some q)
            × (q.sequence ≡ after + i + 1)
            × (is_empty q.signature ≡ false)
            × (canonical_record sha256 codec q ≡ ok y)
      at zero y h = (r, refl, omega (arith, next), signed, ground (arith, encoded, h))
      at (suc i) y h =
          let (q, found, number, s, e) = w.in_order i y h in
          (q, found, omega (arith, number, next), s, e)

  page_loop-IsPage :
      (after : ℕ) (records : List AcceptedRecord)
      → let (texts, last, boundary) = page_loop sha256 codec after records in
        IsPage after records texts last boundary
  unfolding page_loop
  page_loop-IsPage after [] = record {
    high_water = omega arith;
    first_of = omega arith;
    complete = λ h. refl;
    incomplete = λ b h. absurd (cc);
    in_order = λ i x h. absurd (cc);
  }
  page_loop-IsPage after (r ∷ rs) =
      elim (Bool-cases (r.sequence != after + 1 || is_empty r.signature)) [
        | inl b ↦ rw (b, page_loop) (stop-IsPage after (r ∷ rs))
        | inr b ↦ elim (Result-cases (canonical_record sha256 codec r)) [
          | inl (e, c) ↦ rw (b, page_loop) (rw c (stop-IsPage after (r ∷ rs)))
          | inr (x, c) ↦
              let (texts, last, boundary) = page_loop sha256 codec r.sequence rs in
              rw (b, page_loop)
                (rw c (
                  more-IsPage after r rs x texts last boundary (ground (arith, b))
                    (ground (arith, b)) c (page_loop-IsPage r.sequence rs)))
        ]
      ]

  -- A page holds the canonical forms of the first records that were read, in order; they are signed and
  -- follow `after` without a gap up to the high-water mark. It is complete only if these are all the
  -- records, and its boundary is otherwise the sequence after the high-water mark.
  pub build_page-IsPage :
      (channel : Channel) (epoch after : ℕ) (records : List AcceptedRecord)
      → let page = build_page sha256 codec channel epoch after records in
        IsPage after records page.records page.high_water_sequence page.boundary
  unfolding build_page
  build_page-IsPage channel epoch after records = page_loop-IsPage after records

module _ (sha256 : Text → Text) (codec : Codec) where
  page_loop_complete :
      (after : ℕ) (records : List AcceptedRecord)
      → ((i : ℕ) (r : AcceptedRecord)
          → get_elem? records i ≡ some r
          → (r.sequence ≡ after + i + 1)
            × (is_empty r.signature ≡ false)
            × (x : Text) × (canonical_record sha256 codec r ≡ ok x))
      → (page_loop sha256 codec after records).2 ≡ none
  unfolding page_loop
  page_loop_complete after [] good = refl
  page_loop_complete after (r ∷ rs) good =
      let (next, signed, x, encoded) = good 0 r refl in
      let number : r.sequence ≡ after + 1 = omega (arith, next) in
      let passes : (r.sequence != after + 1 || is_empty r.signature) ≡ false =
        ground (arith, number, signed) in
      rw (passes, page_loop)
        (rw encoded (
          page_loop_complete r.sequence rs (λ i q h.
            let (number, s, y, e) = good (suc i) q h in (omega (arith, number, next), s, y, e))))

  -- Replay of a history is complete where its records can be shown: after every history of calls, if each
  -- record that a read of a transcript returns is signed and has a canonical form, the page of that read
  -- is complete.
  pub build_page-run_complete :
      (cs : List Call) (key : ChannelKey) (t : Transcript) (channel : Channel)
      (epoch after limit : ℕ)
      → lookup key (run sha256 new cs).transcripts ≡ some t
      → ((i : ℕ) (r : AcceptedRecord)
          → get_elem? (window t.records after limit) i ≡ some r
          → (is_empty r.signature ≡ false) × (x : Text) × (canonical_record sha256 codec r ≡ ok x))
      → (build_page sha256 codec channel epoch after (window t.records after limit)).boundary ≡ none
  unfolding build_page
  build_page-run_complete cs key t channel epoch after limit found shown =
      page_loop_complete after (window t.records after limit) (λ i r h.
        let (signed, x, encoded) = shown i r h in
        let placed =
          run-records-Placed sha256 cs key t (after + i) r found
            (get_elem?-window t.records after limit i r h) in
        (omega (arith, placed.sequence_is), signed, x, encoded))
