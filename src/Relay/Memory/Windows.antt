-- ===== src/Relay/Memory/Windows.antt =====
-- internal/relay/memory/store.go: which records Read returns, over every history.
use yukh_coordination.Base.{
  ℕ, zero, suc, ◌+◌, ◌≡◌, refl, sym, ap, ◌∙◌, some, List, [], ◌∷◌, arith, get_elem?, take, drop,
}
use yukh_coordination.Relay.{ChannelKey, channel_key_eq, AcceptedRecord}
use yukh_coordination.Relay.Memory.{window}
use yukh_coordination.Relay.Memory.Reads.{window-take-drop}

get_elem?-drop : {A : Type 0} (n i : ℕ) (l : List A) → get_elem? (drop n l) i ≡ get_elem? l (n + i)
get_elem?-drop zero i l = ap (get_elem? l) (omega arith)
get_elem?-drop (suc n) i [] = refl
get_elem?-drop (suc n) i (x ∷ l) =
    let same : suc (n + i) ≡ suc n + i = omega arith in
    get_elem?-drop n i l ∙ ap (λ k. get_elem? (x ∷ l) k) same

get_elem?-take :
    {A : Type 0} (n i : ℕ) (l : List A) (x : A)
    → get_elem? (take n l) i ≡ some x
    → get_elem? l i ≡ some x
get_elem?-take zero i l x h = absurd (cc)
get_elem?-take (suc n) i [] x h = absurd (cc)
get_elem?-take (suc n) zero (y ∷ l) x h = h
get_elem?-take (suc n) (suc i) (y ∷ l) x h = get_elem?-take n i l x h

-- What is read after a sequence that the transcript has.
pub get_elem?-window :
    (l : List AcceptedRecord) (after limit i : ℕ) (r : AcceptedRecord)
    → get_elem? (window l after limit) i ≡ some r
    → get_elem? l (after + i) ≡ some r
get_elem?-window l after limit i r h =
    sym (get_elem?-drop after i l)
    ∙ get_elem?-take limit i (drop after l) r
        (ap (λ w. get_elem? w i) (sym (window-take-drop l after limit)) ∙ h)

-- Records of the channel `key`, whose sequences are those that follow `after`, one by one.
abbrev pub Follow : ChannelKey → ℕ → List AcceptedRecord → Type 0
Follow key after [] = Unit
Follow key after (r ∷ rs) = (r.channel ≡ key) × (r.sequence ≡ after + 1) × Follow key (after + 1) rs
