-- ===== src/LeaseStore/World.antt =====
-- The lease store together with the handles that its clients keep. The mutex makes each method one
-- step, so a history of the system is a list of calls.
use yukh_coordination.Base.{
  ℕ, none, some, List, [], ◌∷◌, nat_eq, Text, Map, lookup, insert, Result, ok, err,
}
use yukh_coordination.Time.{Time}
use yukh_coordination.Coordination.{NonceValue, LeaseValue, LeaseResumeValue}
use yukh_coordination.LeaseStore.{Store, Lease, consume, acquire, resume, renew, release}

-- `handles` maps addresses to handles.
pub record World : Type 0 where
  pub store : Store
  pub handles : Map ℕ Lease

pub data Call : Type 0 where
  consumes : Text → NonceValue → Time → Call
  acquires : ℕ → Text → LeaseValue → Time → Time → Call
  resumes : ℕ → Text → LeaseResumeValue → Time → Call
  renews : ℕ → Time → Time → Call
  releases : ℕ → Call

-- A new handle is written at its address; a refused call makes none.
abbrev pub keep : {E : Type 0} → ℕ → Result E Lease → Map ℕ Lease → Map ℕ Lease
keep at (ok h) hs = insert at h hs
keep at (err e) hs = hs

unfoldable pub perform : World → Call → World
perform w (consumes key value now) = record w { store = (consume w.store key value now).0 }
perform w (acquires at key value now later) =
    let (s, r) = acquire w.store key value now later in
    record { store = s; handles = keep at r w.handles }
perform w (resumes at key value now) = record w {
  handles = keep at (resume w.store key value now) w.handles;
}
perform w (renews at expires now) = elim (lookup at w.handles) [
  | none ↦ w
  | some h ↦
      let (s, h', r) = renew w.store h expires now in
      record { store = s; handles = insert at h' w.handles }
]
perform w (releases at) = elim (lookup at w.handles) [
  | none ↦ w
  | some h ↦
      let (s, h', r) = release w.store h in record { store = s; handles = insert at h' w.handles }
]

unfoldable pub run : World → List Call → World
run w [] = w
run w (c ∷ cs) = run (perform w c) cs
