-- ===== src/Time.antt =====
-- Go's time.Time as far as the program uses it: an instant, in nanoseconds since Go's zero time,
-- and a location. Monotonic clock readings are not modelled.
use yukh_coordination.Base.{ℕ, ◌+◌, ◌%◌, Bool, true, false, ltb, ◌==◌, Eq, nat_eq, ℕ_discrete}

-- `utc` is time.UTC; any other location is a number.
pub data Location : Type 0 where
  utc : Location
  zone : ℕ → Location

pub record Time : Type 0 where
  pub instant : ℕ
  pub location : Location

unfoldable pub Time-discrete : Discrete Time
unfolding ℕ_discrete
Time-discrete = hlevel ℕ_discrete

instance abbrev pub time_eq : Eq Time
time_eq = record { dec = Time-discrete }

abbrev pub is_utc : Time → Bool
is_utc t = elim t.location [ utc ↦ true | zone _ ↦ false ]

-- `t.UTC()`, `t.Add(d)`, `t.After(u)`
abbrev pub to_utc : Time → Time
to_utc t = record t { location = utc }

abbrev pub add : Time → ℕ → Time
add t d = record t { instant = t.instant + d }

abbrev pub after : Time → Time → Bool
after t u = ltb u.instant t.instant

abbrev pub millisecond : ℕ
millisecond = 1_000_000

-- `t.Equal(t.Truncate(time.Millisecond))`: Go truncates from its zero time.
abbrev pub whole_millis : Time → Bool
whole_millis t = t.instant % millisecond == 0
