-- ===== src/Primitives/Acquired.antt =====
-- internal/primitives/service.go: Inspect of the capability that Acquire returns.
use yukh_coordination.Base.{nat_eq, text_eq}
use yukh_coordination.Time.{Time}
use yukh_coordination.LeaseStore as LeaseStore
