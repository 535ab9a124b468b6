-- ===== src/PrimitivesHttp/Identified.antt =====
-- internal/primitiveshttp/bridge.go: the identity under which a call runs.
use yukh_coordination.Base.{◌≡◌, true, ok, arith, text_eq}
use yukh_coordination.Primitives.{
  CapabilityState, Service, is_identifier, new_identity, consume_nonce, open_capability,
}
use yukh_coordination.Primitives as Primitives
use yukh_coordination.PrimitivesAuth.{Identity, valid_identity}
use yukh_coordination.PrimitivesAuth.Identities.{identifier_pattern-is_identifier}
use yukh_coordination.PrimitivesHttp.{core_identity}

-- The identity of the service for an identity of the pipeline.
abbrev pub core_of : Identity → Primitives.Identity
core_of i = record { tenant = i.tenant; principal = i.principal }

pub core_identity-valid :
    (i : Identity) → valid_identity i ≡ true → core_identity i ≡ ok (core_of i)
unfolding core_identity new_identity valid_identity
core_identity-valid i v =
    let tenant = identifier_pattern-is_identifier i.tenant (ground (arith, v)) in
    let principal = identifier_pattern-is_identifier i.principal (ground (arith, v)) in
    ground (arith, tenant, principal)
