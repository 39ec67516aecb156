-- ===== src/AuthPrimitives/Tests.antt =====
-- Claims and headers at concrete inputs.
use world_infra.Prelude.{◌≡◌, refl, ◌↔◌, ◌⊎◌, true, Option, none, some, ◌++◌, ok}
use world_infra.Text.{codes, trim, trim_start, is_control, is_whitespace, is_ascii_alphanumeric}
use world_infra.AuthPrimitives.{SessionVersion, ActorId, access, impersonation}
use world_infra.AuthPrimitives.Claims.{
  AuthClaimShape, accepted_as_bearer_with_actor, accepted_as_bearer_with_actor_iff,
}
use world_infra.AuthPrimitives.Bearer.{
  BearerCredential, parse_bearer_authorization, bearer_of, split_two, is_bearer_token_byte,
  parse_bearer_authorization-normal,
}

abbrev support : AuthClaimShape
support = record {
  token_type = impersonation;
  audience = record { audience = codes "api" };
  session_version = record { version = 3 };
  actor_session_version = some (record { version = 1 });
}

abbrev agent : Option ActorId
agent = some (record { actor_id = codes "agent-7" })

accepted_as_bearer_with_actor_iff_example : (accepted_as_bearer_with_actor support agent ≡ true) ↔ (
    (impersonation ≡ access) × (support.actor_session_version ≡ none) × (agent ≡ none)
    ⊎ (impersonation ≡ impersonation)
      × ((v : SessionVersion) × (support.actor_session_version ≡ some v))
      × ((a : ActorId) × (agent ≡ some a)))
accepted_as_bearer_with_actor_iff_example = accepted_as_bearer_with_actor_iff support agent

abbrev credential : BearerCredential
credential = record { token = codes "abc.def" }

parse_bearer_authorization-normal_example :
    parse_bearer_authorization (some (codes "Bearer " ++ codes "abc.def")) ≡ ok credential
unfolding parse_bearer_authorization bearer_of split_two is_bearer_token_byte trim trim_start
    is_control is_whitespace is_ascii_alphanumeric
parse_bearer_authorization-normal_example =
    parse_bearer_authorization-normal (some (codes " bEARER   abc.def ")) credential refl
