-- ===== src/AuthPrimitives/Claims.antt =====
-- crates/auth-primitives/src/lib.rs: the shapes of claims and the freshness of session versions.
use world_infra.Prelude.{
  ◌≡◌, refl, ◌↔◌, ◌⊎◌, inr, Bool, true, false, ◌&&◌, Option, none, some, is_some, ltb, ◌==◌, arith,
  if◌then◌else◌, ok,
}
use world_infra.Text.{Text, trim}
use world_infra.Text.Laws.{text_eq→eq}
use world_infra.Text.Scan.{to_ascii_lowercase}
use world_infra.AuthPrimitives.{
  TokenType, access, refresh, impersonation, exchange, impersonation_exchange, SessionVersion,
  ActorId, Audience, requires_actor_session_version, token_accepted_as_bearer, as_str,
  token_type_from_str, token_type_of,
}

unfoldable pub bool_eq : Bool → Bool → Bool
bool_eq true b = b
bool_eq false true = false
bool_eq false false = true

pub record AuthClaimShape : Type 0 where
  pub token_type : TokenType
  pub audience : Audience
  pub session_version : SessionVersion
  pub actor_session_version : Option SessionVersion

unfoldable pub is_consistent : AuthClaimShape → Bool
is_consistent claim =
    bool_eq (requires_actor_session_version claim.token_type) (is_some claim.actor_session_version)

unfoldable pub is_consistent_with_actor : AuthClaimShape → Option ActorId → Bool
is_consistent_with_actor claim actor_id =
    let requires_actor = requires_actor_session_version claim.token_type in
    bool_eq requires_actor (is_some claim.actor_session_version)
    && bool_eq requires_actor (is_some actor_id)

unfoldable pub accepted_as_bearer : AuthClaimShape → Bool
accepted_as_bearer claim = token_accepted_as_bearer claim.token_type && is_consistent claim

unfoldable pub accepted_as_bearer_with_actor : AuthClaimShape → Option ActorId → Bool
accepted_as_bearer_with_actor claim actor_id =
    token_accepted_as_bearer claim.token_type && is_consistent_with_actor claim actor_id

pub record ImpersonationClaimShape : Type 0 where
  pub token_type : TokenType
  pub actor_id : Option ActorId
  pub actor_session_version : Option SessionVersion

unfoldable pub new_impersonation_claim :
    TokenType → Option ActorId → Option SessionVersion → ImpersonationClaimShape
new_impersonation_claim token_type actor_id actor_session_version = record {
  token_type = token_type;
  actor_id = actor_id;
  actor_session_version = actor_session_version;
}

unfoldable pub impersonation_is_consistent : ImpersonationClaimShape → Bool
impersonation_is_consistent claim =
    let requires_actor = requires_actor_session_version claim.token_type in
    bool_eq requires_actor (is_some claim.actor_id)
    && bool_eq requires_actor (is_some claim.actor_session_version)

token_type_of-ok : (other : Text) (t : TokenType) → token_type_of other ≡ ok t → other ≡ as_str t
unfolding token_type_of
token_type_of-ok other t h = ground (
  arith,
  text_eq→eq other (as_str access),
  text_eq→eq other (as_str refresh),
  text_eq→eq other (as_str impersonation),
  text_eq→eq other (as_str exchange),
  text_eq→eq other (as_str impersonation_exchange),
)

token_type_of_iff :
    (other : Text) (t : TokenType) → (token_type_of other ≡ ok t) ↔ (other ≡ as_str t)
unfolding token_type_of
token_type_of_iff other t = (token_type_of-ok other t, of_name t)
  where
    of_name : (t : TokenType) → other ≡ as_str t → token_type_of other ≡ ok t
    of_name access e = rw e refl
    of_name refresh e = rw e refl
    of_name impersonation e = rw e refl
    of_name exchange e = rw e refl
    of_name impersonation_exchange e = rw e refl

pub data SessionFreshness : Type 0 where
  current stale from_future : SessionFreshness

unfoldable pub session_freshness : SessionVersion → SessionVersion → SessionFreshness
session_freshness token_version current_version =
    if token_version.version == current_version.version
    then current
    else if ltb token_version.version current_version.version
    then stale
    else from_future

unfoldable pub session_version_is_current : SessionVersion → SessionVersion → Bool
session_version_is_current token_version current_version =
    elim (session_freshness token_version current_version) [
      | current ↦ true
      | stale ↦ false
      | from_future ↦ false
    ]

unfoldable pub actor_session_freshness : SessionVersion → SessionVersion → SessionFreshness
actor_session_freshness token_version current_version =
    session_freshness token_version current_version

unfoldable pub actor_session_version_is_current : SessionVersion → SessionVersion → Bool
actor_session_version_is_current token_version current_version =
    session_version_is_current token_version current_version

-- A text is parsed to a token type exactly when, trimmed and in lower case, it is the type's name.
token_type_from_str_iff :
    (value : Text) (t : TokenType)
    → (token_type_from_str value ≡ ok t) ↔ (to_ascii_lowercase (trim value) ≡ as_str t)
unfolding token_type_from_str
token_type_from_str_iff value t = token_type_of_iff (to_ascii_lowercase (trim value)) t

accepted_iff :
    (t : TokenType) (v : Option SessionVersion) (actor_id : Option ActorId)
    → ((token_accepted_as_bearer t
          && (bool_eq (requires_actor_session_version t) (is_some v)
              && bool_eq (requires_actor_session_version t) (is_some actor_id)))
        ≡ true)
      ↔ ((t ≡ access) × (v ≡ none) × (actor_id ≡ none)
          ⊎ (t ≡ impersonation)
            × ((w : SessionVersion) × (v ≡ some w))
            × ((a : ActorId) × (actor_id ≡ some a)))
unfolding requires_actor_session_version token_accepted_as_bearer bool_eq
accepted_iff access none none = ground arith
accepted_iff access none (some a) = ground arith
accepted_iff access (some w) b = ground arith
accepted_iff impersonation none b = ground arith
accepted_iff impersonation (some w) none = ground arith
accepted_iff impersonation (some w) (some a) = (λ h. inr (refl, (w, refl), (a, refl)), λ h. refl)
accepted_iff refresh v b = ground arith
accepted_iff exchange v b = ground arith
accepted_iff impersonation_exchange v b = ground arith

-- A claim is accepted with an actor exactly when it is an access token without an actor or an
-- impersonation token that names the actor and the version of its session.
pub accepted_as_bearer_with_actor_iff :
    (claim : AuthClaimShape) (actor_id : Option ActorId)
    → (accepted_as_bearer_with_actor claim actor_id ≡ true) ↔ (
        (claim.token_type ≡ access) × (claim.actor_session_version ≡ none) × (actor_id ≡ none)
        ⊎ (claim.token_type ≡ impersonation)
          × ((v : SessionVersion) × (claim.actor_session_version ≡ some v))
          × ((a : ActorId) × (actor_id ≡ some a)))
unfolding accepted_as_bearer_with_actor is_consistent_with_actor
accepted_as_bearer_with_actor_iff claim actor_id =
    accepted_iff claim.token_type claim.actor_session_version actor_id
