-- ===== src/HttpPrimitives.antt =====
-- crates/http-primitives/src/lib.rs: request identifiers, origins, trusted proxies and client addresses.
pub mod Addresses
pub mod Origins
pub mod ClientIp
pub mod PublicBind
mod Prefixes
mod Chains
mod TrustedProxies
mod Blocks
mod BlocksV6
mod OriginLaws
mod Tests
use world_infra.Prelude.{
  ℕ, Bool, not, ◌&&◌, ◌||◌, List, any, leb, ltb, Result, ok, err, fail_if, ◌>>=◌, ◌>>◌,
}
use world_infra.Text.{Text, byte_length, is_control, trim, is_empty}

pub data HttpPrimitiveError : Type 0 where
  empty invalid_request_id invalid_origin invalid_cidr invalid_ip : HttpPrimitiveError

pub record RequestId : Type 0 where
  pub value : Text

abbrev pub is_ascii_graphic : ℕ → Bool
is_ascii_graphic ch = leb 0x21 ch && leb ch 0x7e

-- `RequestId::new`
unfoldable pub new_request_id : Text → Result HttpPrimitiveError RequestId
new_request_id value = do
  fail_if (any is_control value) invalid_request_id
  let value = trim value
  fail_if (is_empty value) empty
  fail_if (ltb 128 (byte_length value) || any (λ ch. not (is_ascii_graphic ch)) value)
      invalid_request_id
  ok (record { value = value })
