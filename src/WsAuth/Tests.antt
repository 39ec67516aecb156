-- ===== src/WsAuth/Tests.antt =====
-- Frames and bursts at concrete inputs.
use world_infra.Prelude.{
  ℕ, ◌≡◌, refl, ◌≤◌, count, true, false, Option, some, [], ◌∷◌, ok, arith, List,
}
use world_infra.Text.{
  Text, codes, byte_length, trim, trim_start, is_control, is_whitespace, is_ascii_alphanumeric,
}
use world_infra.AuthPrimitives.Bearer.{
  BearerCredential, parse_bearer_authorization, bearer_of, split_two, is_bearer_token_byte,
}
use world_infra.WsAuth.{
  RawInitialAuthFrame, default_config, parse_initial_auth_text, accept_frame, valid_ws_token,
  bearer_header_from_ws_token, new_control_limit,
}
use world_infra.WsAuth.Frames.{parse_initial_auth_text-IsBounded}
use world_infra.WsAuth.Limiter.{
  verdicts, ideal_verdicts, may_pass, is_recent, passed, in_window, verdicts-ideal_verdicts,
  verdicts-IsBounded,
}

-- A parser that knows one frame.
abbrev raw : RawInitialAuthFrame
raw = record { message_type = some (codes "auth"); token = some (codes "abc") }

abbrev from_json : Text → Option RawInitialAuthFrame
from_json text = some raw

parse_initial_auth_text-IsBounded_example :
    (found : RawInitialAuthFrame) × (byte_length (codes "{}") ≤ 4096)
    × (some raw ≡ some found)
    × (found.message_type ≡ some (codes "auth"))
    × (found.token ≡ some (codes "abc"))
    × (credential : BearerCredential) × (parse_bearer_authorization
          (some (bearer_header_from_ws_token (codes "abc")))
        ≡ ok credential)
unfolding parse_initial_auth_text accept_frame valid_ws_token parse_bearer_authorization bearer_of
    split_two is_bearer_token_byte trim trim_start is_control is_whitespace is_ascii_alphanumeric
parse_initial_auth_text-IsBounded_example =
    parse_initial_auth_text-IsBounded from_json (codes "{}") default_config
      (record { token = codes "abc" }) refl

abbrev burst : List ℕ
burst = 10 ∷ 12 ∷ 19 ∷ 20 ∷ 30 ∷ []

verdicts-ideal_verdicts_example :
    verdicts (new_control_limit 2 10) burst ≡ true ∷ true ∷ false ∷ true ∷ true ∷ []
unfolding ideal_verdicts may_pass is_recent
verdicts-ideal_verdicts_example =
    verdicts-ideal_verdicts 2 10 5 burst
      (omega arith, (omega arith, (omega arith, (omega arith, (omega arith, tt)))))

verdicts-IsBounded_example :
    count (in_window 10 12) (passed (verdicts (new_control_limit 2 10) burst) burst) ≤ 2
verdicts-IsBounded_example =
    verdicts-IsBounded 2 10 5 burst 12
      (omega arith, (omega arith, (omega arith, (omega arith, (omega arith, tt)))))
