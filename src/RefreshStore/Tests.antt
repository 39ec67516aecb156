-- ===== src/RefreshStore/Tests.antt =====
-- Runs of the refresh-token store, and its theorems at concrete inputs. The digest here is a
-- stand-in: the first bytes of the token.
use world_infra.Prelude.{
  ℕ, ◌-◌, ◌≤◌, ◌^◌, ◌≡◌, ◌↔◌, refl, true, false, none, some, List, [], ◌∷◌, ok, err,
}
use world_infra.Prelude.Int.{pos}
use world_infra.Text.{
  Text, codes, trim, trim_start, is_control, is_whitespace, is_ascii_alphanumeric,
}
use world_infra.Map.{get, insert, remove, text_key}
use world_infra.Time.{instant_saturating_add, ttl_duration}
use world_infra.RefreshStore.Schema.{
  RefreshStoreError, RefreshSession, validate_token, validate_schema_part, validate_key_part,
  new_config, with_session_fields, validate_distinct_session_fields, check_distinct,
}
use world_infra.RefreshStore.{
  Entries, new, session_eq, locked_get, locked_rotate, finish_rotate, with_lock, with_key,
  hash_refresh_token, store_key, key_for_token, hex_lower, hex_digit, expiry, set_session,
  get_session, rotate, delete,
}
use world_infra.RefreshStore.Rotation.{MayRotate, locked_rotate_iff}
use world_infra.RefreshStore.SingleUse.{
  Call, gets, rotates, wins, locked_step, locked_step_of, locked_run, rotate_single_use,
  rotate_single_winner,
}

store : Unit {0}
unfolding session_eq locked_get locked_rotate finish_rotate with_lock with_key hash_refresh_token
    store_key key_for_token hex_lower hex_digit expiry set_session get_session rotate delete get
    insert remove instant_saturating_add ttl_duration validate_token validate_schema_part
    validate_key_part new_config with_session_fields validate_distinct_session_fields check_distinct
    trim trim_start is_control is_whitespace is_ascii_alphanumeric new
store = tt

abbrev end_of_time : ℕ
end_of_time = 2 ^ 63 - 1

abbrev stand_in : List ℕ → List ℕ
stand_in bytes = bytes

abbrev session : ℕ → RefreshSession
session n = record {
  subject_id = codes "u1";
  session_id = codes "s";
  issued_at_unix_secs = pos n;
  session_version = 1;
}

abbrev old_key : Text
old_key = codes "rt:v1:61"

abbrev new_key : Text
new_key = codes "rt:v1:62"

abbrev stored : Entries
stored = (old_key, record { session = session 7; expires_at = 100 }) ∷ []

key_test : key_for_token stand_in new (codes "a") ≡ ok old_key
unfolding store
key_test = refl

-- A rotation, and the replay of the old token.
rotation_test :
    let s1 = (set_session stand_in end_of_time new 5 (codes "a") (session 7) 50).0 in
    let r = rotate stand_in end_of_time s1 10 (codes "a") (codes "b") (session 7) (session 8) 50 in
    (r.1 ≡ ok true)
    × ((rotate stand_in end_of_time r.0 11 (codes "a") (codes "c") (session 7) (session 9) 50).1
        ≡ ok false)
    × ((get_session stand_in end_of_time r.0 12 (codes "a")).1 ≡ ok none)
    × ((get_session stand_in end_of_time r.0 12 (codes "b")).1 ≡ ok (some (session 8)))
    × ((get_session stand_in end_of_time r.0 60 (codes "b")).1 ≡ ok none)
unfolding store
rotation_test = (refl, refl, refl, refl, refl)

locked_rotate_iff_example :
    ((locked_rotate stored 10 99 old_key new_key (session 7) (session 8)).1 ≡ true)
    ↔ MayRotate stored 10 99 old_key new_key (session 7) (session 8)
locked_rotate_iff_example = locked_rotate_iff stored 10 99 old_key new_key (session 7) (session 8)

abbrev replay : List Call
replay =
    record { op = gets new_key; now = 12; expires_at = 12 }
    ∷ record {
      op = rotates old_key (codes "rt:v1:63") (session 7) (session 9);
      now = 11;
      expires_at = 90;
    }
    ∷ record { op = rotates old_key new_key (session 7) (session 8); now = 11; expires_at = 90 }
    ∷ []

rotate_single_use_example :
    let after =
      (locked_run
        (locked_rotate stored 10 99 old_key new_key (session 7) (session 8)).0
        replay).0 in
    ((locked_get after 20 old_key).1 ≡ none)
    × ((locked_rotate after 20 99 old_key (codes "rt:v1:64") (session 7) (session 9)).1 ≡ false)
unfolding store
rotate_single_use_example =
    rotate_single_use stored 10 99 old_key new_key (session 7) (session 8) replay 20 99
      (codes "rt:v1:64") (session 7) (session 9) refl refl (refl, (refl, (refl, tt)))

rotate_single_winner_example : wins old_key (locked_run stored replay).1 ≤ 1
rotate_single_winner_example = rotate_single_winner old_key stored replay (refl, (refl, (refl, tt)))

winner_test : wins old_key (locked_run stored replay).1 ≡ 1
unfolding store locked_run locked_step locked_step_of
winner_test = refl

duplicate_test :
    new_config (codes "rt") (codes "v1") (codes "a") (codes "b") (codes "a") (codes "c")
    ≡ err RefreshStoreError.invalid_schema_config
unfolding store
duplicate_test = refl
