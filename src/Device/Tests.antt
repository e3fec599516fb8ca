-- ===== src/Device/Tests.antt =====
-- The device authorization store on concrete records.
use nyauth.Common.{
  ℕ, ◌≡◌, ◌≢◌, refl, ap, Bool, true, false, List, [], ◌∷◌, inl, arith, str_eq, str_eq_iff,
  str_eq_refl,
}
use nyauth.Common.Text.{Text, codes, trim_space, trim_left, is_space, len, rune_len}
use nyauth.Device.Codes.{
  random_user_code, chars_at, normalize_user_code, upper_without_separators, rune_upper,
  is_separator,
}
use nyauth.Device.Found.{create-find}
use nyauth.Redis.{Redis, delivered, reply_lost}
use nyauth.Redis.Memory.{KeyTest, Entry, find, remove, memory}
use nyauth.Device.{
  device_value, create_script, create_values, pending, Record, Key, record_key, user_code_key,
  Value, record_value, store_polled, poll_pending, poll_status, poll_value, poll_script,
  allowed_replacement, decide_stored, decide_value, decide_script, consume_value, consume_script,
}
use nyauth.Device.Store.{
  CreateInput, Attempt, Created, create, create_loop, find_pending_by_user_code, get_pending,
  authorization_pending, ok, Digests,
}
use nyauth.Device.Decisions.{
  Approval, approved_record, denied_record, poll_failed, poll_ok, run_decision, approve, deny,
  consume_approved, poll, Event, polls, passes, denies, run,
}
use nyauth.Device.Grants.{Answers, approve_then_poll, deny_then_poll, consume_once}
use nyauth.Device.Pace.{SlowsTo, too_fast}

abbrev pub same_key : Key → Key → Bool
same_key (record_key a) (record_key b) = str_eq a b
same_key (record_key a) (user_code_key b) = false
same_key (user_code_key a) (record_key b) = false
same_key (user_code_key a) (user_code_key b) = str_eq a b

pub same_key_sound : (k l : Key) → same_key k l ≡ true → k ≡ l
same_key_sound (record_key a) (record_key b) h = ap record_key ((str_eq_iff a b).0 h)
same_key_sound (record_key a) (user_code_key b) h = cc
same_key_sound (user_code_key a) (record_key b) h = cc
same_key_sound (user_code_key a) (user_code_key b) h = ap user_code_key ((str_eq_iff a b).0 h)

pub same_key_reflexive : (k : Key) → same_key k k ≡ true
same_key_reflexive (record_key a) = str_eq_refl a
same_key_reflexive (user_code_key a) = str_eq_refl a

abbrev pub keys : KeyTest Key
keys = record { same = same_key; sound = same_key_sound; reflexive = same_key_reflexive }

abbrev pub Keyspace : Type 0
Keyspace = List (Entry Key Value)

abbrev pub server : Redis Key Value Keyspace
server = memory keys

abbrev pub digests : Digests
digests = record { code_digest = λ c. c; text_digest = λ s. "user"; unicode_upper = λ c. c }

abbrev pub tv : Record
tv = record {
  record_version = "r1";
  device_id = "tv";
  user_code_digest = "user";
  client_id = "app";
  scopes = "openid" ∷ [];
  optional_scopes = [];
  scope_claims = [];
  client_identity_revision = 1;
  client_authorization_revision = 1;
  status = pending;
  created_at = 0;
  expires_at = 600000;
  interval_seconds = 5;
  next_poll_at = 5000;
  user_id = "";
  auth_version = 0;
  granted_scopes = [];
  allowed_claims = [];
  authorization_issued_at = 0;
  authentication_context = "";
  authentication_methods = [];
  authentication_time = 0;
}

abbrev pub alice : Approval
alice = record {
  user_id = "alice";
  auth_version = 1;
  scopes = "openid" ∷ [];
  claims = [];
  authorization_issued_at = 7;
  authentication_context = "";
  authentication_methods = [];
  authentication_time = 0;
}

abbrev pub holding : Record → Keyspace
holding r = record { key = record_key "tv"; value = record_value r; ttl = 600000 } ∷ []

abbrev later : List Event
later = polls reply_lost "tv" "app" 6000 ∷ denies delivered tv ∷ passes 1000 ∷ []

approved_tv :
    approve server delivered tv alice (holding tv) ≡ (holding (approved_record tv alice), ok tt)
unfolding approve run_decision decide_script decide_value decide_stored allowed_replacement memory
    find remove str_eq
approved_tv = refl

approve_then_poll_example :
    Answers
      (approved_record tv alice)
      (poll server digests delivered "tv" "app" 9000
        (run server digests later (holding (approved_record tv alice)))).1
approve_then_poll_example =
    approve_then_poll server digests delivered tv alice (holding tv) later delivered "tv" "app" 9000
      approved_tv (tt, (tt, (tt, tt))) refl

denied_tv : deny server delivered tv (holding tv) ≡ (holding (denied_record tv), ok tt)
unfolding deny run_decision decide_script decide_value decide_stored allowed_replacement memory find
    remove str_eq
denied_tv = refl

deny_then_poll_example :
    (poll server digests delivered "tv" "app" 9000
      (run server digests later (holding (denied_record tv)))).1
    ≢ poll_ok tv 5
deny_then_poll_example =
    deny_then_poll server digests delivered tv (holding tv) later delivered "tv" "app" 9000
      denied_tv (tt, (tt, (tt, tt))) refl tv 5

consumed_tv :
    consume_approved server delivered tv (holding (approved_record tv alice)) ≡ ([], ok tt)
unfolding consume_approved consume_script consume_value memory find remove str_eq
consumed_tv = refl

consume_once_example :
    consume_approved server delivered tv (run server digests later []) ≢ ([], ok tt)
consume_once_example =
    consume_once server digests delivered tv (holding (approved_record tv alice)) later delivered tv
      consumed_tv (tt, (tt, (tt, tt))) refl

abbrev polled_tv : Record
polled_tv = record tv { next_poll_at = 11000 }

first_poll :
    poll server digests delivered "tv" "app" 6000 (holding tv)
    ≡ (holding polled_tv, poll_failed authorization_pending 5)
unfolding poll poll_script poll_value poll_status poll_pending store_polled memory find remove
    str_eq
first_poll = refl

too_fast_example :
    SlowsTo 10
      (poll server digests delivered "tv" "app" 7000 (server.elapse 1000 (holding polled_tv))).1
too_fast_example =
    too_fast server digests delivered "tv" "app" 6000 (holding tv) 1000 delivered "app" 7000
      (inl first_poll) (omega arith)

abbrev tv_input : CreateInput
tv_input = record {
  client_id = "app";
  scopes = "openid" ∷ [];
  optional_scopes = [];
  scope_claims = [];
  client_identity_revision = 1;
  client_authorization_revision = 1;
  ttl = 0;
  interval = 0;
}

abbrev drawn : ℕ → Attempt
drawn i = record {
  device_code = "tv";
  left = 8 ∷ 9 ∷ 10 ∷ 11 ∷ [];
  right = 12 ∷ 13 ∷ 14 ∷ 15 ∷ [];
  version = "r1";
  random_failed = false;
  now = 0;
  network = delivered;
}

abbrev created_tv : Created
created_tv = record { device_code = "tv"; user_code = codes "BCDF-GHJK"; stored = tv }

abbrev created_keyspace : Keyspace
created_keyspace =
    record { key = user_code_key "user"; value = device_value "tv"; ttl = 600000 } ∷ holding tv

creation : create server digests tv_input false drawn [] ≡ (created_keyspace, ok created_tv)
unfolding create create_loop create_script create_values random_user_code chars_at memory find
    remove
creation = refl

abbrev typed_code : Text
typed_code = codes " bcdf ghjk"

typed_normalized :
    normalize_user_code digests.unicode_upper typed_code
    ≡ normalize_user_code digests.unicode_upper created_tv.user_code
unfolding normalize_user_code upper_without_separators rune_upper is_separator trim_space trim_left
    is_space
typed_normalized = refl

typed_length : len (normalize_user_code digests.unicode_upper typed_code) ≡ 8
unfolding normalize_user_code upper_without_separators rune_upper is_separator trim_space trim_left
    is_space len rune_len
typed_length = refl

r1_named : str_eq "r1" "" ≡ false
unfolding str_eq
r1_named = refl

create-find_example :
    (find_pending_by_user_code server digests delivered delivered typed_code 1000 created_keyspace
      ≡ ok tv)
    × (get_pending server digests delivered "tv" "r1" 1000 created_keyspace ≡ ok tv)
create-find_example =
    create-find server digests tv_input false drawn [] typed_code 1000 creation typed_normalized
      typed_length r1_named (omega arith)
