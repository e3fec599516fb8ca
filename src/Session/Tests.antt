-- ===== src/Session/Tests.antt =====
-- Authorization codes and consents on concrete records.
use nyauth.Common.{
  ◌≡◌, refl, ap, Bool, true, false, List, [], ◌∷◌, some, arith, String, str_eq, str_eq_iff,
  str_eq_refl,
}
use nyauth.Redis.{Redis, delivered, reply_lost}
use nyauth.Redis.Memory.{KeyTest, Entry, find, remove, memory}
use nyauth.Session.{
  AuthorizationData, Key, code_key, code_used_key, consent_key, Value, authorization_value,
  consume_matching_value, consume_matching_script,
}
use nyauth.Session.Codes.{
  ok, consume_authorization_code_if_match, consume_authorization_code, get_authorization_code,
  save_authorization_code,
}
use nyauth.Session.Consents.{consume_consent_for_user}
use nyauth.Session.Events.{Event, consumes_match, consumes_for_user, passes, run}
use nyauth.Session.Once.{Refuses, ShowsSpent, code_consumed_once, code_lookup_after}
use nyauth.Session.Owners.{
  TakenByUser, consume_consent_for_user-TakenByUser, Saved, save_authorization_code-Saved,
}

abbrev pub same_key : Key → Key → Bool
same_key (code_key a) (code_key b) = str_eq a b
same_key (code_key a) (code_used_key b) = false
same_key (code_key a) (consent_key b) = false
same_key (code_used_key a) (code_key b) = false
same_key (code_used_key a) (code_used_key b) = str_eq a b
same_key (code_used_key a) (consent_key b) = false
same_key (consent_key a) (code_key b) = false
same_key (consent_key a) (code_used_key b) = false
same_key (consent_key a) (consent_key b) = str_eq a b

pub same_key_sound : (k l : Key) → same_key k l ≡ true → k ≡ l
same_key_sound (code_key a) (code_key b) h = ap code_key ((str_eq_iff a b).0 h)
same_key_sound (code_key a) (code_used_key b) h = cc
same_key_sound (code_key a) (consent_key b) h = cc
same_key_sound (code_used_key a) (code_key b) h = cc
same_key_sound (code_used_key a) (code_used_key b) h = ap code_used_key ((str_eq_iff a b).0 h)
same_key_sound (code_used_key a) (consent_key b) h = cc
same_key_sound (consent_key a) (code_key b) h = cc
same_key_sound (consent_key a) (code_used_key b) h = cc
same_key_sound (consent_key a) (consent_key b) h = ap consent_key ((str_eq_iff a b).0 h)

pub same_key_reflexive : (k : Key) → same_key k k ≡ true
same_key_reflexive (code_key a) = str_eq_refl a
same_key_reflexive (code_used_key a) = str_eq_refl a
same_key_reflexive (consent_key a) = str_eq_refl a

abbrev pub keys : KeyTest Key
keys = record { same = same_key; sound = same_key_sound; reflexive = same_key_reflexive }

abbrev pub Keyspace : Type 0
Keyspace = List (Entry Key Value)

abbrev pub server : Redis Key Value Keyspace
server = memory keys

abbrev digest : String → String
digest s = s

abbrev grant : AuthorizationData
grant = record {
  record_version = "v1";
  client_id = "app";
  user_id = "alice";
  redirect_uri = "https://app/cb";
  scopes = "openid" ∷ [];
  allowed_claims = [];
  claim_names_set = true;
  code_challenge = "";
  challenge_method = "S256";
  nonce = "";
  auth_version = 1;
  authentication_context = "";
  authentication_methods = [];
  authentication_time = 0;
  authorization_issued_at = 7;
  client_authorization_revision = 1;
}

abbrev issued : Keyspace
issued = record { key = code_key "c"; value = authorization_value grant; ttl = 60000 } ∷ []

abbrev exchanged : Keyspace
exchanged = record { key = code_used_key "c"; value = authorization_value grant; ttl = 5000 } ∷ []

exchange :
    consume_authorization_code_if_match server digest delivered "c" "v1" 5000 issued
    ≡ (exchanged, ok grant)
unfolding consume_authorization_code_if_match consume_matching_script consume_matching_value memory
    find remove str_eq
exchange = refl

abbrev replays : List Event
replays =
    consumes_match reply_lost "c" "v1" 5000
    ∷ passes 1000
    ∷ consumes_for_user delivered "x" "bob"
    ∷ []

code_consumed_once_example :
    Refuses grant "v1"
      (consume_authorization_code_if_match server digest delivered "c" "v1" 5000
        (run server digest replays exchanged)).1
    × Refuses grant "v1"
        (consume_authorization_code server digest delivered "c"
          (run server digest replays exchanged)).1
code_consumed_once_example =
    code_consumed_once server digest delivered "c" "v1" 5000 issued replays delivered "v1" 5000
      exchange (tt, (tt, (tt, tt)))

code_lookup_after_example : ShowsSpent grant (
    get_authorization_code server digest delivered delivered "c"
      (run server digest replays exchanged))
code_lookup_after_example =
    code_lookup_after server digest delivered "c" "v1" 5000 issued replays delivered delivered
      exchange (tt, (tt, (tt, tt)))

consume_consent_for_user-TakenByUser_example :
    TakenByUser server
      (consent_key "x")
      "bob"
      issued
      (consume_consent_for_user server digest delivered "x" "bob" issued)
consume_consent_for_user-TakenByUser_example =
    consume_consent_for_user-TakenByUser server digest delivered "x" "bob" issued

v1_named : str_eq "v1" "" ≡ false
unfolding str_eq
v1_named = refl

save_authorization_code-Saved_example :
    Saved server digest "c" grant 5000
      (save_authorization_code server digest delivered (some "v1") "c" grant 60000 [])
save_authorization_code-Saved_example =
    save_authorization_code-Saved server digest delivered "v1" "c" grant 60000 5000 [] v1_named
      (omega arith)
