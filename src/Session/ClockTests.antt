-- ===== src/Session/ClockTests.antt =====
-- The clock of grants on concrete calls, with a clock of Redis that goes back.
use nyauth.Common.{
  ℕ, ◌<◌, ◌≡◌, refl, ap, Bool, true, false, List, [], ◌∷◌, String, str_eq, str_eq_iff, str_eq_refl,
}
use nyauth.Redis.{Redis, delivered, reply_lost}
use nyauth.Redis.Memory.{KeyTest, Entry, find, remove, memory}
use nyauth.Session.Codes.{ok}
use nyauth.Session.Clock.{
  ClockKey, clock_key, revocation_key, next_micros, issue_time_script, revoke_script,
  authorization_issue_time, revoke_user_client_authorization, is_user_client_authorization_revoked,
  GrantEvent, issues, grant_step, grant_run,
}
use nyauth.Session.Revoked.{issued_before, issued_after}

abbrev pub same_key : ClockKey → ClockKey → Bool
same_key (clock_key a) (clock_key b) = str_eq a b
same_key (clock_key a) (revocation_key b) = false
same_key (revocation_key a) (clock_key b) = false
same_key (revocation_key a) (revocation_key b) = str_eq a b

pub same_key_sound : (k l : ClockKey) → same_key k l ≡ true → k ≡ l
same_key_sound (clock_key a) (clock_key b) h = ap clock_key ((str_eq_iff a b).0 h)
same_key_sound (clock_key a) (revocation_key b) h = cc
same_key_sound (revocation_key a) (clock_key b) h = cc
same_key_sound (revocation_key a) (revocation_key b) h = ap revocation_key ((str_eq_iff a b).0 h)

pub same_key_reflexive : (k : ClockKey) → same_key k k ≡ true
same_key_reflexive (clock_key a) = str_eq_refl a
same_key_reflexive (revocation_key a) = str_eq_refl a

abbrev pub keys : KeyTest ClockKey
keys = record { same = same_key; sound = same_key_sound; reflexive = same_key_reflexive }

abbrev pub Clocks : Type 0
Clocks = List (Entry ClockKey ℕ)

abbrev pub server : Redis ClockKey ℕ Clocks
server = memory keys

abbrev pair : String → String → String
pair user client = user

abbrev entry : ClockKey → ℕ → Entry ClockKey ℕ
entry k t = record { key = k; value = t; ttl = 60000 }

abbrev issued : Clocks
issued = entry (clock_key "alice") 100 ∷ []

abbrev others : List GrantEvent
others = issues reply_lost "alice" "app" 60000 30 ∷ []

abbrev revoked : Clocks
revoked = entry (revocation_key "alice") 102 ∷ entry (clock_key "alice") 102 ∷ []

first_issue :
    authorization_issue_time server pair delivered "alice" "app" 60000 100 [] ≡ (issued, ok 100)
unfolding authorization_issue_time issue_time_script next_micros memory find remove str_eq
first_issue = refl

revocation :
    revoke_user_client_authorization server pair delivered "alice" "app" 60000 50
      (grant_run server pair others issued)
    ≡ (revoked, ok 102)
unfolding revoke_user_client_authorization revoke_script grant_run grant_step
    authorization_issue_time issue_time_script next_micros memory find remove str_eq
revocation = refl

issued_before_example :
    (100 < 102)
    × (is_user_client_authorization_revoked server pair delivered "alice" "app" 100
          (grant_run server pair others revoked)
        ≡ ok true)
issued_before_example =
    issued_before server pair "alice" "app" delivered 60000 100 [] others delivered 60000 50 others
      first_issue revocation

abbrev revoked_first : Clocks
revoked_first = entry (revocation_key "alice") 50 ∷ entry (clock_key "alice") 50 ∷ []

abbrev reissued : Clocks
reissued = entry (clock_key "alice") 52 ∷ entry (revocation_key "alice") 50 ∷ []

first_revocation :
    revoke_user_client_authorization server pair delivered "alice" "app" 60000 50 []
    ≡ (revoked_first, ok 50)
unfolding revoke_user_client_authorization revoke_script next_micros memory find remove str_eq
first_revocation = refl

second_issue :
    authorization_issue_time server pair delivered "alice" "app" 60000 20
      (grant_run server pair others revoked_first)
    ≡ (reissued, ok 52)
unfolding grant_run grant_step authorization_issue_time issue_time_script next_micros memory find
    remove str_eq
second_issue = refl

issued_after_example :
    (50 < 52)
    × (is_user_client_authorization_revoked server pair delivered "alice" "app" 52
          (grant_run server pair others reissued)
        ≡ ok false)
issued_after_example =
    issued_after server pair "alice" "app" delivered 60000 50 [] others delivered 60000 20 others
      first_revocation (tt, tt) second_issue (tt, tt)
