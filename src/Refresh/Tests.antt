-- ===== src/Refresh/Tests.antt =====
-- Families of refresh tokens on concrete records.
use nyauth.Common.{
  ◌≡◌, ◌≢◌, refl, ap, Bool, true, false, List, [], ◌∷◌, String, str_eq, str_eq_iff, str_eq_refl,
}
use nyauth.Redis.{delivered, reply_lost}
use nyauth.Redis.Memory.{KeyTest, find, remove, memory}
use nyauth.Redis.Sets.{RedisSets}
use nyauth.Redis.SetMemory.{Keyspace, members_of, remove_set, remove_member, set_memory}
use nyauth.Refresh.{
  TokenData, TokenKey, refresh_key, access_key, Key, token_at, used_key, family_set, revoked_key,
  user_families, Member, token_member, family_member, Value, token_value, revoked_value,
  delete_members, drop_if_empty, revoke_family_state, revoke_family, same_token, rotate_gone,
  rotate_value, rotate_script,
}
use nyauth.Refresh.Store.{
  ok, err, refresh_token_reuse, RotationInput, valid_rotation,
  rotate_refresh_token_and_store_access, save_token_for_refresh_family,
}
use nyauth.Refresh.Family.{FamilyEvent, rotates, revokes_family, family_run}
use nyauth.Refresh.Reuse.{NotOfFamily, reuse_ends_family}

abbrev pub same_token_key : TokenKey → TokenKey → Bool
same_token_key (refresh_key a) (refresh_key b) = str_eq a b
same_token_key (refresh_key a) (access_key b) = false
same_token_key (access_key a) (refresh_key b) = false
same_token_key (access_key a) (access_key b) = str_eq a b

abbrev pub same_key : Key → Key → Bool
same_key (token_at a) (token_at b) = same_token_key a b
same_key (token_at a) (used_key b) = false
same_key (token_at a) (family_set b) = false
same_key (token_at a) (revoked_key b) = false
same_key (token_at a) (user_families b) = false
same_key (used_key a) (token_at b) = false
same_key (used_key a) (used_key b) = str_eq a b
same_key (used_key a) (family_set b) = false
same_key (used_key a) (revoked_key b) = false
same_key (used_key a) (user_families b) = false
same_key (family_set a) (token_at b) = false
same_key (family_set a) (used_key b) = false
same_key (family_set a) (family_set b) = str_eq a b
same_key (family_set a) (revoked_key b) = false
same_key (family_set a) (user_families b) = false
same_key (revoked_key a) (token_at b) = false
same_key (revoked_key a) (used_key b) = false
same_key (revoked_key a) (family_set b) = false
same_key (revoked_key a) (revoked_key b) = str_eq a b
same_key (revoked_key a) (user_families b) = false
same_key (user_families a) (token_at b) = false
same_key (user_families a) (used_key b) = false
same_key (user_families a) (family_set b) = false
same_key (user_families a) (revoked_key b) = false
same_key (user_families a) (user_families b) = str_eq a b

pub same_token_key_sound : (k l : TokenKey) → same_token_key k l ≡ true → k ≡ l
same_token_key_sound (refresh_key a) (refresh_key b) h = ap refresh_key ((str_eq_iff a b).0 h)
same_token_key_sound (refresh_key a) (access_key b) h = cc
same_token_key_sound (access_key a) (refresh_key b) h = cc
same_token_key_sound (access_key a) (access_key b) h = ap access_key ((str_eq_iff a b).0 h)

pub same_key_sound : (k l : Key) → same_key k l ≡ true → k ≡ l
same_key_sound (token_at a) (token_at b) h = ap token_at (same_token_key_sound a b h)
same_key_sound (token_at a) (used_key b) h = cc
same_key_sound (token_at a) (family_set b) h = cc
same_key_sound (token_at a) (revoked_key b) h = cc
same_key_sound (token_at a) (user_families b) h = cc
same_key_sound (used_key a) (token_at b) h = cc
same_key_sound (used_key a) (used_key b) h = ap used_key ((str_eq_iff a b).0 h)
same_key_sound (used_key a) (family_set b) h = cc
same_key_sound (used_key a) (revoked_key b) h = cc
same_key_sound (used_key a) (user_families b) h = cc
same_key_sound (family_set a) (token_at b) h = cc
same_key_sound (family_set a) (used_key b) h = cc
same_key_sound (family_set a) (family_set b) h = ap family_set ((str_eq_iff a b).0 h)
same_key_sound (family_set a) (revoked_key b) h = cc
same_key_sound (family_set a) (user_families b) h = cc
same_key_sound (revoked_key a) (token_at b) h = cc
same_key_sound (revoked_key a) (used_key b) h = cc
same_key_sound (revoked_key a) (family_set b) h = cc
same_key_sound (revoked_key a) (revoked_key b) h = ap revoked_key ((str_eq_iff a b).0 h)
same_key_sound (revoked_key a) (user_families b) h = cc
same_key_sound (user_families a) (token_at b) h = cc
same_key_sound (user_families a) (used_key b) h = cc
same_key_sound (user_families a) (family_set b) h = cc
same_key_sound (user_families a) (revoked_key b) h = cc
same_key_sound (user_families a) (user_families b) h = ap user_families ((str_eq_iff a b).0 h)

pub same_key_reflexive : (k : Key) → same_key k k ≡ true
same_key_reflexive (token_at (refresh_key a)) = str_eq_refl a
same_key_reflexive (token_at (access_key a)) = str_eq_refl a
same_key_reflexive (used_key a) = str_eq_refl a
same_key_reflexive (family_set a) = str_eq_refl a
same_key_reflexive (revoked_key a) = str_eq_refl a
same_key_reflexive (user_families a) = str_eq_refl a

abbrev pub keys : KeyTest Key
keys = record { same = same_key; sound = same_key_sound; reflexive = same_key_reflexive }

abbrev pub same_member : Member → Member → Bool
same_member (token_member a) (token_member b) = same_token_key a b
same_member (token_member a) (family_member b) = false
same_member (family_member a) (token_member b) = false
same_member (family_member a) (family_member b) = str_eq a b

abbrev pub Stored : Type 0
Stored = Keyspace Key Member Value

abbrev pub server : RedisSets Key Member Value Stored
server = set_memory keys same_member

abbrev digest : String → String
digest s = s

abbrev token : TokenData
token = record {
  client_id = "app";
  user_id = "alice";
  scopes = "openid" ∷ [];
  allowed_claims = [];
  claim_names_set = true;
  token_use = "refresh";
  auth_version = 1;
  authentication_context = "";
  authentication_methods = [];
  authentication_time = 0;
  family_id = "f";
  family_key = "f";
  user_key = "alice";
  authorization_issued_at = 7;
  client_authorization_revision = 1;
}

abbrev replay : RotationInput
replay = record {
  old_token = "r1";
  new_token = "r3";
  access_token_id = "a3";
  expected = token;
  access = token;
  refresh_ttl = 60000;
  access_ttl = 5000;
}

-- The token r1 was rotated to r2, which is the family's only member.
abbrev rotated_once : Stored
rotated_once = record {
  strings =
      record { key = used_key "r1"; value = token_value token; ttl = 60000 }
      ∷ record { key = token_at (refresh_key "r2"); value = token_value token; ttl = 60000 }
      ∷ [];
  sets =
      (family_set "f", token_member (refresh_key "r2"))
      ∷ (user_families "alice", family_member "f")
      ∷ [];
}

abbrev ended : Stored
ended = record {
  strings =
      record { key = revoked_key "f"; value = revoked_value; ttl = 60000 }
      ∷ record { key = used_key "r1"; value = token_value token; ttl = 60000 }
      ∷ [];
  sets = [];
}

reuse :
    rotate_refresh_token_and_store_access server digest delivered replay rotated_once
    ≡ (ended, err refresh_token_reuse)
unfolding rotate_refresh_token_and_store_access valid_rotation rotate_script rotate_value
    rotate_gone revoke_family revoke_family_state delete_members drop_if_empty same_token set_memory
    members_of remove_set remove_member memory find remove str_eq
reuse = refl

abbrev afterwards : List FamilyEvent
afterwards = rotates reply_lost replay ∷ revokes_family delivered "g" 1000 ∷ []

reuse_ends_family_example :
    NotOfFamily "f" (
      rotate_refresh_token_and_store_access server digest delivered replay
        (family_run server digest afterwards ended))
    × ((save_token_for_refresh_family server digest delivered "a4" token "f" 5000
          (family_run server digest afterwards ended)).1
        ≢ ok tt)
reuse_ends_family_example =
    reuse_ends_family server digest delivered replay rotated_once afterwards delivered delivered
      replay "a4" token 5000 reuse
