-- ===== src/Redis/SetMemory.antt =====
-- A keyspace in memory with strings and sets. Its sets do not expire.
use nyauth.Common.{refl, Bool, true, false, List, [], ◌∷◌, if◌then◌else◌, ◌&&◌}
use nyauth.Redis.{Redis}
use nyauth.Redis.Sets.{RedisSets}
use nyauth.Redis.Memory.{KeyTest, Entry, memory}

pub record Keyspace (K M V : Type 0) : Type 0 where
  pub strings : List (Entry K V)
  pub sets : List (K × M)

abbrev pub no_members : {M : Type 0} → List M → Bool
no_members [] = true
no_members (m ∷ ms) = false

module _ {K M : Type 0} (test : KeyTest K) (same_member : M → M → Bool) where
  unfoldable pub members_of : K → List (K × M) → List M
  members_of k [] = []
  members_of k ((l, m) ∷ ps) =
      let rest = members_of k ps in if test.same k l then m ∷ rest else rest

  unfoldable pub remove_set : K → List (K × M) → List (K × M)
  remove_set k [] = []
  remove_set k ((l, m) ∷ ps) =
      let rest = remove_set k ps in if test.same k l then rest else (l, m) ∷ rest

  unfoldable pub remove_member : K → M → List (K × M) → List (K × M)
  remove_member k m [] = []
  remove_member k m ((l, n) ∷ ps) =
      let rest = remove_member k m ps in
      if test.same k l && same_member m n then rest else (l, n) ∷ rest

module _ {K M V : Type 0} (test : KeyTest K) (same_member : M → M → Bool) where
  unfoldable pub set_memory : RedisSets K M V (Keyspace K M V)
  unfolding memory members_of remove_set remove_member
  set_memory =
      let plain : Redis K V (List (Entry K V)) = memory test in
      record {
        strings = record {
          get = λ k db. plain.get k db.strings;
          set = λ k v t db. record { strings = plain.set k v t db.strings; sets = db.sets };
          del = λ k db. record {
            strings = plain.del k db.strings;
            sets = remove_set test same_member k db.sets;
          };
          pttl = λ k db. plain.pttl k db.strings;
          elapse = λ t db. record { strings = plain.elapse t db.strings; sets = db.sets };
          get-set = λ k v t db h. plain.get-set k v t db.strings h;
          get-set_other = λ k l v t db h. plain.get-set_other k l v t db.strings h;
          get-del = λ k db. plain.get-del k db.strings;
          get-del_other = λ k l db h. plain.get-del_other k l db.strings h;
          get-elapse = λ k t db. plain.get-elapse k t db.strings;
        };
        smembers = λ k db. members_of test same_member k db.sets;
        sadd = λ k m db. record {
          strings = db.strings;
          sets = (k, m) ∷ remove_member test same_member k m db.sets;
        };
        srem = λ k m db. record {
          strings = db.strings;
          sets = remove_member test same_member k m db.sets;
        };
        is_empty_set = λ k db. no_members (members_of test same_member k db.sets);
        pexpire = λ k t db. db;
        get-sadd = λ k s m db. refl;
        get-srem = λ k s m db. refl;
        get-pexpire = λ k s t db n. refl;
      }
