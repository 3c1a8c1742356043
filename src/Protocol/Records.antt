-- ===== src/Protocol/Records.antt =====
-- The methods of `CommittedRound`, `CommittedRoundRecord` and `RepairLog` of
-- sim/protocol/types.py.
use syncons.Base.{
  ℕ, ℤ, pos, negsuc, ◌≡◌, refl, Option, none, some, List, [], ◌∷◌, ◌++◌, String, Dict, str_eq,
  if◌then◌else◌,
}
use syncons.Protocol.{CommittedRound, CommittedRoundRecord}

-- The dict of `digest_projection`, the same four keys for both classes.
pub record DigestProjection : Type 0 where
  pub round : ℤ
  pub membership_epoch : ℕ
  pub commit_set : ℕ
  pub proposals : Dict String

abbrev pub digest_projection : CommittedRound → DigestProjection
digest_projection c = record {
  round = c.round;
  membership_epoch = c.membership_epoch;
  commit_set = c.commit_set;
  proposals = c.proposals;
}

abbrev pub record_digest_projection : CommittedRoundRecord → DigestProjection
record_digest_projection c = record {
  round = c.round;
  membership_epoch = c.membership_epoch;
  commit_set = c.commit_set;
  proposals = c.proposals;
}

-- `x if new is None else new`
abbrev pub replaced {ℓ} : {A : Type ℓ} → Option A → Option A → Option A
replaced old none = old
replaced old (some new) = some new

unfoldable pub with_timing : CommittedRoundRecord → Option ℕ → Option ℕ → CommittedRoundRecord
with_timing c commit_time_ns app_delivery_time_ns = record {
  round = c.round;
  membership_epoch = c.membership_epoch;
  commit_set = c.commit_set;
  proposals = c.proposals;
  commit_time_ns = replaced c.commit_time_ns commit_time_ns;
  app_delivery_time_ns = replaced c.app_delivery_time_ns app_delivery_time_ns;
}

unfoldable pub from_committed_round : CommittedRound → Option ℕ → Option ℕ → CommittedRoundRecord
from_committed_round c commit_time_ns app_delivery_time_ns = record {
  round = c.round;
  membership_epoch = c.membership_epoch;
  commit_set = c.commit_set;
  proposals = c.proposals;
  commit_time_ns = commit_time_ns;
  app_delivery_time_ns = app_delivery_time_ns;
}

-- The values of a snapshot's keys.
pub data SnapshotValue : Type 0 where
  integer : ℤ → SnapshotValue
  strings : Dict String → SnapshotValue

abbrev pub Snapshot : Type 0
Snapshot = List (String × SnapshotValue)

abbrev optional_key : String → Option ℕ → Snapshot
optional_key key none = []
optional_key key (some t) = (key, integer (pos t)) ∷ []

pub to_snapshot : CommittedRoundRecord → Snapshot
to_snapshot c =
    (("round", integer c.round)
      ∷ ("membership_epoch", integer (pos c.membership_epoch))
      ∷ ("commit_set", integer (pos c.commit_set))
      ∷ ("proposals", strings c.proposals)
      ∷ [])
    ++ (optional_key "commit_time_ns" c.commit_time_ns
        ++ optional_key "app_delivery_time_ns" c.app_delivery_time_ns)

abbrev find_key : String → Snapshot → Option SnapshotValue
find_key key [] = none
find_key key (e ∷ s) = if str_eq key e.0 then some e.1 else find_key key s

infixl 5 ◌>>=◌
abbrev ◌>>=◌ {ℓ κ} : {A : Type ℓ} {B : Type κ} → Option A → (A → Option B) → Option B
none >>= f = none
some a >>= f = f a

-- `int(snapshot[key])`; `none` is the KeyError or the TypeError
abbrev int_of : String → Snapshot → Option ℤ
int_of key s = elim (find_key key s) [
  | none ↦ none
  | some v ↦ elim v [ integer z ↦ some z | strings _ ↦ none ]
]

-- Where the record's field is a natural number, a negative one is not a value of the model.
abbrev nat_of : String → Snapshot → Option ℕ
nat_of key s = elim (int_of key s) [
  | none ↦ none
  | some z ↦ elim z [ pos n ↦ some n | negsuc _ ↦ none ]
]

abbrev strings_of : String → Snapshot → Option (Dict String)
strings_of key s = elim (find_key key s) [
  | none ↦ none
  | some v ↦ elim v [ integer _ ↦ none | strings d ↦ some d ]
]

-- `None if key not in snapshot else int(snapshot[key])`
abbrev optional_nat_of : String → Snapshot → Option (Option ℕ)
optional_nat_of key s = elim (find_key key s) [
  | none ↦ some none
  | some _ ↦ elim (nat_of key s) [ none ↦ none | some n ↦ some (some n) ]
]

pub from_snapshot : Snapshot → Option CommittedRoundRecord
from_snapshot s = do
  round ← int_of "round" s
  membership_epoch ← nat_of "membership_epoch" s
  commit_set ← nat_of "commit_set" s
  proposals ← strings_of "proposals" s
  commit_time_ns ← optional_nat_of "commit_time_ns" s
  app_delivery_time_ns ← optional_nat_of "app_delivery_time_ns" s
  some (record {
    round = round;
    membership_epoch = membership_epoch;
    commit_set = commit_set;
    proposals = proposals;
    commit_time_ns = commit_time_ns;
    app_delivery_time_ns = app_delivery_time_ns;
  })

from_times :
    (c : CommittedRoundRecord) (t u : Option ℕ)
    → from_snapshot (to_snapshot (record c { commit_time_ns = t; app_delivery_time_ns = u }))
      ≡ some (record c { commit_time_ns = t; app_delivery_time_ns = u })
unfolding to_snapshot from_snapshot
from_times c none none = refl
from_times c none (some u) = refl
from_times c (some t) none = refl
from_times c (some t) (some u) = refl

-- A record that is written to a snapshot, with both, one or none of its times, is read back as
-- it was.
pub from_snapshot-to_snapshot : (c : CommittedRoundRecord) → from_snapshot (to_snapshot c) ≡ some c
from_snapshot-to_snapshot c = from_times c c.commit_time_ns c.app_delivery_time_ns
