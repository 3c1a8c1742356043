-- ===== src/Protocol/Examples.antt =====
-- An instance of the round trip of committed records.
use syncons.Base.{pos, ◌≡◌, some, none, [], ◌∷◌}
use syncons.Protocol.{CommittedRoundRecord}
use syncons.Protocol.Records.{to_snapshot, from_snapshot, from_snapshot-to_snapshot}

abbrev third_round : CommittedRoundRecord
third_round = record {
  round = pos 3;
  membership_epoch = 0;
  commit_set = 5;
  proposals = (0, "0_3") ∷ (2, "2_3") ∷ [];
  commit_time_ns = some 20_000;
  app_delivery_time_ns = none;
}

from_snapshot-to_snapshot_example : from_snapshot (to_snapshot third_round) ≡ some third_round
from_snapshot-to_snapshot_example = from_snapshot-to_snapshot third_round
