-- ===== src/Node/Samples.antt =====
-- Nodes and stages that the examples share: three nodes, where node 2 has missed node 1 in round
-- zero, so that nodes 0 and 1 agree and node 2 does not.

use syncons.Base.{ℕ, zero, suc, pos, refl, inl, inr, String, [], ◌∷◌, arith}
use syncons.Protocol.{RoundStage}
use syncons.Node.{Node, new_node}
use syncons.Node.Digest.{Hashing}
use syncons.Node.Rows.Agreement.{Reports}
use syncons.Node.Boundary.Agreement.{Proposes}

-- A concrete function in the place of the hash: it grows by one letter.
abbrev pub tally : Hashing
tally = record {
  empty_log_digest = "";
  json_dumps = λ previous entry. previous;
  sha256_hexdigest = λ text. String.◌∷◌ "x" text;
}

abbrev pub payload : ℕ → ℕ → String
payload node_id round_id = "cmd"

abbrev pub node_at : ℕ → Node
unfolding new_node
node_at node_id = new_node "" node_id 3 payload

-- Round zero as all three nodes saw it but for node 2, who lacks node 1.
abbrev pub reports : ℕ → ℕ
reports zero = 7
reports (suc zero) = 7
reports _ = 5

abbrev pub full_stage : RoundStage
full_stage = record {
  round_id = pos 0;
  membership_epoch = 0;
  installed_membership = 7;
  row = 7;
  proposals = (0, "cmd") ∷ (1, "cmd") ∷ (2, "cmd") ∷ [];
  rows = (0, 7) ∷ (1, 7) ∷ (2, 5) ∷ [];
}

-- Node 1 has not heard the row of node 2.
abbrev pub partial_stage : RoundStage
partial_stage = record full_stage { rows = (1, 7) ∷ (0, 7) ∷ [] }

pub full-Reports : Reports full_stage reports
full-Reports zero = inr refl
full-Reports (suc zero) = inr refl
full-Reports (suc (suc zero)) = inr refl
full-Reports (suc (suc (suc m))) = inl (ground arith)

pub partial-Reports : Reports partial_stage reports
partial-Reports zero = inr refl
partial-Reports (suc zero) = inr refl
partial-Reports (suc (suc m)) = inl (ground arith)

abbrev pub proposal : ℕ → String
proposal m = "cmd"

pub full-Proposes : Proposes full_stage proposal
full-Proposes m v e = ground arith
