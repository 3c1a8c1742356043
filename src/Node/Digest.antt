-- ===== src/Node/Digest.antt =====
-- The digest chain over committed rounds. `hashlib` and `json` are outside the repository: they
-- are the parameter of every definition that needs them.
use syncons.Base.{◌≡◌, refl, List, [], ◌∷◌, ◌++◌, String}
use syncons.Protocol.{CommittedRoundRecord}
use syncons.Protocol.Records.{DigestProjection, record_digest_projection}

-- `hashlib.sha256(b"syncons-log-empty").hexdigest()`, `json.dumps` of the two keys with sorted
-- keys, and the hexadecimal SHA-256 of a text.
pub record Hashing : Type 0 where
  pub empty_log_digest : String
  pub json_dumps : String → DigestProjection → String
  pub sha256_hexdigest : String → String

module _ (hashing : Hashing) where
  unfoldable pub extend_log_digest : String → DigestProjection → String
  extend_log_digest previous_digest entry =
      hashing.sha256_hexdigest (hashing.json_dumps previous_digest entry)

  -- The loop of `_digest_for_committed_rounds`, from the digest so far.
  pub digest_from : String → List CommittedRoundRecord → String
  digest_from digest [] = digest
  digest_from digest (entry ∷ entries) =
      digest_from (extend_log_digest digest (record_digest_projection entry)) entries

  unfoldable pub digest_for_committed_rounds : List CommittedRoundRecord → String
  unfolding digest_from
  digest_for_committed_rounds entries = digest_from hashing.empty_log_digest entries

  digest_from-append :
      (d : String) (xs ys : List CommittedRoundRecord)
      → digest_from d (xs ++ ys) ≡ digest_from (digest_from d xs) ys
  unfolding digest_from
  digest_from-append d [] ys = refl
  digest_from-append d (x ∷ xs) ys =
      digest_from-append (extend_log_digest d (record_digest_projection x)) xs ys

  -- One more entry extends the digest of the log before it.
  pub digest-append :
      (xs : List CommittedRoundRecord) (x : CommittedRoundRecord)
      → digest_for_committed_rounds (xs ++ x ∷ [])
        ≡ extend_log_digest (digest_for_committed_rounds xs) (record_digest_projection x)
  unfolding digest_for_committed_rounds digest_from
  digest-append xs x = digest_from-append hashing.empty_log_digest xs (x ∷ [])
