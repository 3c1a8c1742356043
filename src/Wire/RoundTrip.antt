-- ===== src/Wire/RoundTrip.antt =====
-- The header of prototype/fpga/tb/mqnic_core_pcie_us/ssr_packet.py survives encoding and decoding.
use syncons.Base.{
  ℕ, zero, suc, ◌+◌, ◌*◌, ◌/◌, ◌%◌, ◌^◌, ◌<◌, ◌≡◌, ◌∙◌, refl, ap, Bool, true, ◌&&◌, none, some,
  List, [], ◌∷◌, ◌++◌, arith, if◌then◌else◌, ltb, length, length-append, Bool-cases, inl, inr,
}
use syncons.Control.{◌>>=◌}
use syncons.Wire.{
  Bytes, ethertype, header_beat_bytes, take, drop, slice, zero_bytes, to_bytes, from_bytes_after,
  from_bytes, ConsensusHeader, encode_consensus_header, decode_consensus_header, encode_header_beat,
}

from_bytes_after-snoc :
    (v : ℕ) (bytes : Bytes) (b : ℕ)
    → from_bytes_after v (bytes ++ b ∷ []) ≡ from_bytes_after v bytes * 256 + b
from_bytes_after-snoc v [] b = refl
from_bytes_after-snoc v (c ∷ bytes) b = from_bytes_after-snoc (v * 256 + c) bytes b

pub from_bytes-to_bytes : (width v : ℕ) → v < 256 ^ width → from_bytes (to_bytes width v) ≡ v
from_bytes-to_bytes zero v h = omega arith
from_bytes-to_bytes (suc width) v h =
    from_bytes_after-snoc 0 (to_bytes width (v / 256)) (v % 256)
    ∙ rw (from_bytes-to_bytes width (v / 256) (omega arith)) (omega arith)

pub length-to_bytes : (width v : ℕ) → length (to_bytes width v) ≡ width
length-to_bytes zero v = refl
length-to_bytes (suc width) v =
    length-append (to_bytes width (v / 256)) (v % 256 ∷ [])
    ∙ rw (length-to_bytes width (v / 256)) (omega arith)

-- Every field lies in the range of its width.
abbrev pub in_range : ConsensusHeader → Bool
in_range h =
    ltb h.node_id (256 ^ 1)
    && (ltb h.row (256 ^ 1)
        && (ltb h.run_id (256 ^ 4) && (ltb h.round_id (256 ^ 8) && ltb h.payload_length (256 ^ 2))))

abbrev pub header_text : ConsensusHeader → Bytes
header_text h =
    to_bytes 1 h.node_id
    ++ to_bytes 1 h.row
    ++ to_bytes 4 h.run_id
    ++ to_bytes 8 h.round_id
    ++ to_bytes 2 h.payload_length

pub encode_consensus_header_lem :
    (h : ConsensusHeader)
    → encode_consensus_header h ≡ (if in_range h then some (header_text h) else none)
unfolding encode_consensus_header
encode_consensus_header_lem h = ground arith

abbrev fields_of : ConsensusHeader → ConsensusHeader
fields_of h = record {
  node_id = from_bytes (to_bytes 1 h.node_id);
  row = from_bytes (to_bytes 1 h.row);
  run_id = from_bytes (to_bytes 4 h.run_id);
  round_id = from_bytes (to_bytes 8 h.round_id);
  payload_length = from_bytes (to_bytes 2 h.payload_length);
}

decode_text : (h : ConsensusHeader) → decode_consensus_header (header_text h) ≡ some (fields_of h)
unfolding decode_consensus_header
decode_text h = refl

fields_same : (h : ConsensusHeader) → in_range h ≡ true → fields_of h ≡ h
fields_same h k = cc (
  from_bytes-to_bytes 1 h.node_id (ground arith),
  from_bytes-to_bytes 1 h.row (ground arith),
  from_bytes-to_bytes 4 h.run_id (ground arith),
  from_bytes-to_bytes 8 h.round_id (ground arith),
  from_bytes-to_bytes 2 h.payload_length (ground arith),
)

pub decode_header_text :
    (h : ConsensusHeader) → in_range h ≡ true → decode_consensus_header (header_text h) ≡ some h
decode_header_text h k = decode_text h ∙ ap some (fields_same h k)

-- A header whose fields lie in the ranges of their widths is encoded in 16 bytes that decode to it.
-- Any other is not encoded: struct.error.
pub decode_consensus_header-encode_consensus_header :
    (h : ConsensusHeader)
    → encode_consensus_header h >>= decode_consensus_header ≡ (if in_range h then some h else none)
decode_consensus_header-encode_consensus_header h = elim (Bool-cases (in_range h)) [
  | inl inside ↦ rw (encode_consensus_header_lem h, inside) (decode_header_text h inside)
  | inr outside ↦ rw (encode_consensus_header_lem h, outside) refl
]

length-header_text : (h : ConsensusHeader) → length (header_text h) ≡ 16
length-header_text h = refl

module _ {ℓ} {A : Type ℓ} where
  pub take-length : (xs ys : List A) → take (length xs) (xs ++ ys) ≡ xs
  take-length [] ys = refl
  take-length (x ∷ xs) ys = ap (λ zs. x ∷ zs) (take-length xs ys)

  pub drop-length : (xs ys : List A) → drop (length xs) (xs ++ ys) ≡ ys
  drop-length [] ys = refl
  drop-length (x ∷ xs) ys = drop-length xs ys

-- Two addresses of six bytes and a header in range make a beat of 64 bytes: the addresses, the
-- ethertype, the header, which decodes from bytes 14 to 30, and zeroes.
pub encode_header_beat_lem :
    (dst src : Bytes) (h : ConsensusHeader)
    → length dst ≡ 6
    → length src ≡ 6
    → in_range h ≡ true
    → (beat : Bytes) × (encode_header_beat dst src h ≡ some beat)
      × (length beat ≡ header_beat_bytes)
      × (take 6 beat ≡ dst)
      × (slice 6 12 beat ≡ src)
      × (from_bytes (slice 12 14 beat) ≡ ethertype)
      × (decode_consensus_header (slice 14 30 beat) ≡ some h)
      × (drop 30 beat ≡ zero_bytes 34)
unfolding encode_header_beat
encode_header_beat_lem (a0 ∷ a1 ∷ a2 ∷ a3 ∷ a4 ∷ a5 ∷ []) (b0 ∷ b1 ∷ b2 ∷ b3 ∷ b4 ∷ b5 ∷ []) h e f
      inside =
    (
      (a0 ∷ a1 ∷ a2 ∷ a3 ∷ a4 ∷ a5 ∷ b0 ∷ b1 ∷ b2 ∷ b3 ∷ b4 ∷ b5 ∷ to_bytes 2 ethertype)
          ++ header_text h
          ++ zero_bytes 34,
      rw (encode_consensus_header_lem h, inside) refl,
      refl,
      refl,
      refl,
      refl,
      decode_header_text h inside,
      refl,
    )
encode_header_beat_lem _ _ h e f inside = absurd (omega arith)
