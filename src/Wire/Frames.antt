-- ===== src/Wire/Frames.antt =====
-- Frames of SSRPacketCodec and the packets of the harness, in
-- prototype/fpga/tb/mqnic_core_pcie_us/ssr_sim_harness.py.
use syncons.Base.{
  ℕ, zero, suc, ◌+◌, ◌-◌, ◌≤◌, ◌≡◌, refl, sym, ap, subst, ◌∙◌, inl, inr, true, none, some, List, [],
  ◌∷◌, ◌++◌, append-nil, append_assoc, arith, ltb, Bool-cases, length, length-append,
}
use syncons.Wire.{
  Bytes, header_bytes, eth_header_bytes, take, drop, slice, zero_bytes, ConsensusHeader,
  decode_consensus_header,
}
use syncons.Wire.RoundTrip.{
  encode_consensus_header_lem, in_range, header_text, decode_header_text, take-length, drop-length,
}
use syncons.Wire.Harness.{SsrFrame, Ether, EtherHeader, padded, encode, decode}

length-take {ℓ} : {A : Type ℓ} (n : ℕ) (xs : List A) → n ≤ length xs → length (take n xs) ≡ n
length-take zero xs h = refl
length-take (suc n) [] h = absurd (omega arith)
length-take (suc n) (x ∷ xs) h = ap suc (length-take n xs (omega arith))

length-drop {ℓ} : {A : Type ℓ} (n : ℕ) (xs : List A) → length (drop n xs) ≡ length xs - n
length-drop zero xs = omega arith
length-drop (suc n) [] = omega arith
length-drop (suc n) (x ∷ xs) = length-drop n xs ∙ omega arith

slice_lem {ℓ} :
    {A : Type ℓ} (a b : ℕ) (xs : List A) → a ≤ b → b ≤ length xs → length (slice a b xs) ≡ b - a
slice_lem a b xs h k = length-take (b - a) (drop a xs) (omega (arith, length-drop a xs))

-- Whatever the frame, `decode` raises: one that is too short by its own test, any other since the
-- 50 bytes up to the payload are unpacked as a header of 16.
pub decode_raises : (ether : Ether) (frame : Bytes) → decode ether frame ≡ none
unfolding decode decode_consensus_header
decode_raises ether frame = elim (Bool-cases (ltb (length frame) header_bytes)) [
  | inl short ↦ rw short refl
  | inr long ↦
      let fifty = slice_lem eth_header_bytes header_bytes frame (omega arith) (ground arith) in
      rw (long, fifty) refl
]

abbrev pub header_of : SsrFrame → ConsensusHeader
header_of frame = record {
  node_id = frame.node_id;
  row = frame.row;
  run_id = frame.run_id;
  round_id = frame.round_id;
  payload_length = length frame.payload;
}

abbrev pub ether_of : SsrFrame → EtherHeader
ether_of frame = record { dst = frame.dst_mac; src = frame.src_mac; type_field = frame.eth_type }

-- The bytes are the 14 of Ethernet, a header of the frame, the payload, and then only as many zeros
-- as make them 60.
pub record IsFrameOf (ether : Ether) (frame : SsrFrame) (bytes : Bytes) : Type 0 where
  pub ethernet : take 14 bytes ≡ ether.build (ether_of frame)
  pub header : decode_consensus_header (slice 14 30 bytes) ≡ some (header_of frame)
  pub payload : slice 30 (30 + length frame.payload) bytes ≡ frame.payload
  pub padding : drop (30 + length frame.payload) bytes ≡ zero_bytes (30 - length frame.payload)

padded_lem : (bytes : Bytes) → padded bytes ≡ bytes ++ zero_bytes (60 - length bytes)
padded_lem bytes = elim (Bool-cases (ltb (length bytes) 60)) [
  | inl short ↦ rw short refl
  | inr long ↦
      let full : 60 - length bytes ≡ 0 = ground arith in rw (long, full, append-nil bytes) refl
]

take-append {ℓ} : {A : Type ℓ} (xs ys : List A) (n : ℕ) → length xs ≡ n → take n (xs ++ ys) ≡ xs
take-append xs ys n e = subst (λ k. take k (xs ++ ys) ≡ xs) e (take-length xs ys)

drop-append {ℓ} : {A : Type ℓ} (xs ys : List A) (n : ℕ) → length xs ≡ n → drop n (xs ++ ys) ≡ ys
drop-append xs ys n e = subst (λ k. drop k (xs ++ ys) ≡ ys) e (drop-length xs ys)

header_first :
    (h : ConsensusHeader) (rest : Bytes) → take 16 (header_text h ++ rest) ≡ header_text h
header_first h rest = take-length (header_text h) rest

header_skipped : (h : ConsensusHeader) (rest : Bytes) → drop 16 (header_text h ++ rest) ≡ rest
header_skipped h rest = drop-length (header_text h) rest

drop-drop {ℓ} : {A : Type ℓ} (m n k : ℕ) (xs : List A) → m + n ≡ k → drop n (drop m xs) ≡ drop k xs
drop-drop zero n k xs e = ap (λ i. drop i xs) (omega arith)
drop-drop (suc m) zero zero [] e = refl
drop-drop (suc m) zero (suc k) [] e = refl
drop-drop (suc m) (suc n) zero [] e = refl
drop-drop (suc m) (suc n) (suc k) [] e = refl
drop-drop (suc m) n zero (x ∷ xs) e = absurd (omega arith)
drop-drop (suc m) n (suc k) (x ∷ xs) e = drop-drop m n k xs (omega arith)

window : (n : ℕ) → 30 + n - 30 ≡ n
window n = omega arith

missing :
    (eth payload : Bytes) (h : ConsensusHeader)
    → length eth ≡ 14
    → zero_bytes (60 - length (eth ++ header_text h ++ payload)) ≡ zero_bytes (30 - length payload)
missing eth payload h e = ap zero_bytes (
    omega
      (arith, e, length-append (eth ++ header_text h) payload, length-append eth (header_text h)))

-- A frame whose header fields lie in their ranges is encoded, if the Ethernet header has 14 bytes:
-- the Ethernet header, the consensus header, the payload from byte 30 on, and behind it just the
-- zeros that make a short frame 60 bytes.
pub encode-IsFrameOf :
    (ether : Ether) (frame : SsrFrame)
    → length (ether.build (ether_of frame)) ≡ 14
    → in_range (header_of frame) ≡ true
    → (bytes : Bytes) × (encode ether frame ≡ some bytes) × IsFrameOf ether frame bytes
unfolding encode
encode-IsFrameOf ether frame e inside =
    let eth = ether.build (ether_of frame) in
    let text = header_text (header_of frame) in
    let whole = eth ++ text ++ frame.payload in
    let zeros = zero_bytes (60 - length whole) in
    let split : padded whole ≡ eth ++ (text ++ (frame.payload ++ zeros)) =
      padded_lem whole
      ∙ append_assoc (eth ++ text) frame.payload zeros
      ∙ append_assoc eth text (frame.payload ++ zeros) in
    let behind : drop 14 (padded whole) ≡ text ++ (frame.payload ++ zeros) =
      ap (drop 14) split ∙ drop-append eth (text ++ (frame.payload ++ zeros)) 14 e in
    let body : drop 30 (padded whole) ≡ frame.payload ++ zeros =
      sym (drop-drop 14 16 30 (padded whole) refl)
      ∙ ap (drop 16) behind
      ∙ header_skipped (header_of frame) (frame.payload ++ zeros) in
    (
      padded whole,
      rw (encode_consensus_header_lem (header_of frame), inside) refl,
      record {
        ethernet = ap (take 14) split ∙ take-append eth (text ++ (frame.payload ++ zeros)) 14 e;
        header =
            ap (λ ys. decode_consensus_header (take 16 ys)) behind
            ∙ rw (header_first (header_of frame) (frame.payload ++ zeros))
                (decode_header_text (header_of frame) inside);
        payload =
            ap (λ n. take n (drop 30 (padded whole))) (window (length frame.payload))
            ∙ ap (take (length frame.payload)) body
            ∙ take-length frame.payload zeros;
        padding =
            sym
              (drop-drop 30 (length frame.payload) (30 + length frame.payload) (padded whole) refl)
            ∙ ap (drop (length frame.payload)) body
            ∙ drop-length frame.payload zeros
            ∙ missing eth frame.payload (header_of frame) e;
      },
    )
