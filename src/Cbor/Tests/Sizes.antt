-- ===== src/Cbor/Tests/Sizes.antt =====
-- Runs of the CTAP2 utilities.
use hiya.Base.{
  ◌+◌, ◌*◌, ◌≡◌, refl, [], ◌∷◌, ◌++◌, length, replicate, memcpy, leb, if◌then◌else◌, arith, inl,
  inr, some, true, invalid_param, ℤ, List, ℕ,
}
use hiya.Cbor.{Major, code}
use hiya.Cbor.Head.{head, be, follow}
use hiya.Cbor.Tree.{encode}
use hiya.Cbor.Decoder.{done}
use hiya.Cbor.Ctap2.{encode_head_raw, decode_head_raw, item_encoded_size, size_depth, size_of_head}
use hiya.Cbor.Ctap2.Sort.{
  KvPair, sort_map_ctap2, sort_map_ctap2-error, sort_pairs, write_back, find_pairs,
}
use hiya.Cbor.Ctap2.Raw.{encode_head_raw-head, decode_head_raw-Carries}
use hiya.Cbor.Ctap2.Size.{Begins}
use hiya.Cbor.Ctap2.Measure.{item_encoded_size-encode}
use hiya.Cbor.Tests.{sample, sample-IsValid, encode-sample, pairs_bytes}

sample-Begins : Begins (0xa2 ∷ pairs_bytes ++ (0x00 ∷ [])) 12 (encode sample)
sample-Begins = record {
  rest = 0x00 ∷ [];
  split = rw encode-sample;
  whole = refl;
  small = omega arith;
}

item_encoded_size-encode_example :
    item_encoded_size (0xa2 ∷ pairs_bytes ++ (0x00 ∷ [])) 12 ≡ done (length (encode sample))
item_encoded_size-encode_example =
    item_encoded_size-encode sample (0xa2 ∷ pairs_bytes ++ (0x00 ∷ [])) 12 sample-IsValid
      (omega arith) sample-Begins

encode_head_raw-head_example : encode_head_raw (replicate 4 0) 4 Major.array 300 ≡ (
    if leb (1 + follow 300) 4
    then (memcpy (replicate 4 0) 0 (head Major.array 300), 1 + follow 300)
    else (replicate 4 0, 0))
encode_head_raw-head_example = encode_head_raw-head (replicate 4 0) 4 Major.array 300 (omega arith)

decode_head_raw-Carries_example :
    decode_head_raw ((code Major.tag * 32 + 25) ∷ (be 2 7 ++ [])) 3
    ≡ some (record { used = 3; major = Major.tag; value = 7 })
decode_head_raw-Carries_example =
    decode_head_raw-Carries Major.tag 25 2 7 3 [] (inr (inr (inl (refl, refl, omega arith))))
      (omega arith)

-- A map of one pair whose value is missing.
abbrev cut_map : List ℕ
cut_map = 0xa1 ∷ 0x01 ∷ []

abbrev unsorted : (KvPair → KvPair → ℤ) → List KvPair → List KvPair
unsorted compare pairs = pairs

cut_map-fails : (sort_map_ctap2 unsorted true true cut_map 2).1 ≡ invalid_param
unfolding sort_map_ctap2 sort_pairs write_back find_pairs item_encoded_size size_depth size_of_head
    decode_head_raw
cut_map-fails = refl

sort_map_ctap2-error_example : (sort_map_ctap2 unsorted true true cut_map 2).0 ≡ cut_map
sort_map_ctap2-error_example =
    sort_map_ctap2-error unsorted true true cut_map 2 (rw cut_map-fails (λ e. ground arith))
