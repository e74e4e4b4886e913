-- ===== src/Cbor/Tests.antt =====
-- Concrete runs of the CBOR library, on an item of 11 bytes that nests two containers and a tag.
mod Writes
mod Reads
mod Sizes
use hiya.Base.{ℕ, ◌+◌, ◌*◌, ◌^◌, ◌<◌, ◌≡◌, refl, false, List, [], ◌∷◌, ◌++◌, length, arith, inl, ok}
use hiya.Cbor.Head.{head, be, additional, follow}
use hiya.Cbor.Tree.{
  Tree, Trees, Pairs, nil, item, empty, pair, encode, encode_pairs, encode_items, IsValid,
}
use hiya.Cbor.Decoder.{Decoder}
use hiya.Cbor.Decoder.Read.{Ahead}

-- {1: [-10, h'0708'], "a": 1(true)}
abbrev pub pairs : Pairs
pairs =
    pair (Tree.uint 1) (Tree.array (item (Tree.negint 9) (item (Tree.bstr (7 ∷ 8 ∷ [])) nil)))
      (pair (Tree.tstr (0x61 ∷ [])) (Tree.tag 1 (Tree.simple 21)) empty)

abbrev pub sample : Tree
sample = Tree.map pairs

abbrev pub pairs_bytes : List ℕ
pairs_bytes = 0x01 ∷ 0x82 ∷ 0x29 ∷ 0x42 ∷ 7 ∷ 8 ∷ 0x61 ∷ 0x61 ∷ 0xc1 ∷ 0xf5 ∷ []

pub sample-IsValid : IsValid sample
sample-IsValid = (
  omega arith,
  (omega arith, (omega arith, tt)),
  (omega arith, (omega arith, inl (omega arith)), tt),
)

pub encode-sample : encode sample ≡ 0xa2 ∷ pairs_bytes
unfolding encode encode_pairs encode_items head additional follow
encode-sample = refl

-- A reader of the item, with one more byte behind it.
abbrev pub reader : Decoder
reader = record {
  source = 0xa2 ∷ pairs_bytes ++ (0x00 ∷ []);
  size = 12;
  offset = 0;
  error = false;
  err_code = ok;
}

pub reader-Ahead : Ahead reader (encode sample ++ (0x00 ∷ []))
unfolding encode encode_pairs encode_items head additional follow
reader-Ahead = record {
  fine = refl;
  whole = refl;
  small = omega arith;
  within = omega arith;
  rest = refl;
}

-- The same reader behind the head of the map.
pub inside-Ahead : Ahead (record reader { offset = 1 }) (encode_pairs pairs ++ (0x00 ∷ []))
unfolding encode encode_pairs encode_items head additional follow
inside-Ahead = record {
  fine = refl;
  whole = refl;
  small = omega arith;
  within = omega arith;
  rest = refl;
}
