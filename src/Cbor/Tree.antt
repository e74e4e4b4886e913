-- ===== src/Cbor/Tree.antt =====
-- CBOR data items as trees, and the bytes that RFC 8949 §3 gives each: the description of what a
-- sequence of encoder calls writes and of what the decoder walks over.
pub mod Emit
pub mod Size
use hiya.Base.{ℕ, suc, ◌+◌, ◌^◌, ◌≤◌, ◌<◌, ◌⊎◌, List, ◌∷◌, [], ◌++◌, length}
use hiya.Cbor.{Major}
use hiya.Cbor.Head.{head, be}
use Prim.Native.Nat.{max}

mutual
  pub data Tree : Type 0 where
    uint : ℕ → Tree
    negint : ℕ → Tree
    bstr : List ℕ → Tree
    tstr : List ℕ → Tree
    array : Trees → Tree
    map : Pairs → Tree
    tag : ℕ → Tree → Tree
    simple : ℕ → Tree
    float : ℕ → Tree
    double : ℕ → Tree

  pub data Trees : Type 0 where
    nil : Trees
    item : Tree → Trees → Trees

  pub data Pairs : Type 0 where
    empty : Pairs
    pair : Tree → Tree → Pairs → Pairs

abbrev pub count_items : Trees → ℕ
count_items nil = 0
count_items (item t ts) = suc (count_items ts)

abbrev pub count_pairs : Pairs → ℕ
count_pairs empty = 0
count_pairs (pair k v ps) = suc (count_pairs ps)

-- The bytes of an item. A float or a double is its IEEE 754 bit pattern.
unfoldable mutual
  pub encode : Tree → List ℕ
  encode (uint v) = head Major.uint v
  encode (negint v) = head Major.negint v
  encode (bstr bs) = head Major.bstr (length bs) ++ bs
  encode (tstr bs) = head Major.tstr (length bs) ++ bs
  encode (array ts) = head Major.array (count_items ts) ++ encode_items ts
  encode (map ps) = head Major.map (count_pairs ps) ++ encode_pairs ps
  encode (tag n t) = head Major.tag n ++ encode t
  encode (simple v) = head Major.simple v
  encode (float bits) = 0xfa ∷ be 4 bits
  encode (double bits) = 0xfb ∷ be 8 bits

  pub encode_items : Trees → List ℕ
  encode_items nil = []
  encode_items (item t ts) = encode t ++ encode_items ts

  pub encode_pairs : Pairs → List ℕ
  encode_pairs empty = []
  encode_pairs (pair k v ps) = encode k ++ (encode v ++ encode_pairs ps)

-- The numbers fit the fields that carry them; simple values 24 to 31 are reserved.
abbrev mutual
  pub IsValid : Tree → Type 0
  IsValid (uint v) = v < 2 ^ 64
  IsValid (negint v) = v < 2 ^ 64
  IsValid (bstr bs) = length bs < 2 ^ 63
  IsValid (tstr bs) = length bs < 2 ^ 63
  IsValid (array ts) = AreValid ts
  IsValid (map ps) = ArePairsValid ps
  IsValid (tag n t) = (n < 2 ^ 64) × IsValid t
  IsValid (simple v) = (v < 24) ⊎ ((32 ≤ v) × (v < 256))
  IsValid (float bits) = bits < 2 ^ 32
  IsValid (double bits) = bits < 2 ^ 64

  pub AreValid : Trees → Type 0
  AreValid nil = Unit {0}
  AreValid (item t ts) = IsValid t × AreValid ts

  pub ArePairsValid : Pairs → Type 0
  ArePairsValid empty = Unit {0}
  ArePairsValid (pair k v ps) = IsValid k × IsValid v × ArePairsValid ps

-- How many containers are open at once while the item is written. A tag opens none.
abbrev mutual
  pub opens : Tree → ℕ
  opens (array ts) = suc (opens_items ts)
  opens (map ps) = suc (opens_pairs ps)
  opens (tag n t) = opens t
  opens _ = 0

  pub opens_items : Trees → ℕ
  opens_items nil = 0
  opens_items (item t ts) = max (opens t) (opens_items ts)

  pub opens_pairs : Pairs → ℕ
  opens_pairs empty = 0
  opens_pairs (pair k v ps) = max (opens k) (max (opens v) (opens_pairs ps))

-- How deep the item nests for a reader, which counts tags too.
abbrev mutual
  pub level : Tree → ℕ
  level (array ts) = level_items ts
  level (map ps) = level_pairs ps
  level (tag n t) = suc (level t)
  level _ = 0

  pub level_items : Trees → ℕ
  level_items nil = 0
  level_items (item t ts) = max (suc (level t)) (level_items ts)

  pub level_pairs : Pairs → ℕ
  level_pairs empty = 0
  level_pairs (pair k v ps) = max (suc (level k)) (max (suc (level v)) (level_pairs ps))
