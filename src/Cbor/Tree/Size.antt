-- ===== src/Cbor/Tree/Size.antt =====
-- How long the encodings are: at least one byte for each item.
use hiya.Base.{ℕ, ◌+◌, ◌*◌, ◌≤◌, ◌<◌, ◌≡◌, List, [], ◌∷◌, ◌++◌, length, length-append, arith}
use hiya.Cbor.Head.{head, length-head, be}
use hiya.Cbor.Tree.{
  Tree, Trees, Pairs, float, double, nil, item, empty, pair, count_items, count_pairs, encode,
  encode_items, encode_pairs,
}

pub length-append_bytes : (xs ys : List ℕ) → length (xs ++ ys) ≡ length xs + length ys
length-append_bytes = length-append

pub ruleset sizes = (arith, length-append_bytes, length-head)

pub length-encode_pos : (t : Tree) → 1 ≤ length (encode t)
unfolding encode
length-encode_pos (float bits) = omega arith
length-encode_pos (double bits) = omega arith
length-encode_pos _ = omega sizes

pub count_items-le : (ts : Trees) → count_items ts ≤ length (encode_items ts)
unfolding encode_items
count_items-le nil = omega arith
count_items-le (item t ts) = omega (sizes, length-encode_pos t, count_items-le ts)

pub count_pairs-le : (ps : Pairs) → count_pairs ps * 2 ≤ length (encode_pairs ps)
unfolding encode_pairs
count_pairs-le empty = omega arith
count_pairs-le (pair k v ps) =
    omega (sizes, length-encode_pos k, length-encode_pos v, count_pairs-le ps)
