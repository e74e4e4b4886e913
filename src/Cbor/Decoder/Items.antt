-- ===== src/Cbor/Decoder/Items.antt =====
-- `bio_cbor_decode_next` reads back what RFC 8949 says that an item is encoded as.
use mathlib.Core.Path.{subst}
use hiya.Base.{
  ℕ, ◌+◌, ◌-◌, ◌*◌, ◌^◌, ◌<◌, ◌≡◌, refl, sym, ◌∙◌, ap, true, List, ◌∷◌, ◌++◌, length, arith,
  append_assoc, ltb, if◌then◌else◌, ℤ, pos, negsuc,
}
use hiya.Cbor.{Major}
use hiya.Cbor.Head.{head, be, additional, follow, length-head}
use hiya.Cbor.Tree.{Tree, count_items, count_pairs, encode, encode_items, encode_pairs, IsValid}
use hiya.Cbor.Tree.Size.{sizes, count_items-le, count_pairs-le}
use hiya.Cbor.Decoder.{
  Decoder, Item, done, uint, negint, bstr, tstr, array, map, tag, simple, cleared, int_val, item_of,
  simple_item, decode_next,
}
use hiya.Cbor.Decoder.Read.{Ahead, advance, length-Ahead, Carries, dec_head-Carries}
use hiya.Cbor.Decoder.Next.{decode_next-head, next_string, item_of-array, item_of-map}

-- The integer that fits an `int64_t`; one below all of those is given as INT64_MIN.
abbrev saturated : ℤ → ℤ
saturated (pos n) = pos n
saturated (negsuc n) = if ltb n (2 ^ 63) then negsuc n else negsuc (2 ^ 63 - 1)

int_val-saturated : (v : ℕ) → int_val v ≡ saturated (negsuc v)
unfolding int_val
int_val-saturated v = ground arith

-- What an item at the position `at` is decoded as. The major type 1 with the argument `v` is the
-- integer -1 - v.
abbrev pub decoded : Tree → ℕ → Item
decoded (Tree.uint v) at = uint v
decoded (Tree.negint v) at = negint (saturated (negsuc v))
decoded (Tree.bstr bs) at = bstr (at + (1 + follow (length bs))) (length bs)
decoded (Tree.tstr bs) at = tstr (at + (1 + follow (length bs))) (length bs)
decoded (Tree.array ts) at = array (count_items ts)
decoded (Tree.map ps) at = map (count_pairs ps)
decoded (Tree.tag n t) at = tag n
decoded (Tree.simple v) at = simple (record cleared { simple_val = v })
decoded (Tree.float bits) at = simple (record cleared { float_val = bits; is_float = true })
decoded (Tree.double bits) at = simple (record cleared { double_val = bits; is_double = true })

-- How far that moves the cursor: past a scalar, and to the first child of the others.
unfoldable pub consumed : Tree → ℕ
consumed (Tree.array ts) = length (head Major.array (count_items ts))
consumed (Tree.map ps) = length (head Major.map (count_pairs ps))
consumed (Tree.tag n t) = length (head Major.tag n)
consumed t = length (encode t)

pub regroup :
    (d : Decoder) (xs ys zs : List ℕ) → Ahead d ((xs ++ ys) ++ zs) → Ahead d (xs ++ (ys ++ zs))
regroup d xs ys zs a = subst (Ahead d) (append_assoc xs ys zs) a

-- An item that its head alone decides.
from_head :
    (d : Decoder) (mt : Major) (v : ℕ) (it : Item) (back : List ℕ)
    → v < 2 ^ 64
    → Ahead d (head mt v ++ back)
    → ((d' : Decoder) → Ahead d' back → item_of mt (additional v) v d' ≡ (d', done it))
    → decode_next d ≡ (advance d (length (head mt v)), done it)
from_head d mt v it back h a f =
    let (e, a') = decode_next-head d mt v back h a in
    e ∙ f (advance d (1 + follow v)) a' ∙ ap (λ n. (advance d n, done it)) (sym (length-head mt v))

-- A float or a double: the size is in the head byte, the argument is the bit pattern.
from_bits :
    (d : Decoder) (ai k v : ℕ) (back : List ℕ)
    → Carries ai k v
    → Ahead d ((7 * 32 + ai) ∷ (be k v ++ back))
    → decode_next d ≡ (advance d (1 + k), done (simple_item ai v))
unfolding decode_next item_of
from_bits d ai k v back c a = rw (dec_head-Carries d Major.simple ai k v back c a)

simple_value :
    (v : ℕ)
    → IsValid (Tree.simple v)
    → simple_item (additional v) v ≡ simple (record cleared { simple_val = v })
unfolding simple_item additional
simple_value v h = ground arith

single_value :
    (v : ℕ)
    → v < 2 ^ 32
    → simple_item 26 v ≡ simple (record cleared { float_val = v; is_float = true })
unfolding simple_item
single_value v h = ground arith

fits_items : (d : Decoder) (xs ys zs : List ℕ) → Ahead d (xs ++ (ys ++ zs)) → length ys < 2 ^ 63
fits_items d xs ys zs a = omega (sizes, length-Ahead d (xs ++ (ys ++ zs)) a, a.small)

-- Where the encoding of a valid item lies ahead, `bio_cbor_decode_next` gives that item (an
-- integer, a string's place and length, a container's count, a tag or a simple value) and moves
-- the cursor past its head and payload, a container's or tag's content excepted. A negative
-- integer below -2^63 is given as INT64_MIN.
pub decode_next-encode :
    (t : Tree) (d : Decoder) (back : List ℕ)
    → IsValid t
    → Ahead d (encode t ++ back)
    → decode_next d ≡ (advance d (consumed t), done (decoded t d.offset))
unfolding encode consumed item_of simple_item
decode_next-encode (Tree.uint v) d back h a = from_head d Major.uint v _ back h a (λ d' _. refl)
decode_next-encode (Tree.negint v) d back h a =
    from_head d Major.negint v _ back h a
      (λ d' _. ap (λ k. (d', done (negint k))) (int_val-saturated v))
decode_next-encode (Tree.bstr bs) d back h a =
    next_string d Major.bstr bstr bs back (λ _ _ _. refl) h (regroup d _ bs back a)
decode_next-encode (Tree.tstr bs) d back h a =
    next_string d Major.tstr tstr bs back (λ _ _ _. refl) h (regroup d _ bs back a)
decode_next-encode (Tree.array ts) d back h a =
    let a' = regroup d (head Major.array (count_items ts)) (encode_items ts) back a in
    let fits = fits_items d (head Major.array (count_items ts)) (encode_items ts) back a' in
    from_head d Major.array (count_items ts) _ _ (omega (arith, count_items-le ts)) a' λ d' b.
      item_of-array d' (additional (count_items ts)) _ (encode_items ts ++ back)
        (omega (sizes, count_items-le ts)) b
decode_next-encode (Tree.map ps) d back h a =
    let a' = regroup d (head Major.map (count_pairs ps)) (encode_pairs ps) back a in
    let fits = fits_items d (head Major.map (count_pairs ps)) (encode_pairs ps) back a' in
    from_head d Major.map (count_pairs ps) _ _ (omega (arith, count_pairs-le ps)) a' λ d' b.
      item_of-map d' (additional (count_pairs ps)) _ (encode_pairs ps ++ back)
        (omega (sizes, count_pairs-le ps)) b
decode_next-encode (Tree.tag n t) d back (hn, h) a =
    from_head d Major.tag n _ _ hn (regroup d _ (encode t) back a) (λ d' _. refl)
decode_next-encode (Tree.simple v) d back h a =
    from_head d Major.simple v _ back (omega arith) a (λ d' _. rw (simple_value v h))
decode_next-encode (Tree.float v) d back h a =
    rw (← single_value v h) (from_bits d 26 4 v back (omega arith) a)
decode_next-encode (Tree.double v) d back h a = from_bits d 27 8 v back (omega arith) a
