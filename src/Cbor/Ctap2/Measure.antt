-- ===== src/Cbor/Ctap2/Measure.antt =====
-- `bio_cbor_item_encoded_size` of src/cbor/bio_cbor_ctap2.c measures whole trees.
use hiya.Base.{
  ℕ, zero, suc, ◌+◌, ◌-◌, ◌*◌, ◌/◌, ◌^◌, ◌≤◌, ◌<◌, ◌≡◌, refl, sym, ◌∙◌, ap, false, List, [], ◌++◌,
  length, ltb, leb, arith, drop, drop-drop, append-nil,
}
use mathlib.Core.Path.{subst, subst₂}
use hiya.Cbor.{Major, size_max, add_size}
use hiya.Cbor.Head.{head}
use hiya.Cbor.Tree.{
  Tree, Trees, Pairs, uint, negint, bstr, tstr, array, map, tag, simple, float, double, nil, item,
  empty, pair, count_items, count_pairs, encode, encode_items, encode_pairs, IsValid, AreValid,
  ArePairsValid, level, level_items, level_pairs,
}
use hiya.Cbor.Tree.Size.{sizes, count_items-le, count_pairs-le, length-encode_pos}
use hiya.Cbor.Decoder.{Result, done}
use hiya.Cbor.Ctap2.{RawHead, size_loop, size_of_head, size_depth, item_encoded_size}
use hiya.Cbor.Ctap2.Size.{
  Begins, Begins-drop, Begins-front, Begins-le, Measured, head_size, simple-Measured, bits-Measured,
  bytes-Measured,
}

-- From `total` on, `bs` comes.
record At (p : List ℕ) (len total : ℕ) (bs : List ℕ) : Type 0 where
  begins : Begins (drop total p) (len - total) bs
  before : total ≤ len
  small : len < 2 ^ 63

At-next :
    (p : List ℕ) (len total : ℕ) (xs ys : List ℕ)
    → At p len total (xs ++ ys)
    → At p len (total + length xs) ys
At-next p len total xs ys a =
    let room = Begins-le _ _ xs (Begins-front _ _ xs ys a.begins) in
    let left : len - total - length xs ≡ len - (total + length xs) = omega arith in
    record {
      begins =
          subst₂ (λ q n. Begins q n ys) (drop-drop total (length xs) p) left
            (Begins-drop _ _ (length xs) xs ys refl a.begins);
      before = omega (arith, a.before);
      small = a.small;
    }

At-head :
    (p : List ℕ) (len : ℕ) (xs ys : List ℕ) → Begins p len (xs ++ ys) → At p len (length xs) ys
At-head p len xs ys b = record {
  begins = Begins-drop p len (length xs) xs ys refl b;
  before = Begins-le p len xs (Begins-front p len xs ys b);
  small = b.small;
}

-- One round of the loop over an item that is measured.
round :
    (l n : ℕ) (p : List ℕ) (len total : ℕ) (xs ys : List ℕ)
    → 1 ≤ length xs
    → At p len total (xs ++ ys)
    → Measured l (drop total p) (len - total) xs
    → size_loop (size_depth l) (suc n) p len total
      ≡ size_loop (size_depth l) n p len (total + length xs)
unfolding size_loop
round l n p len total xs ys pos a m =
    let room = Begins-le _ _ xs (Begins-front _ _ xs ys a.begins) in
    let more : leb len total ≡ false = ground arith in
    let sum : add_size total (length xs) ≡ total + length xs = omega (arith, a.small, a.before) in
    rw (more, m, sum, size_loop)

-- The loop over items that make up `bs`.
abbrev Totals : ℕ → ℕ → List ℕ → ℕ → ℕ → List ℕ → Type 0
Totals l n p len total bs = size_loop (size_depth l) n p len total ≡ done (total + length bs)

-- A head that is the whole item.
head_only :
    (l : ℕ) (mt : Major) (v : ℕ) (p : List ℕ) (len : ℕ)
    → v < 2 ^ 64
    → ((child : List ℕ → ℕ → Result ℕ) (h : RawHead) → size_of_head child h mt p len ≡ done h.used)
    → Begins p len (head mt v)
    → Measured (suc l) p len (head mt v)
head_only l mt v p len h f b =
    head_size l mt v p len [] h (subst (Begins p len) (sym (append-nil (head mt v))) b)
    ∙ f (size_depth l) _

-- A head with the bytes of its items behind it.
over_items :
    (l n : ℕ) (mt : Major) (v : ℕ) (p : List ℕ) (len : ℕ) (bs : List ℕ)
    → v < 2 ^ 64
    → ((h : RawHead)
        → h.value ≡ v
        → size_of_head (size_depth l) h mt p len ≡ size_loop (size_depth l) n p len h.used)
    → Begins p len (head mt v ++ bs)
    → Totals l n p len (length (head mt v)) bs
    → Measured (suc l) p len (head mt v ++ bs)
over_items l n mt v p len bs h f b t =
    head_size l mt v p len bs h b ∙ f _ refl ∙ t ∙ ap done (omega sizes)

tagged :
    (l v : ℕ) (p : List ℕ) (len : ℕ) (bs : List ℕ)
    → v < 2 ^ 64
    → Begins p len (head Major.tag v ++ bs)
    → Measured l (drop (length (head Major.tag v)) p) (len - length (head Major.tag v)) bs
    → Measured (suc l) p len (head Major.tag v ++ bs)
unfolding size_of_head
tagged l v p len bs h b m =
    let room = Begins-le p len (head Major.tag v ++ bs) b in
    head_size l Major.tag v p len bs h b ∙ rw m (ap done (omega (sizes, b.small)))

map_loop :
    (child : List ℕ → ℕ → Result ℕ) (h : RawHead) (p : List ℕ) (len v : ℕ)
    → v < 2 ^ 63
    → h.value ≡ v
    → size_of_head child h Major.map p len ≡ size_loop child (v * 2) p len h.used
unfolding size_of_head
map_loop child h p len v l e =
    let fits : ltb (size_max / 2) h.value ≡ false = ground arith in rw (fits, e)

mutual
  unfolding encode size_of_head size_loop

  size_depth-Measured :
      (t : Tree) (l : ℕ) (p : List ℕ) (len : ℕ)
      → IsValid t
      → level t < l
      → Begins p len (encode t)
      → Measured l p len (encode t)
  size_depth-Measured (uint v) zero p len ok_t h b = absurd (omega arith)
  size_depth-Measured t zero p len ok_t h b = absurd (omega arith)
  size_depth-Measured (uint v) (suc l) p len ok_t h b =
      head_only l Major.uint v p len ok_t (λ _ _. refl) b
  size_depth-Measured (negint v) (suc l) p len ok_t h b =
      head_only l Major.negint v p len ok_t (λ _ _. refl) b
  size_depth-Measured (bstr bs) (suc l) p len ok_t h b =
      bytes-Measured l Major.bstr bs p len (λ _ _. refl) ok_t b
  size_depth-Measured (tstr bs) (suc l) p len ok_t h b =
      bytes-Measured l Major.tstr bs p len (λ _ _. refl) ok_t b
  size_depth-Measured (array ts) (suc l) p len ok_t h b =
      let hd = head Major.array (count_items ts) in
      let fits = Begins-le p len (hd ++ encode_items ts) b in
      over_items l (count_items ts) Major.array (count_items ts) p len (encode_items ts)
        (omega (sizes, count_items-le ts, b.small))
        (λ r e. ap (λ n. size_loop (size_depth l) n p len r.used) e) b
        (loop-Totals ts l p len (length hd) ok_t (omega arith) (At-head p len hd _ b))
  size_depth-Measured (map ps) (suc l) p len ok_t h b =
      let hd = head Major.map (count_pairs ps) in
      let fits = Begins-le p len (hd ++ encode_pairs ps) b in
      let short : count_pairs ps < 2 ^ 63 = omega (sizes, count_pairs-le ps, b.small) in
      over_items l (count_pairs ps * 2) Major.map (count_pairs ps) p len (encode_pairs ps)
        (omega arith) (λ r e. map_loop (size_depth l) r p len (count_pairs ps) short e) b
        (loop_pairs-Totals ps l p len (length hd) ok_t (omega arith) (At-head p len hd _ b))
  size_depth-Measured (tag n t) (suc l) p len (hn, ok_t) h b =
      let hd = head Major.tag n in
      tagged l n p len (encode t) hn b (
        size_depth-Measured t l (drop (length hd) p) (len - length hd) ok_t (omega arith)
          (Begins-drop p len (length hd) hd (encode t) refl b))
  size_depth-Measured (simple v) (suc l) p len ok_t h b = simple-Measured l v p len ok_t b
  size_depth-Measured (float v) (suc l) p len ok_t h b =
      bits-Measured l 26 4 v p len (omega arith) b
  size_depth-Measured (double v) (suc l) p len ok_t h b =
      bits-Measured l 27 8 v p len (omega arith) b

  loop-Totals :
      (ts : Trees) (l : ℕ) (p : List ℕ) (len total : ℕ)
      → AreValid ts
      → level_items ts ≤ l
      → At p len total (encode_items ts)
      → Totals l (count_items ts) p len total (encode_items ts)
  loop-Totals nil l p len total ok_ts h a = ap done (omega arith)
  loop-Totals (item t ts) l p len total (ok_t, ok_ts) h a =
      round l (count_items ts) p len total (encode t) (encode_items ts) (length-encode_pos t) a (
        size_depth-Measured t l _ _ ok_t (omega arith)
          (Begins-front _ _ (encode t) (encode_items ts) a.begins))
      ∙ loop-Totals ts l p len (total + length (encode t)) ok_ts (omega arith)
          (At-next p len total (encode t) (encode_items ts) a)
      ∙ ap done (omega sizes)

  loop_pairs-Totals :
      (ps : Pairs) (l : ℕ) (p : List ℕ) (len total : ℕ)
      → ArePairsValid ps
      → level_pairs ps ≤ l
      → At p len total (encode_pairs ps)
      → Totals l (count_pairs ps * 2) p len total (encode_pairs ps)
  loop_pairs-Totals empty l p len total ok_ps h a = ap done (omega arith)
  loop_pairs-Totals (pair k v ps) l p len total (ok_k, ok_v, ok_ps) h a =
      let two : suc (count_pairs ps) * 2 ≡ suc (suc (count_pairs ps * 2)) = omega arith in
      let b = At-next p len total (encode k) (encode v ++ encode_pairs ps) a in
      let total₁ = total + length (encode k) in
      rw two (
        round l (suc (count_pairs ps * 2)) p len total (encode k) (encode v ++ encode_pairs ps)
          (length-encode_pos k) a
          (size_depth-Measured k l _ _ ok_k (omega arith) (Begins-front _ _ (encode k) _ a.begins))
        ∙ round l (count_pairs ps * 2) p len total₁ (encode v) (encode_pairs ps)
            (length-encode_pos v) b
            (size_depth-Measured v l _ _ ok_v (omega arith)
              (Begins-front _ _ (encode v) _ b.begins))
        ∙ loop_pairs-Totals ps l p len (total₁ + length (encode v)) ok_ps (omega arith)
            (At-next p len total₁ (encode v) (encode_pairs ps) b)
        ∙ ap done (omega sizes))

-- On memory of fewer than 2 ^ 63 bytes that begins with the encoding of a valid item that nests
-- at most 32 levels deep, `bio_cbor_item_encoded_size` gives the length of that encoding.
pub item_encoded_size-encode :
    (t : Tree) (p : List ℕ) (len : ℕ)
    → IsValid t
    → level t ≤ 32
    → Begins p len (encode t)
    → item_encoded_size p len ≡ done (length (encode t))
unfolding item_encoded_size
item_encoded_size-encode t p len ok_t h b = size_depth-Measured t 33 p len ok_t (omega arith) b
