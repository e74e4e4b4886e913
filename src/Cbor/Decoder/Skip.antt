-- ===== src/Cbor/Decoder/Skip.antt =====
-- `bio_cbor_skip` walks over exactly the bytes of one item, whatever it holds.
use mathlib.Core.Path.{subst}
use hiya.Base.{ℕ, zero, suc, ◌+◌, ◌≤◌, ◌<◌, ◌≡◌, refl, ◌∙◌, ap, List, ◌++◌, length, arith}
use hiya.Cbor.{Major, max_depth}
use hiya.Cbor.Head.{head}
use hiya.Cbor.Tree.{
  Tree, Trees, Pairs, uint, negint, bstr, tstr, array, map, tag, simple, float, double, nil, item,
  empty, pair, count_items, count_pairs, encode, encode_items, encode_pairs, IsValid, AreValid,
  ArePairsValid, level, level_items, level_pairs,
}
use hiya.Cbor.Tree.Size.{sizes}
use hiya.Cbor.Decoder.{Decoder, done, Reply, ◌>>=◌, and_then, times, skip_rest, skip_depth, skip}
use hiya.Cbor.Decoder.Read.{Ahead, advance, advance-Ahead}
use hiya.Cbor.Decoder.Next.{advance-advance}
use hiya.Cbor.Decoder.Items.{decoded, consumed, decode_next-encode, regroup}

-- The cursor is moved past `n` bytes.
abbrev Skipped : Decoder → ℕ → Reply (Unit {0}) → Type 0
Skipped d n r = r ≡ (advance d n, done tt)

behind_head :
    (t : Tree) (l : ℕ) (d : Decoder) (back : List ℕ)
    → IsValid t
    → Ahead d (encode t ++ back)
    → skip_depth (suc l) d ≡ skip_rest (skip_depth l) (decoded t d.offset) (advance d (consumed t))
unfolding skip_depth
behind_head t l d back h a = rw (decode_next-encode t d back h a)

-- Nothing more to skip.
nothing : (d : Decoder) → Skipped d 0 (d, done tt)
nothing d =
    let same : d.offset ≡ d.offset + 0 = omega arith in
    ap (λ n. (record d { offset = n }, done tt)) same

-- One skip, and then the rest.
Skipped-then :
    (d : Decoder) (m n k : ℕ) (r : Reply (Unit {0})) (f : Unit {0} → Decoder → Reply (Unit {0}))
    → m + n ≡ k
    → Skipped d m r
    → Skipped (advance d m) n (f tt (advance d m))
    → Skipped d k (and_then r.0 r.1 f)
Skipped-then d m n k r f e p q = rw p (q ∙ ap (λ d'. (d', done tt)) (advance-advance d m n k e))

mutual
  unfolding encode consumed skip_rest times

  skip_depth-Skipped :
      (t : Tree) (l : ℕ) (d : Decoder) (back : List ℕ)
      → IsValid t
      → level t < l
      → Ahead d (encode t ++ back)
      → Skipped d (length (encode t)) (skip_depth l d)
  skip_depth-Skipped (uint v) zero d back ok_t h a = absurd (omega arith)
  skip_depth-Skipped t zero d back ok_t h a = absurd (omega arith)
  skip_depth-Skipped (array ts) (suc l) d back ok_t h a =
      let hd = head Major.array (count_items ts) in
      let a' = advance-Ahead d _ hd (encode_items ts ++ back) refl (regroup d hd _ back a) in
      behind_head (array ts) l d back ok_t a
      ∙ times-Skipped ts l (advance d (length hd)) back ok_t (omega arith) a'
      ∙ ap (λ d'. (d', done tt)) (advance-advance d _ _ _ (omega sizes))
  skip_depth-Skipped (map ps) (suc l) d back ok_t h a =
      let hd = head Major.map (count_pairs ps) in
      let a' = advance-Ahead d _ hd (encode_pairs ps ++ back) refl (regroup d hd _ back a) in
      behind_head (map ps) l d back ok_t a
      ∙ times_pairs-Skipped ps l (advance d (length hd)) back ok_t (omega arith) a'
      ∙ ap (λ d'. (d', done tt)) (advance-advance d _ _ _ (omega sizes))
  skip_depth-Skipped (tag n t) (suc l) d back ok_t h a =
      let hd = head Major.tag n in
      let a' = advance-Ahead d _ hd (encode t ++ back) refl (regroup d hd _ back a) in
      behind_head (tag n t) l d back ok_t a
      ∙ skip_depth-Skipped t l (advance d (length hd)) back ok_t.1 (omega arith) a'
      ∙ ap (λ d'. (d', done tt)) (advance-advance d _ _ _ (omega sizes))
  skip_depth-Skipped (uint v) (suc l) d back ok_t h a = behind_head (uint v) l d back ok_t a
  skip_depth-Skipped (negint v) (suc l) d back ok_t h a = behind_head (negint v) l d back ok_t a
  skip_depth-Skipped (bstr bs) (suc l) d back ok_t h a = behind_head (bstr bs) l d back ok_t a
  skip_depth-Skipped (tstr bs) (suc l) d back ok_t h a = behind_head (tstr bs) l d back ok_t a
  skip_depth-Skipped (simple v) (suc l) d back ok_t h a = behind_head (simple v) l d back ok_t a
  skip_depth-Skipped (float v) (suc l) d back ok_t h a = behind_head (float v) l d back ok_t a
  skip_depth-Skipped (double v) (suc l) d back ok_t h a = behind_head (double v) l d back ok_t a

  times-Skipped :
      (ts : Trees) (l : ℕ) (d : Decoder) (back : List ℕ)
      → AreValid ts
      → level_items ts ≤ l
      → Ahead d (encode_items ts ++ back)
      → Skipped d (length (encode_items ts)) (times (count_items ts) (skip_depth l) d)
  times-Skipped nil l d back ok_ts h a = nothing d
  times-Skipped (item t ts) l d back (ok_t, ok_ts) h a =
      let a₁ = regroup d (encode t) (encode_items ts) back a in
      Skipped-then d (length (encode t)) (length (encode_items ts)) _ _ _ (omega sizes)
        (skip_depth-Skipped t l d (encode_items ts ++ back) ok_t (omega arith) a₁)
        (times-Skipped ts l (advance d (length (encode t))) back ok_ts (omega arith)
          (advance-Ahead d _ (encode t) _ refl a₁))

  times_pairs-Skipped :
      (ps : Pairs) (l : ℕ) (d : Decoder) (back : List ℕ)
      → ArePairsValid ps
      → level_pairs ps ≤ l
      → Ahead d (encode_pairs ps ++ back)
      → Skipped d
          (length (encode_pairs ps))
          (times (count_pairs ps) (skip_depth l >>= λ _. skip_depth l) d)
  times_pairs-Skipped empty l d back ok_ps h a = nothing d
  times_pairs-Skipped (pair k v ps) l d back (ok_k, ok_v, ok_ps) h a =
      let a₁ = regroup d (encode k) (encode v ++ encode_pairs ps) back a in
      let d₁ = advance d (length (encode k)) in
      let b = advance-Ahead d _ (encode k) _ refl a₁ in
      let b₁ = regroup d₁ (encode v) (encode_pairs ps) back b in
      let c = advance-Ahead d₁ _ (encode v) _ refl b₁ in
      let c₁ = subst (λ x. Ahead x (encode_pairs ps ++ back)) (advance-advance d _ _ _ refl) c in
      Skipped-then d (length (encode k) + length (encode v)) (length (encode_pairs ps)) _ _ _
        (omega sizes)
        (Skipped-then d (length (encode k)) (length (encode v)) _ _ _ refl
          (skip_depth-Skipped k l d _ ok_k (omega arith) a₁)
          (skip_depth-Skipped v l d₁ _ ok_v (omega arith) b₁))
        (times_pairs-Skipped ps l _ back ok_ps (omega arith) c₁)

-- Where the encoding of a valid item lies ahead that nests at most 16 levels deep, tags
-- counted, `bio_cbor_skip` succeeds and moves the cursor to the end of the encoding, and the
-- rest of the decoder stays as it was.
pub skip-encode :
    (t : Tree) (d : Decoder) (back : List ℕ)
    → IsValid t
    → level t ≤ max_depth
    → Ahead d (encode t ++ back)
    → skip d ≡ (advance d (length (encode t)), done tt)
unfolding skip
skip-encode t d back ok_t h a = skip_depth-Skipped t (max_depth + 1) d back ok_t (omega arith) a
