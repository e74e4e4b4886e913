-- ===== src/Cbor/Tree/Emit.antt =====
-- A tree written by the calls of src/cbor/bio_cbor_encoder.c, in the order that bio_cbor.h asks
-- for: after the head of a container exactly its items.
mod Containers
mod Scalars
use hiya.Base.{
  ℕ, zero, suc, ◌+◌, ◌*◌, ◌^◌, ◌≤◌, ◌<◌, ◌≡◌, refl, sym, ◌∙◌, ap, List, [], ◌∷◌, ◌++◌, length,
  append_assoc, append-nil, length-append, arith, ok, some, Bool, true, false, leb, ltb, inl, inr,
  take, take-length, Bool-cases, ◌==◌, ◌&&◌, if◌then◌else◌,
}
use hiya.Cbor.{Major, max_depth, size_max, u8, shr}
use hiya.Cbor.Head.{head, be, length-head, length-be}
use hiya.Cbor.Tree.{
  Tree, Trees, Pairs, uint, negint, bstr, tstr, array, map, tag, simple, float, double, nil, item,
  empty, pair, count_items, count_pairs, encode, encode_items, encode_pairs, IsValid, AreValid,
  ArePairsValid, opens, opens_items, opens_pairs,
}
use hiya.Cbor.Encoder.{
  Encoder, Frame, Outcome, ◌>>◌, resume, track, enc_write, enc_head, enc_write_byte, enc_write_be32,
  enc_write_be64,
}
use hiya.Cbor.Encoder.Calls.{
  encode_uint, encode_negint, encode_bstr, encode_tstr, encode_string, encode_array, encode_map,
  encode_tag, encode_simple, encode_float, encode_double,
}
use hiya.Cbor.Encoder.Write.{IsReady, Fits}
use hiya.Cbor.Encoder.Track.{frames, count_item, length-open_frames}
use hiya.Cbor.Encoder.Emitted.{
  Emitted, Continues, Emitted-then, Emitted-track, enc_head-Emitted, enc_write-Emitted,
}
use Containers.{
  partial, partial-full, count_item-partial, length-partial, encode_array-Emitted,
  encode_map-Emitted,
}
use Scalars.{head_item, string_item, simple_item, float_item, double_item}
use hiya.Cbor.Tree.Size.{sizes, count_items-le, count_pairs-le, length-encode_pos}

unfoldable mutual
  pub emit : Tree → Encoder → Outcome
  emit (uint v) e = encode_uint v e
  emit (negint v) e = encode_negint v e
  emit (bstr bs) e = encode_bstr (some bs) (length bs) e
  emit (tstr bs) e = encode_tstr (some bs) (length bs) e
  emit (array ts) e = (encode_array (count_items ts) >> emit_items ts) e
  emit (map ps) e = (encode_map (count_pairs ps) >> emit_pairs ps) e
  emit (tag n t) e = (encode_tag n >> emit t) e
  emit (simple v) e = encode_simple v e
  emit (float bits) e = encode_float bits e
  emit (double bits) e = encode_double bits e

  pub emit_items : Trees → Encoder → Outcome
  emit_items nil e = (e, ok)
  emit_items (item t ts) e = (emit t >> emit_items ts) e

  pub emit_pairs : Pairs → Encoder → Outcome
  emit_pairs empty e = (e, ok)
  emit_pairs (pair k v ps) e = (emit k >> (emit v >> emit_pairs ps)) e

-- What the induction says of one item: it is written, and counted once.
abbrev pub Writes : Encoder → Tree → Type 0
Writes e t =
    IsReady e
    → IsValid t
    → length (frames e) + opens t ≤ max_depth
    → Fits e (length (encode t))
    → Emitted e (encode t) (count_item (frames e)) (emit t e)

-- Of the items that a container with `count` items in all still lacks.
abbrev WritesItems : Major → ℕ → ℕ → List Frame → Encoder → Trees → Type 0
WritesItems mt count done fs e ts =
    IsReady e
    → AreValid ts
    → frames e ≡ partial mt count done fs
    → done + count_items ts ≡ count
    → count < 2 ^ 63
    → suc (length fs) + opens_items ts ≤ max_depth
    → Fits e (length (encode_items ts))
    → Emitted e (encode_items ts) (partial mt count count fs) (emit_items ts e)

abbrev WritesPairs : Major → ℕ → ℕ → List Frame → Encoder → Pairs → Type 0
WritesPairs mt count done fs e ps =
    IsReady e
    → ArePairsValid ps
    → frames e ≡ partial mt count done fs
    → done + count_pairs ps * 2 ≡ count
    → count < 2 ^ 63
    → suc (length fs) + opens_pairs ps ≤ max_depth
    → Fits e (length (encode_pairs ps))
    → Emitted e (encode_pairs ps) (partial mt count count fs) (emit_pairs ps e)

nothing_left : (e : Encoder) (fs : List Frame) → IsReady e → frames e ≡ fs → Emitted e [] fs (e, ok)
nothing_left e fs r p = record {
  done = refl;
  ready = r;
  capacity_now = refl;
  offset_now = omega arith;
  output_now = sym (append-nil _);
  open_now = p;
}

-- One more item of a container: the frames before and after it.
next_item :
    (mt : Major) (count done : ℕ) (fs gs : List Frame)
    → gs ≡ partial mt count done fs
    → done < count
    → count < 2 ^ 63
    → (count_item gs ≡ partial mt count (done + 1) fs) × (length gs ≡ suc (length fs))
next_item mt count done fs gs p l b =
    rw p (count_item-partial mt count done fs l (omega arith), length-partial mt count done fs l)

depth-lt : (e : Encoder) → length (frames e) < max_depth → e.depth < max_depth
depth-lt e h = omega (arith, length-open_frames e.stack e.depth)

mutual
  unfolding encode emit encode_uint encode_negint encode_bstr encode_tstr encode_tag

  pub emit-Writes : (t : Tree) (e : Encoder) → Writes e t
  emit-Writes (uint v) e r ok_t d h = head_item e Major.uint v r ok_t h
  emit-Writes (negint v) e r ok_t d h = head_item e Major.negint v r ok_t h
  emit-Writes (bstr bs) e r ok_t d h = string_item e Major.bstr bs r ok_t h
  emit-Writes (tstr bs) e r ok_t d h = string_item e Major.tstr bs r ok_t h
  emit-Writes (array ts) e r ok_t d h =
      let n = count_items ts in
      let short : n < 2 ^ 63 = omega (sizes, count_items-le ts) in
      Emitted-then e (head Major.array n) (encode_items ts) (encode (array ts))
        (partial Major.array n 0 (frames e)) (count_item (frames e)) _ (emit_items ts) refl
        (encode_array-Emitted e n r short (depth-lt e (omega arith)) (omega sizes))
        λ e' c. rw (← partial-full Major.array n (frames e)) (
          emit_items-Writes ts Major.array n 0 (frames e) e' c.ready ok_t c.open_now (omega arith)
            short (omega arith) (omega (sizes, c.offset_now, c.capacity_now)))
  emit-Writes (map ps) e r ok_t d h =
      let n = count_pairs ps in
      let short : n * 2 < 2 ^ 63 = omega (sizes, count_pairs-le ps) in
      Emitted-then e (head Major.map n) (encode_pairs ps) (encode (map ps))
        (partial Major.map (n * 2) 0 (frames e)) (count_item (frames e)) _ (emit_pairs ps) refl
        (encode_map-Emitted e n r (omega arith) (depth-lt e (omega arith)) (omega sizes))
        λ e' c. rw (← partial-full Major.map (n * 2) (frames e)) (
          emit_pairs-Writes ps Major.map (n * 2) 0 (frames e) e' c.ready ok_t c.open_now
            (omega arith) short (omega arith) (omega (sizes, c.offset_now, c.capacity_now)))
  emit-Writes (tag n t) e r (hn, ok_t) d h =
      Emitted-then e (head Major.tag n) (encode t) (encode (tag n t)) (frames e)
        (count_item (frames e)) _ (emit t) refl (enc_head-Emitted e Major.tag n r hn (omega sizes))
        λ e' c. rw (← c.open_now) (
          emit-Writes t e' c.ready ok_t (omega (arith, ap length c.open_now))
            (omega (sizes, c.offset_now, c.capacity_now)))
  emit-Writes (simple v) e r ok_t d h = simple_item e v r ok_t h
  emit-Writes (float bits) e r ok_t d h = float_item e bits r h
  emit-Writes (double bits) e r ok_t d h = double_item e bits r h

  emit_items-Writes :
      (ts : Trees) (mt : Major) (count done : ℕ) (fs : List Frame) (e : Encoder)
      → WritesItems mt count done fs e ts
  emit_items-Writes nil mt count done fs e r ok_ts p n l d h =
      let e_n : count ≡ done = omega arith in
      nothing_left e _ r (p ∙ ap (λ k. partial mt count k fs) (sym e_n))
  emit_items-Writes (item t ts) mt count done fs e r (ok_t, ok_ts) p n l d h =
      let (step, deep) = next_item mt count done fs (frames e) p (omega arith) l in
      Emitted-then e (encode t) (encode_items ts) _ (count_item (frames e)) _ _ (emit_items ts) refl
        (emit-Writes t e r ok_t (omega arith) (omega sizes))
        λ e' c.
          emit_items-Writes ts mt count (done + 1) fs e' c.ready ok_ts (c.open_now ∙ step)
            (omega arith) l (omega arith) (omega (sizes, c.offset_now, c.capacity_now))

  emit_pairs-Writes :
      (ps : Pairs) (mt : Major) (count done : ℕ) (fs : List Frame) (e : Encoder)
      → WritesPairs mt count done fs e ps
  emit_pairs-Writes empty mt count done fs e r ok_ps p n l d h =
      let e_n : count ≡ done = omega arith in
      nothing_left e _ r (p ∙ ap (λ k. partial mt count k fs) (sym e_n))
  emit_pairs-Writes (pair k v ps) mt count done fs e r (ok_k, ok_v, ok_ps) p n l d h =
      let (step, deep) = next_item mt count done fs (frames e) p (omega arith) l in
      Emitted-then e (encode k) (encode v ++ encode_pairs ps) _ (count_item (frames e)) _ _
        (emit v >> emit_pairs ps) refl (emit-Writes k e r ok_k (omega arith) (omega sizes))
        λ e₁ c.
          let q = c.open_now ∙ step in
          let (step₁, deep₁) = next_item mt count (done + 1) fs (frames e₁) q (omega arith) l in
          Emitted-then e₁ (encode v) (encode_pairs ps) _ (count_item (frames e₁)) _ _
            (emit_pairs ps) refl
            (emit-Writes v e₁ c.ready ok_v (omega arith)
              (omega (sizes, c.offset_now, c.capacity_now)))
            λ e₂ c₂.
              emit_pairs-Writes ps mt count (done + 1 + 1) fs e₂ c₂.ready ok_ps
                (c₂.open_now ∙ step₁) (omega arith) l (omega arith)
                (omega (sizes, c.offset_now, c.capacity_now, c₂.offset_now, c₂.capacity_now))
