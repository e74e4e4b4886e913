-- ===== src/Cbor/Decoder/Read.antt =====
-- Reads of src/cbor/bio_cbor_decoder.c at a position where given bytes lie ahead.
use hiya.Base.{
  ℕ, ◌+◌, ◌*◌, ◌/◌, ◌%◌, ◌^◌, ◌≤◌, ◌<◌, ◌≡◌, refl, sym, ◌∙◌, ap, false, List, [], ◌∷◌, ◌++◌, length,
  take, drop, arith, some, bit_and, bit_or, low_five, bit_or_disjoint, ◌⊎◌, inl, inr, length-append,
  length-drop, take-append, drop-append, drop-drop,
}
use hiya.Cbor.{Major, code, major_of, major_of-code, shr}
use hiya.Cbor.Head.{head, be, additional, follow}
use hiya.Cbor.Decoder.{
  Decoder, done, dec_read, dec_read_byte, dec_read_be16, dec_read_be32, dec_read_be64, be16_of,
  be32_of, be64_of, dec_head, dec_argument,
}

-- No error so far, and `bs` is what lies between the cursor and the end.
pub record Ahead (d : Decoder) (bs : List ℕ) : Type 0 where
  pub fine : d.error ≡ false
  pub whole : d.size ≡ length d.source
  pub small : d.size < 2 ^ 63
  pub within : d.offset ≤ d.size
  pub rest : drop d.offset d.source ≡ bs

abbrev pub advance : Decoder → ℕ → Decoder
advance d n = record d { offset = d.offset + n }

pub length-Ahead : (d : Decoder) (bs : List ℕ) → Ahead d bs → d.size ≡ d.offset + length bs
length-Ahead d bs a = omega (arith, ap length a.rest, length-drop d.offset d.source)

-- Past a prefix the suffix lies ahead.
pub advance-Ahead :
    (d : Decoder) (n : ℕ) (front back : List ℕ)
    → n ≡ length front
    → Ahead d (front ++ back)
    → Ahead (advance d n) back
advance-Ahead d n front back e a = record {
  fine = a.fine;
  whole = a.whole;
  small = a.small;
  within = omega (arith, length-Ahead d (front ++ back) a, length-append front back);
  rest =
      sym (drop-drop d.offset n d.source)
      ∙ ap (drop n) a.rest
      ∙ ap (λ k. drop k (front ++ back)) e
      ∙ drop-append front back;
}

pub dec_read-Ahead :
    (d : Decoder) (n : ℕ) (front back : List ℕ)
    → n ≡ length front
    → Ahead d (front ++ back)
    → dec_read n d ≡ (advance d n, some front)
unfolding dec_read
dec_read-Ahead d n front back e a =
    ground (arith, a.fine, length-Ahead d (front ++ back) a, length-append front back, got)
  where
    got : take n (drop d.offset d.source) ≡ front
    got = ap (take n) a.rest ∙ ap (λ k. take k (front ++ back)) e ∙ take-append front back

-- One more field behind `x`, whose low `k` bits are clear.
or_next : (k x y r q t : ℕ) → x ≡ q * 2 ^ k → r ≡ t → t < 2 ^ k → y ≡ q * 2 ^ k + t → bit_or x r ≡ y
or_next k x y r q t e f l g = rw (e, f) (bit_or_disjoint k q t l ∙ sym g)

pub be16_of-be : (v : ℕ) → v < 2 ^ 16 → be16_of (be 2 v) ≡ v
unfolding be16_of
be16_of-be v h =
    or_next 8 _ v _ (v / 2 ^ 8) (v % 2 ^ 8) (omega arith) (omega arith) (omega arith) (omega arith)

pub be32_of-be : (v : ℕ) → v < 2 ^ 32 → be32_of (be 4 v) ≡ v
unfolding be32_of
be32_of-be v h =
    or_next 8 _ v _ (v / 2 ^ 8) (v % 2 ^ 8)
      (or_next 16 _ _ _ (v / 2 ^ 16) (v / 2 ^ 8 % 2 ^ 8 * 2 ^ 8)
        (or_next 24 _ _ _ (v / 2 ^ 24) (v / 2 ^ 16 % 2 ^ 8 * 2 ^ 16) (omega arith) (omega arith)
          (omega arith) (omega arith))
        (omega arith) (omega arith) (omega arith))
      (omega arith) (omega arith) (omega arith)

pub be64_of-be : (v : ℕ) → v < 2 ^ 64 → be64_of (be 8 v) ≡ v
unfolding be64_of
be64_of-be v h =
    or_next 8 _ v _ (v / 2 ^ 8) (v % 2 ^ 8)
      (or_next 16 _ _ _ (v / 2 ^ 16) (v / 2 ^ 8 % 2 ^ 8 * 2 ^ 8)
        (or_next 24 _ _ _ (v / 2 ^ 24) (v / 2 ^ 16 % 2 ^ 8 * 2 ^ 16)
          (or_next 32 _ _ _ (v / 2 ^ 32) (v / 2 ^ 24 % 2 ^ 8 * 2 ^ 24)
            (or_next 40 _ _ _ (v / 2 ^ 40) (v / 2 ^ 32 % 2 ^ 8 * 2 ^ 32)
              (or_next 48 _ _ _ (v / 2 ^ 48) (v / 2 ^ 40 % 2 ^ 8 * 2 ^ 40)
                (or_next 56 _ _ _ (v / 2 ^ 56) (v / 2 ^ 48 % 2 ^ 8 * 2 ^ 48) (omega arith)
                  (omega arith) (omega arith) (omega arith))
                (omega arith) (omega arith) (omega arith))
              (omega arith) (omega arith) (omega arith))
            (omega arith) (omega arith) (omega arith))
          (omega arith) (omega arith) (omega arith))
        (omega arith) (omega arith) (omega arith))
      (omega arith) (omega arith) (omega arith)

-- The four reads, with the bytes that they read ahead.
pub dec_read_byte-Ahead :
    (d : Decoder) (b : ℕ) (back : List ℕ)
    → Ahead d (b ∷ back)
    → dec_read_byte d ≡ (advance d 1, done b)
unfolding dec_read_byte
dec_read_byte-Ahead d b back a = rw (dec_read-Ahead d 1 (b ∷ []) back refl a)

dec_read_be16-Ahead :
    (d : Decoder) (v : ℕ) (back : List ℕ)
    → v < 2 ^ 16
    → Ahead d (be 2 v ++ back)
    → dec_read_be16 d ≡ (advance d 2, done v)
unfolding dec_read_be16
dec_read_be16-Ahead d v back h a = rw (dec_read-Ahead d 2 (be 2 v) back refl a, be16_of-be v h)

dec_read_be32-Ahead :
    (d : Decoder) (v : ℕ) (back : List ℕ)
    → v < 2 ^ 32
    → Ahead d (be 4 v ++ back)
    → dec_read_be32 d ≡ (advance d 4, done v)
unfolding dec_read_be32
dec_read_be32-Ahead d v back h a = rw (dec_read-Ahead d 4 (be 4 v) back refl a, be32_of-be v h)

dec_read_be64-Ahead :
    (d : Decoder) (v : ℕ) (back : List ℕ)
    → v < 2 ^ 64
    → Ahead d (be 8 v ++ back)
    → dec_read_be64 d ≡ (advance d 8, done v)
unfolding dec_read_be64
dec_read_be64-Ahead d v back h a = rw (dec_read-Ahead d 8 (be 8 v) back refl a, be64_of-be v h)

-- The additional information `ai` says that `k` bytes follow, and that they are those of `v`.
abbrev pub Carries : ℕ → ℕ → ℕ → Type 0
Carries ai k v =
    ((ai ≤ 23) × (k ≡ 0) × (v ≡ ai))
    ⊎ ((ai ≡ 24) × (k ≡ 1) × (v < 2 ^ 8))
    ⊎ ((ai ≡ 25) × (k ≡ 2) × (v < 2 ^ 16))
    ⊎ ((ai ≡ 26) × (k ≡ 4) × (v < 2 ^ 32))
    ⊎ ((ai ≡ 27) × (k ≡ 8) × (v < 2 ^ 64))

pub Carries-shortest : (v : ℕ) → v < 2 ^ 64 → Carries (additional v) (follow v) v
unfolding additional follow
Carries-shortest v h = ground arith

dec_argument-Carries :
    (d : Decoder) (mt : Major) (ai k v : ℕ) (back : List ℕ)
    → Carries ai k v
    → Ahead d (be k v ++ back)
    → dec_argument mt ai d
      ≡ (advance d k, done (record { major = mt; additional = ai; argument = v }))
unfolding dec_argument
dec_argument-Carries d mt ai k v back (inl (h, e, g)) a = ground arith
dec_argument-Carries d mt ai k v back (inr (inl (h, e, g))) a =
    rw (h, e, dec_read_byte-Ahead d (v / 1 % 256) back (rw e at a)) (ground arith)
dec_argument-Carries d mt ai k v back (inr (inr (inl (h, e, g)))) a =
    rw (h, e, dec_read_be16-Ahead d v back g (rw e at a))
dec_argument-Carries d mt ai k v back (inr (inr (inr (inl (h, e, g))))) a =
    rw (h, e, dec_read_be32-Ahead d v back g (rw e at a))
dec_argument-Carries d mt ai k v back (inr (inr (inr (inr (h, e, g))))) a =
    rw (h, e, dec_read_be64-Ahead d v back g (rw e at a))

pub byte_fields :
    (mt : Major) (ai : ℕ)
    → ai < 32
    → (major_of (shr (code mt * 32 + ai) 5) ≡ mt) × (bit_and (code mt * 32 + ai) 0x1f ≡ ai)
byte_fields mt ai h =
    let top : shr (code mt * 32 + ai) 5 ≡ code mt = omega arith in
    let low = low_five (code mt * 32 + ai) in (rw top (major_of-code mt), low ∙ omega arith)

-- Where a head in any of the forms of RFC 8949 lies ahead, the shortest or not, `dec_head`
-- gives its major type, additional information and argument, and moves the cursor past it.
pub dec_head-Carries :
    (d : Decoder) (mt : Major) (ai k v : ℕ) (back : List ℕ)
    → Carries ai k v
    → Ahead d ((code mt * 32 + ai) ∷ (be k v ++ back))
    → dec_head d ≡ (advance d (1 + k), done (record { major = mt; additional = ai; argument = v }))
unfolding dec_head
dec_head-Carries d mt ai k v back c a =
    let b = code mt * 32 + ai in
    let (top, low) = byte_fields mt ai (omega arith) in
    let next = advance-Ahead d 1 (b ∷ []) (be k v ++ back) refl a in
    let sum : d.offset + 1 + k ≡ d.offset + (1 + k) = omega arith in
    rw (dec_read_byte-Ahead d b (be k v ++ back) a, top, low)
      (dec_argument-Carries (advance d 1) mt ai k v back c next
        ∙ ap
            (λ n. (
              record d { offset = n },
              done (record { major = mt; additional = ai; argument = v }),
            ))
            sum)

pub dec_head-head :
    (d : Decoder) (mt : Major) (v : ℕ) (back : List ℕ)
    → v < 2 ^ 64
    → Ahead d (head mt v ++ back)
    → dec_head d ≡ (
      advance d (1 + follow v),
      done (record { major = mt; additional = additional v; argument = v }),
    )
unfolding head
dec_head-head d mt v back h a =
    dec_head-Carries d mt (additional v) (follow v) v back (Carries-shortest v h) a
