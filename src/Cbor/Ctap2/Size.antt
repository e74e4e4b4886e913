-- ===== src/Cbor/Ctap2/Size.antt =====
-- `bio_cbor_item_encoded_size` of src/cbor/bio_cbor_ctap2.c: the size of an encoded item, and the
-- bounds of any size that it reports.
use hiya.Base.{
  ℕ, suc, ◌+◌, ◌-◌, ◌*◌, ◌^◌, ◌≤◌, ◌<◌, ◌≡◌, sym, ◌∙◌, ap, false, ◌||◌, List, [], ◌∷◌, ◌++◌, length,
  bit_and, low_five, some, ltb, ◌==◌, if◌then◌else◌, arith, drop, ◌⊎◌, cbor_invalid, drop-append,
  append_assoc, append-nil, length-append,
}
use hiya.Cbor.{Major, code, size_max, add_size}
use hiya.Cbor.Head.{head, be, additional, length-be}
use hiya.Cbor.Tree.{simple, IsValid}
use hiya.Cbor.Tree.Size.{sizes}
use hiya.Cbor.Decoder.{Result, done, fail, at}
use hiya.Cbor.Ctap2.{RawHead, decode_head_raw, size_of_head, size_depth, simple_size}
use hiya.Cbor.Ctap2.Raw.{decode_head_raw-head, decode_head_raw-Carries}

-- A buffer that begins with the bytes `bs`, in memory.
pub record Begins (p : List ℕ) (len : ℕ) (bs : List ℕ) : Type 0 where
  pub rest : List ℕ
  pub split : p ≡ bs ++ rest
  pub whole : len ≡ length p
  pub small : len < 2 ^ 63

-- Behind a prefix, what comes next begins.
pub Begins-drop :
    (p : List ℕ) (len n : ℕ) (xs ys : List ℕ)
    → n ≡ length xs
    → Begins p len (xs ++ ys)
    → Begins (drop n p) (len - n) ys
Begins-drop p len n xs ys e b =
    let q = b.split ∙ append_assoc xs ys b.rest in
    let r : drop n p ≡ ys ++ b.rest =
      ap (drop n) q ∙ ap (λ k. drop k (xs ++ (ys ++ b.rest))) e ∙ drop-append xs (ys ++ b.rest) in
    record {
      rest = b.rest;
      split = r;
      whole = omega (arith, b.whole, ap length q, ap length r, length-append xs (ys ++ b.rest));
      small = omega (arith, b.small);
    }

-- A prefix of what begins.
pub Begins-front :
    (p : List ℕ) (len : ℕ) (xs ys : List ℕ) → Begins p len (xs ++ ys) → Begins p len xs
Begins-front p len xs ys b = record {
  rest = ys ++ b.rest;
  split = b.split ∙ append_assoc xs ys b.rest;
  whole = b.whole;
  small = b.small;
}

pub Begins-le : (p : List ℕ) (len : ℕ) (bs : List ℕ) → Begins p len bs → length bs ≤ len
Begins-le p len bs b = omega (arith, b.whole, ap length b.split, length-append bs b.rest)

-- A call on a head that is read goes on with its `switch`.
behind_head :
    (l : ℕ) (p : List ℕ) (len : ℕ) (h : RawHead)
    → 0 < len
    → decode_head_raw p len ≡ some h
    → size_depth (suc l) p len ≡ size_of_head (size_depth l) h h.major p len
unfolding size_depth
behind_head l p len h pos e = let nz : (len == 0) ≡ false = ground arith in rw (nz, e)

pub head_size :
    (l : ℕ) (mt : Major) (v : ℕ) (p : List ℕ) (len : ℕ) (bs : List ℕ)
    → v < 2 ^ 64
    → Begins p len (head mt v ++ bs)
    → size_depth (suc l) p len
      ≡ size_of_head
          (size_depth l)
          (record { used = length (head mt v); major = mt; value = v })
          mt
          p
          len
head_size l mt v p len bs h b =
    let room = Begins-le p len (head mt v) (Begins-front p len (head mt v) bs b) in
    let e = b.split ∙ append_assoc (head mt v) bs b.rest in
    behind_head l p len _ (omega sizes) (rw e (decode_head_raw-head mt v len (bs ++ b.rest) h room))

-- The first byte of a head.
first_byte :
    (mt : Major) (v : ℕ) (p : List ℕ) (bs : List ℕ)
    → p ≡ head mt v ++ bs
    → at p 0 ≡ code mt * 32 + additional v
unfolding head
first_byte mt v p bs e = ap (λ x. at x 0) e

string_size :
    (child : List ℕ → ℕ → Result ℕ) (mt : Major) (used : ℕ) (p : List ℕ) (len n : ℕ)
    → used + n ≤ len
    → len < 2 ^ 63
    → ((ltb (size_max - used) n || ltb len (add_size used n)) ≡ false)
      × (add_size used n ≡ used + n)
string_size child mt used p len n h l = (ground arith, omega arith)

-- An item that has its whole encoding at the start of the buffer is measured.
abbrev pub Measured : ℕ → List ℕ → ℕ → List ℕ → Type 0
Measured l p len bs = size_depth l p len ≡ done (length bs)

pub simple-Measured :
    (l v : ℕ) (p : List ℕ) (len : ℕ)
    → IsValid (simple v)
    → Begins p len (head Major.simple v)
    → Measured (suc l) p len (head Major.simple v)
unfolding size_of_head
simple-Measured l v p len h b =
    let hd = head Major.simple v in
    let room = Begins-le p len hd b in
    let low : bit_and (at p 0) 0x1f ≡ additional v =
      rw (first_byte Major.simple v p b.rest b.split)
        (low_five (7 * 32 + additional v) ∙ omega (arith, small_ai)) in
    let plain : simple_size (additional v) (length hd) ≡ length hd = ground (arith, small_ai) in
    let fits : ltb len (length hd) ≡ false = ground arith in
    head_size l Major.simple v p len [] (omega arith) (record {
      rest = b.rest;
      split = b.split ∙ ap (λ x. x ++ b.rest) (sym (append-nil hd));
      whole = b.whole;
      small = b.small;
    })
    ∙ rw (low, plain, fits)
  where
    small_ai : additional v ≤ 24
    small_ai = unfold additional in ground arith

pub bits-Measured :
    (l ai k v : ℕ) (p : List ℕ) (len : ℕ)
    → (ai ≡ 26) × (k ≡ 4) × (v < 2 ^ 32) ⊎ (ai ≡ 27) × (k ≡ 8) × (v < 2 ^ 64)
    → Begins p len ((7 * 32 + ai) ∷ be k v)
    → Measured (suc l) p len ((7 * 32 + ai) ∷ be k v)
unfolding size_of_head
bits-Measured l ai k v p len h b =
    let room = Begins-le p len ((7 * 32 + ai) ∷ be k v) b in
    let low : bit_and (at p 0) 0x1f ≡ ai = rw b.split (low_five (7 * 32 + ai) ∙ omega arith) in
    let wide : simple_size ai (1 + k) ≡ 1 + k = ground arith in
    let fits : ltb len (1 + k) ≡ false = ground (arith, length-be k v) in
    behind_head l p len (record { used = 1 + k; major = Major.simple; value = v }) (omega arith)
      (rw b.split (
        decode_head_raw-Carries Major.simple ai k v len b.rest (omega arith)
          (omega (arith, length-be k v))))
    ∙ rw (low, wide, fits) (ap done (omega (arith, length-be k v)))

pub bytes-Measured :
    (l : ℕ) (mt : Major) (bs p : List ℕ) (len : ℕ)
    → ((child : List ℕ → ℕ → Result ℕ) (h : RawHead)
        → size_of_head child h mt p len ≡ (
            if ltb (size_max - h.used) h.value || ltb len (add_size h.used h.value)
            then fail cbor_invalid
            else done (add_size h.used h.value)))
    → length bs < 2 ^ 63
    → Begins p len (head mt (length bs) ++ bs)
    → Measured (suc l) p len (head mt (length bs) ++ bs)
bytes-Measured l mt bs p len f h b =
    let n = length bs in
    let room = Begins-le p len (head mt n ++ bs) b in
    let (fits, sum) =
      string_size (size_depth l) mt (length (head mt n)) p len n (omega sizes) b.small in
    head_size l mt n p len bs (omega arith) b
    ∙ f (size_depth l) _
    ∙ rw (fits, sum) (ap done (omega sizes))
