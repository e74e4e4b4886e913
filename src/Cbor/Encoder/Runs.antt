-- ===== src/Cbor/Encoder/Runs.antt =====
-- Runs of the public calls of src/cbor/bio_cbor_encoder.c, in any order and past any error.
use hiya.Base.{
  ℕ, ◌/◌, ◌*◌, ◌^◌, ◌<◌, ◌≡◌, ◌&&◌, ◌∙◌, Bool, true, false, List, [], ◌∷◌, length, length-take,
  Option, none, some, Status, ok, invalid_param, arith, ltb, leb, if◌then◌else◌, ℤ, pos, negsuc,
}
use hiya.Cbor.{Major, max_depth, size_max}
use hiya.Cbor.Encoder.{
  Encoder, Outcome, ◌>>◌, resume, track, enc_write, enc_write_byte, enc_write_be16, enc_write_be32,
  enc_write_be64, enc_head,
}
use hiya.Cbor.Encoder.Calls.{
  encode_uint, encode_negint, encode_int, encode_bstr, encode_tstr, encode_tstr_z, encode_string,
  encode_array, encode_map, encode_tag, encode_bool, encode_null, encode_undefined, encode_simple,
  encode_float, encode_double, push_frame, bytes_at, is_null,
}
use hiya.Cbor.Encoder.Safe.{
  InMemory, Kept, Leaves, Keeps, Kept-refl, Kept-trans, >>-Keeps, if-Leaves, fail-Kept,
  enc_write-Keeps, enc_write_byte-Keeps, enc_write_be32-Keeps, enc_write_be64-Keeps, enc_head-Keeps,
  track-Keeps, item-Keeps, push_frame-Leaves,
}

-- The public calls that write.
pub data Call : Type 0 where
  uint : ℕ → Call
  negint : ℕ → Call
  int : ℤ → Call
  bstr : Option (List ℕ) → ℕ → Call
  tstr : Option (List ℕ) → ℕ → Call
  tstr_z : Option (List ℕ) → Call
  array : ℕ → Call
  map : ℕ → Call
  tag : ℕ → Call
  bool : Bool → Call
  null : Call
  undefined : Call
  simple : ℕ → Call
  float : ℕ → Call
  double : ℕ → Call

unfoldable pub call : Call → Encoder → Outcome
call (uint v) = encode_uint v
call (negint v) = encode_negint v
call (int z) = encode_int z
call (bstr p len) = encode_bstr p len
call (tstr p len) = encode_tstr p len
call (tstr_z p) = encode_tstr_z p
call (array n) = encode_array n
call (map n) = encode_map n
call (tag n) = encode_tag n
call (bool b) = encode_bool b
call null = encode_null
call undefined = encode_undefined
call (simple v) = encode_simple v
call (float bits) = encode_float bits
call (double bits) = encode_double bits

-- The calls one after another, whatever each returns.
unfoldable pub call_all : List Call → Encoder → Encoder
call_all [] e = e
call_all (c ∷ cs) e = call_all cs (call c e).0

-- A head writes bytes only: the depth stays.
record SameDepth (k : Encoder → Outcome) : Type 0 where
  same : (e : Encoder) → (k e).0.depth ≡ e.depth

enc_write-depth : (bs : List ℕ) (e : Encoder) → (enc_write bs e).0.depth ≡ e.depth
unfolding enc_write
enc_write-depth bs e = ground arith

enc_write-SameDepth : (bs : List ℕ) → SameDepth (enc_write bs)
enc_write-SameDepth bs = record { same = enc_write-depth bs }

resume-depth :
    (d e : Encoder) (s : Status) (k : Encoder → Outcome)
    → e.depth ≡ d.depth
    → SameDepth k
    → (resume k e s).0.depth ≡ d.depth
resume-depth d e ok k p f = f.same e ∙ p
resume-depth d e _ k p f = p

>>-SameDepth : {m k : Encoder → Outcome} → SameDepth m → SameDepth k → SameDepth (m >> k)
>>-SameDepth {m} {k} f g = record { same = λ e. resume-depth e (m e).0 (m e).1 k (f.same e) g }

if-SameDepth :
    (b : Bool) {m k : Encoder → Outcome}
    → SameDepth m
    → SameDepth k
    → SameDepth (if b then m else k)
if-SameDepth true f g = f
if-SameDepth false f g = g

enc_head-SameDepth : (mt : Major) (v : ℕ) → SameDepth (enc_head mt v)
unfolding enc_head enc_write_byte enc_write_be16 enc_write_be32 enc_write_be64
enc_head-SameDepth mt v = if-SameDepth (leb v 23) (enc_write-SameDepth _) (
    if-SameDepth (leb v 0xff) (>>-SameDepth (enc_write-SameDepth _) (enc_write-SameDepth _)) (
      if-SameDepth (leb v 0xffff) (>>-SameDepth (enc_write-SameDepth _) (enc_write-SameDepth _)) (
        if-SameDepth (leb v 0xffff_ffff)
          (>>-SameDepth (enc_write-SameDepth _) (enc_write-SameDepth _))
          (>>-SameDepth (enc_write-SameDepth _) (enc_write-SameDepth _)))))

push-Leaves :
    (d e : Encoder) (s : Status) (mt : Major) (items count : ℕ)
    → Kept d e
    → e.depth < max_depth
    → Leaves d (resume (push_frame mt items count) e s)
push-Leaves d e ok mt items count k h = record {
  kept = Kept-trans d e _ k (push_frame-Leaves mt items count e k.safe h).kept;
}
push-Leaves d e _ mt items count k h = record { kept = k }

container-Leaves :
    (mt : Major) (items count : ℕ) (e : Encoder)
    → InMemory e
    → e.depth < max_depth
    → Leaves e ((enc_head mt count >> push_frame mt items count) e)
container-Leaves mt items count e m d =
    push-Leaves e (enc_head mt count e).0 (enc_head mt count e).1 mt items count
      ((enc_head-Keeps mt count).keeps e m).kept
      (omega (arith, (enc_head-SameDepth mt count).same e))

string-Keeps :
    (mt : Major) (p : Option (List ℕ)) (len : ℕ) → len < 2 ^ 63 → Keeps (encode_string mt p len)
unfolding encode_string
string-Keeps mt p len h = record { keeps = go }
  where
    short : (q : Option (List ℕ)) → length (bytes_at q len) < 2 ^ 63
    short none = omega arith
    short (some bs) = omega (arith, length-take len bs)

    go :
        (e : Encoder)
        → InMemory e
        → Leaves e (
            if ltb 0 len && is_null p
            then (e, invalid_param)
            else if ltb 0 len
            then (enc_head mt len >> enc_write (bytes_at p len) >> track) e
            else (enc_head mt len >> track) e)
    go e m =
        if-Leaves (ltb 0 len && is_null p) (λ _. record { kept = Kept-refl e m })
          λ _.
            if-Leaves (ltb 0 len)
              (λ _.
                let written = >>-Keeps (enc_head-Keeps mt len) (enc_write-Keeps _ (short p)) in
                (>>-Keeps written track-Keeps).keeps e m)
              (λ _. (item-Keeps mt len).keeps e m)

array-Leaves : (n : ℕ) (e : Encoder) → InMemory e → Leaves e (encode_array n e)
unfolding encode_array
array-Leaves n e m =
    if-Leaves (leb max_depth e.depth) (λ _. record { kept = fail-Kept e m })
      λ p. container-Leaves Major.array n n e m (ground arith)

map-Leaves : (n : ℕ) (e : Encoder) → InMemory e → Leaves e (encode_map n e)
unfolding encode_map
map-Leaves n e m =
    if-Leaves (leb max_depth e.depth) (λ _. record { kept = fail-Kept e m })
      λ p.
        if-Leaves (ltb (size_max / 2) n) (λ _. record { kept = fail-Kept e m })
          λ _. container-Leaves Major.map (n * 2) n e m (ground arith)

simple-Leaves : (v : ℕ) (e : Encoder) → InMemory e → Leaves e (encode_simple v e)
unfolding encode_simple
simple-Leaves v e m =
    if-Leaves (leb 24 v && leb v 31) (λ _. record { kept = Kept-refl e m })
      λ _.
        if-Leaves (leb v 23) (λ _. (item-Keeps Major.simple v).keeps e m)
          λ _.
            let written = >>-Keeps (enc_write_byte-Keeps 0xf8) (enc_write_byte-Keeps v) in
            (>>-Keeps written track-Keeps).keeps e m

-- The arguments of a call are objects in memory.
abbrev pub Sound : Call → Type 0
Sound (bstr p len) = len < 2 ^ 63
Sound (tstr p len) = len < 2 ^ 63
Sound (tstr_z (some str)) = length str < 2 ^ 63
Sound _ = Unit {0}

abbrev pub AllSound : List Call → Type 0
AllSound [] = Unit {0}
AllSound (c ∷ cs) = Sound c × AllSound cs

call-Kept : (c : Call) (e : Encoder) → Sound c → InMemory e → Kept e (call c e).0
unfolding call encode_uint encode_negint encode_int encode_bstr encode_tstr encode_tstr_z encode_tag
    encode_bool encode_null encode_undefined encode_float encode_double
call-Kept (uint v) e s m = ((item-Keeps Major.uint v).keeps e m).kept
call-Kept (negint v) e s m = ((item-Keeps Major.negint v).keeps e m).kept
call-Kept (int (pos n)) e s m = ((item-Keeps Major.uint n).keeps e m).kept
call-Kept (int (negsuc n)) e s m = ((item-Keeps Major.negint n).keeps e m).kept
call-Kept (bstr p len) e s m = ((string-Keeps Major.bstr p len s).keeps e m).kept
call-Kept (tstr p len) e s m = ((string-Keeps Major.tstr p len s).keeps e m).kept
call-Kept (tstr_z none) e s m = Kept-refl e m
call-Kept (tstr_z (some str)) e s m =
    ((string-Keeps Major.tstr (some str) (length str) s).keeps e m).kept
call-Kept (array n) e s m = (array-Leaves n e m).kept
call-Kept (map n) e s m = (map-Leaves n e m).kept
call-Kept (tag n) e s m = ((enc_head-Keeps Major.tag n).keeps e m).kept
call-Kept (bool b) e s m = ((item-Keeps Major.simple _).keeps e m).kept
call-Kept null e s m = ((item-Keeps Major.simple _).keeps e m).kept
call-Kept undefined e s m = ((item-Keeps Major.simple _).keeps e m).kept
call-Kept (simple v) e s m = (simple-Leaves v e m).kept
call-Kept (float bits) e s m =
    let written = >>-Keeps (enc_write_byte-Keeps 0xfa) (enc_write_be32-Keeps bits) in
    ((>>-Keeps written track-Keeps).keeps e m).kept
call-Kept (double bits) e s m =
    let written = >>-Keeps (enc_write_byte-Keeps 0xfb) (enc_write_be64-Keeps bits) in
    ((>>-Keeps written track-Keeps).keeps e m).kept

-- Any sequence of encoder calls with arguments that are objects in memory, failing calls
-- included, from an encoder that is in memory: the encoder stays in memory (the buffer has its
-- capacity, the cursor is within it, the stack has 16 slots and the depth is within them), the
-- capacity is the same, the cursor does not move back, and the bytes written before are the
-- same.
pub call_all-Kept :
    (cs : List Call) (e : Encoder) → AllSound cs → InMemory e → Kept e (call_all cs e)
unfolding call_all
call_all-Kept [] e s m = Kept-refl e m
call_all-Kept (c ∷ cs) e (s, ss) m =
    let k = call-Kept c e s m in
    Kept-trans e (call c e).0 _ k (call_all-Kept cs (call c e).0 ss k.safe)
