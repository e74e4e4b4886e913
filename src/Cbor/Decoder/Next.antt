-- ===== src/Cbor/Decoder/Next.antt =====
-- `bio_cbor_decode_next` on the bytes that RFC 8949 gives each kind of item.
use hiya.Base.{ℕ, ◌+◌, ◌*◌, ◌^◌, ◌≤◌, ◌<◌, ◌≡◌, sym, ap, List, ◌++◌, length, arith, length-append}
use hiya.Cbor.{Major, sub_size}
use hiya.Cbor.Head.{head, additional, follow, length-head}
use hiya.Cbor.Decoder.{Decoder, Item, done, array, map, item_of, string_item, decode_next}
use hiya.Cbor.Decoder.Read.{Ahead, advance, advance-Ahead, length-Ahead, dec_head-head}

-- What `decode_next` does once the head is read.
pub decode_next-head :
    (d : Decoder) (mt : Major) (v : ℕ) (back : List ℕ)
    → v < 2 ^ 64
    → Ahead d (head mt v ++ back)
    → (decode_next d ≡ item_of mt (additional v) v (advance d (1 + follow v)))
      × Ahead (advance d (1 + follow v)) back
unfolding decode_next
decode_next-head d mt v back h a = (
  rw (dec_head-head d mt v back h a),
  advance-Ahead d (1 + follow v) (head mt v) back (sym (length-head mt v)) a,
)

-- The bytes left, as the source computes them.
pub room-Ahead : (d : Decoder) (bs : List ℕ) → Ahead d bs → sub_size d.size d.offset ≡ length bs
room-Ahead d bs a = omega (arith, length-Ahead d bs a, a.small)

string_item-Ahead :
    (d : Decoder) (make : ℕ → ℕ → Item) (bs back : List ℕ)
    → Ahead d (bs ++ back)
    → string_item make (length bs) d ≡ (advance d (length bs), done (make d.offset (length bs)))
unfolding string_item
string_item-Ahead d make bs back a = ground (
  arith,
  room-Ahead d (bs ++ back) a,
  length-Ahead d (bs ++ back) a,
  length-append bs back,
  a.small,
)

pub advance-advance : (d : Decoder) (m n k : ℕ) → m + n ≡ k → advance (advance d m) n ≡ advance d k
advance-advance d m n k e =
    let sum : d.offset + m + n ≡ d.offset + k = omega arith in ap (λ i. record d { offset = i }) sum

pub next_string :
    (d : Decoder) (mt : Major) (make : ℕ → ℕ → Item) (bs back : List ℕ)
    → ((ai v : ℕ) (d' : Decoder) → item_of mt ai v d' ≡ string_item make v d')
    → length bs < 2 ^ 63
    → Ahead d (head mt (length bs) ++ (bs ++ back))
    → let n = length bs in
      decode_next d
      ≡ (advance d (length (head mt n ++ bs)), done (make (d.offset + (1 + follow n)) n))
next_string d mt make bs back f h a =
    let n = length bs in
    let (e, a') = decode_next-head d mt n (bs ++ back) (omega arith) a in
    rw (e, f, string_item-Ahead (advance d (1 + follow n)) make bs back a')
      (ap (λ d'. (d', done (make (d.offset + (1 + follow n)) n)))
        (advance-advance d (1 + follow n) n (length (head mt n ++ bs))
          (omega (arith, length-append (head mt n) bs, length-head mt n))))

-- A container is accepted when the items that it promises can still follow.
pub item_of-array :
    (d : Decoder) (ai n : ℕ) (back : List ℕ)
    → n ≤ length back
    → Ahead d back
    → item_of Major.array ai n d ≡ (d, done (array n))
unfolding item_of
item_of-array d ai n back h a = ground (arith, room-Ahead d back a, length-Ahead d back a, a.small)

pub item_of-map :
    (d : Decoder) (ai n : ℕ) (back : List ℕ)
    → n * 2 ≤ length back
    → Ahead d back
    → item_of Major.map ai n d ≡ (d, done (map n))
unfolding item_of
item_of-map d ai n back h a = ground (arith, room-Ahead d back a, length-Ahead d back a, a.small)
