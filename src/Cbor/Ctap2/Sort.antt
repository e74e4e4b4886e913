-- ===== src/Cbor/Ctap2/Sort.antt =====
-- `bio_cbor_sort_map_ctap2` of src/cbor/bio_cbor_ctap2.c. `qsort` is a parameter, and whether the
-- two allocations succeed is an argument. A pointer into the buffer is a position.
use hiya.Base.{
  ℕ, zero, suc, ◌≡◌, ◌≢◌, refl, Bool, true, false, not, List, [], ◌∷◌, ◌++◌, take, drop, memcpy,
  ltb, ◌==◌, if◌then◌else◌, Option, none, some, ℤ, pos, negsuc, Status, ok, nomem, invalid_param,
  cbor_invalid,
}
use hiya.Cbor.{Major, code, add_size, sub_size}
use hiya.Cbor.Decoder.{Result, done, fail}
use hiya.Cbor.Ctap2.{RawHead, decode_head_raw, item_encoded_size}

-- `cbor_kv_pair_t`.
pub record KvPair : Type 0 where
  pub key_at : ℕ
  pub key_len : ℕ
  pub val_at : ℕ
  pub val_len : ℕ

-- The sign of `memcmp` on two blocks of the same size.
unfoldable pub memcmp : List ℕ → List ℕ → ℤ
memcmp [] ys = pos 0
memcmp (x ∷ xs) [] = pos 0
memcmp (x ∷ xs) (y ∷ ys) =
    let later = memcmp xs ys in if ltb x y then negsuc 0 else if ltb y x then pos 1 else later

abbrev pub key_bytes : List ℕ → KvPair → List ℕ
key_bytes buf p = take p.key_len (drop p.key_at buf)

abbrev pub val_bytes : List ℕ → KvPair → List ℕ
val_bytes buf p = take p.val_len (drop p.val_at buf)

-- `ctap2_key_compare`.
unfoldable pub ctap2_key_compare : List ℕ → KvPair → KvPair → ℤ
ctap2_key_compare buf a b =
    if ltb a.key_len b.key_len
    then negsuc 0
    else if ltb b.key_len a.key_len
    then pos 1
    else memcmp (key_bytes buf a) (key_bytes buf b)

abbrev pub on_size {ℓ} : {A : Type ℓ} → Result ℕ → (ℕ → Result A) → Result A
on_size (done sz) f = f sz
on_size (fail rc) f = fail rc

abbrev pub add_pair : KvPair → Result (List KvPair) → Result (List KvPair)
add_pair p (done ps) = done (p ∷ ps)
add_pair p (fail rc) = fail rc

-- The loop that finds the pairs, from `at` on.
unfoldable pub find_pairs : ℕ → List ℕ → ℕ → ℕ → Result (List KvPair)
find_pairs zero buf len at = done []
find_pairs (suc n) buf len at =
    on_size (item_encoded_size (drop at buf) (sub_size len at)) λ key_sz.
      let val_at = add_size at key_sz in
      on_size (item_encoded_size (drop val_at buf) (sub_size len val_at)) λ val_sz.
        add_pair (record { key_at = at; key_len = key_sz; val_at = val_at; val_len = val_sz })
          (find_pairs n buf len (add_size val_at val_sz))

-- The loop that fills `sorted_body`.
unfoldable pub body_of : List ℕ → List KvPair → List ℕ
body_of buf [] = []
body_of buf (p ∷ ps) = key_bytes buf p ++ (val_bytes buf p ++ body_of buf ps)

-- What follows once the pairs are found.
unfoldable pub write_back :
    ((KvPair → KvPair → ℤ) → List KvPair → List KvPair)
    → Bool
    → List ℕ
    → ℕ
    → Result (List KvPair)
    → List ℕ × Status
write_back qsort body_memory buf head_sz (fail rc) = (buf, rc)
write_back qsort body_memory buf head_sz (done pairs) =
    if body_memory
    then (memcpy buf head_sz (body_of buf (qsort (ctap2_key_compare buf) pairs)), ok)
    else (buf, nomem)

unfoldable pub sort_pairs :
    ((KvPair → KvPair → ℤ) → List KvPair → List KvPair)
    → Bool
    → Bool
    → List ℕ
    → ℕ
    → Option RawHead
    → List ℕ × Status
sort_pairs qsort pairs_memory body_memory buf len none = (buf, cbor_invalid)
sort_pairs qsort pairs_memory body_memory buf len (some h) =
    if not (code h.major == code Major.map)
    then (buf, cbor_invalid)
    else if h.value == 0
    then (buf, ok)
    else if ltb 256 h.value
    then (buf, cbor_invalid)
    else if not pairs_memory
    then (buf, nomem)
    else write_back qsort body_memory buf h.used (find_pairs h.value buf len h.used)

-- `bio_cbor_sort_map_ctap2`: the buffer that it leaves, and its status.
unfoldable pub sort_map_ctap2 :
    ((KvPair → KvPair → ℤ) → List KvPair → List KvPair) → Bool → Bool → List ℕ → ℕ → List ℕ × Status
sort_map_ctap2 qsort pairs_memory body_memory buf len =
    if len == 0
    then (buf, invalid_param)
    else sort_pairs qsort pairs_memory body_memory buf len (decode_head_raw buf len)

-- The buffer is as it was, or the call succeeded.
abbrev Untouched : List ℕ → List ℕ × Status → Type 0
Untouched buf r = r.1 ≢ ok → r.0 ≡ buf

Untouched-if :
    (buf : List ℕ) (b : Bool) (x y : List ℕ × Status)
    → Untouched buf x
    → Untouched buf y
    → Untouched buf (if b then x else y)
Untouched-if buf true x y f g = f
Untouched-if buf false x y f g = g

write_back-Untouched :
    (qsort : (KvPair → KvPair → ℤ) → List KvPair → List KvPair) (b : Bool) (buf : List ℕ) (n : ℕ)
    (r : Result (List KvPair))
    → Untouched buf (write_back qsort b buf n r)
unfolding write_back
write_back-Untouched qsort b buf n (fail rc) h = refl
write_back-Untouched qsort true buf n (done pairs) h = absurd (h refl)
write_back-Untouched qsort false buf n (done pairs) h = refl

sort_pairs-Untouched :
    (qsort : (KvPair → KvPair → ℤ) → List KvPair → List KvPair) (a b : Bool) (buf : List ℕ)
    (len : ℕ) (o : Option RawHead)
    → Untouched buf (sort_pairs qsort a b buf len o)
unfolding sort_pairs
sort_pairs-Untouched qsort a b buf len none = λ _. refl
sort_pairs-Untouched qsort a b buf len (some h) =
    Untouched-if buf (not (code h.major == code Major.map)) _ _ (λ _. refl)
      (Untouched-if buf (h.value == 0) _ _ (λ _. refl)
        (Untouched-if buf (ltb 256 h.value) _ _ (λ _. refl)
          (Untouched-if buf (not a) _ _ (λ _. refl)
            (write_back-Untouched qsort b buf h.used (find_pairs h.value buf len h.used)))))

-- Whatever `qsort` does and whichever allocation fails, a call of `bio_cbor_sort_map_ctap2`
-- that does not return BIO_OK leaves the buffer as it was.
pub sort_map_ctap2-error :
    (qsort : (KvPair → KvPair → ℤ) → List KvPair → List KvPair) (pairs_memory body_memory : Bool)
    (buf : List ℕ) (len : ℕ)
    → (sort_map_ctap2 qsort pairs_memory body_memory buf len).1 ≢ ok
    → (sort_map_ctap2 qsort pairs_memory body_memory buf len).0 ≡ buf
unfolding sort_map_ctap2
sort_map_ctap2-error qsort a b buf len =
    Untouched-if buf (len == 0) _ _ (λ _. refl)
      (sort_pairs-Untouched qsort a b buf len (decode_head_raw buf len))
