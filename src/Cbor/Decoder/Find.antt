-- ===== src/Cbor/Decoder/Find.antt =====
-- `bio_cbor_map_find_uint_key` and `bio_cbor_map_find_tstr_key` of src/cbor/bio_cbor_decoder.c on
-- an encoded map.
use hiya.Base.{
  ℕ, ◌+◌, ◌≤◌, ◌≡◌, refl, ◌∙◌, ap, Bool, false, List, ◌++◌, length, not_found, Option, none, some,
  if◌then◌else◌, Bool-cases, inl, inr, ◌==◌,
}
use mathlib.Core.Option
use hiya.Cbor.{max_depth}
use hiya.Cbor.Tree.{
  Tree, Pairs, empty, pair, count_pairs, encode, encode_pairs, ArePairsValid, level,
}
use hiya.Cbor.Decoder.{Decoder, Item, done, fail, Reply}
use hiya.Cbor.Decoder.Calls.{find_key, is_uint_key, map_find_uint_key}
use hiya.Cbor.Decoder.Read.{Ahead, advance, advance-Ahead}
use hiya.Cbor.Decoder.Next.{advance-advance}
use hiya.Cbor.Decoder.Items.{decoded, consumed, decode_next-encode, regroup}
use hiya.Cbor.Decoder.Skip.{skip-encode}

-- Keys that a head and a payload make up, so no containers and no tags, and values that can be
-- skipped.
abbrev pub Searchable : Pairs → Type 0
Searchable empty = Unit {0}
Searchable (pair k v ps) = (consumed k ≡ length (encode k)) × (level v ≤ max_depth) × Searchable ps

abbrev pub is_uint : ℕ → Tree → Bool
is_uint key k = elim k [ Tree.uint v ↦ v == key | _ ↦ false ]

-- How many bytes behind the head of the map the value of the first matching key begins.
unfoldable pub value_at : (Tree → Bool) → Pairs → Option ℕ
value_at is_key empty = none
value_at is_key (pair k v ps) =
    if is_key k
    then some (length (encode k))
    else Option.map (λ n. length (encode k) + length (encode v) + n) (value_at is_key ps)

-- The cursor at a value, or back where the search began.
abbrev pub found : Decoder → ℕ → Option ℕ → Reply (Unit {0})
found d start none = (record d { offset = start }, fail not_found)
found d start (some n) = (advance d n, done tt)

found-shift :
    (d : Decoder) (start m : ℕ) (o : Option ℕ)
    → found (advance d m) start o ≡ found d start (Option.map (λ n. m + n) o)
found-shift d start m none = refl
found-shift d start m (some n) = ap (λ d'. (d', done tt)) (advance-advance d m n (m + n) refl)

module _ (is_key : Tree → Bool) (matches : Item → Decoder → Bool)
    (agree : (k : Tree) (at : ℕ) (d : Decoder) → matches (decoded k at) d ≡ is_key k) where
  find_key-found :
      (ps : Pairs) (start : ℕ) (d : Decoder) (back : List ℕ)
      → ArePairsValid ps
      → Searchable ps
      → Ahead d (encode_pairs ps ++ back)
      → find_key matches start (count_pairs ps) d ≡ found d start (value_at is_key ps)
  unfolding find_key value_at encode_pairs
  find_key-found empty start d back ok_ps s a = refl
  find_key-found (pair k v ps) start d back (ok_k, ok_v, ok_ps) (sk, sv, ss) a =
      let a₁ = regroup d (encode k) (encode v ++ encode_pairs ps) back a in
      let d₁ = advance d (length (encode k)) in
      let b = advance-Ahead d _ (encode k) _ refl a₁ in
      let b₁ = regroup d₁ (encode v) (encode_pairs ps) back b in
      let c = advance-Ahead d₁ _ (encode v) _ refl b₁ in
      let next = decode_next-encode k d _ ok_k a₁ in
      let past = skip-encode v d₁ _ ok_v sv b₁ in
      elim (Bool-cases (is_key k)) [
        | inl p ↦ rw (next, agree, p, sk)
        | inr p ↦
            rw (next, agree, p, sk, past)
              (find_key-found ps start _ back ok_ps ss c
                ∙ ap (λ x. found x start (value_at is_key ps)) (advance-advance d _ _ _ refl)
                ∙ found-shift d start (length (encode k) + length (encode v)) (value_at is_key ps))
      ]

is_uint_agrees :
    (key : ℕ) (k : Tree) (at : ℕ) (d : Decoder) → is_uint_key key (decoded k at) d ≡ is_uint key k
unfolding is_uint_key
is_uint_agrees key (Tree.uint v) at d = refl
is_uint_agrees key _ at d = refl

-- Behind the head of an encoded map with valid pairs whose keys are neither containers nor tags
-- and whose values nest at most 16 levels deep, `bio_cbor_map_find_uint_key` stops at the value
-- of the first pair whose key is the given integer; without such a pair it returns
-- BIO_ERR_NOT_FOUND with the cursor back where it was.
pub map_find_uint_key-found :
    (ps : Pairs) (key : ℕ) (d : Decoder) (back : List ℕ)
    → ArePairsValid ps
    → Searchable ps
    → Ahead d (encode_pairs ps ++ back)
    → map_find_uint_key (count_pairs ps) key d ≡ found d d.offset (value_at (is_uint key) ps)
unfolding map_find_uint_key
map_find_uint_key-found ps key d back v s a =
    find_key-found (is_uint key) (is_uint_key key) (is_uint_agrees key) ps d.offset d back v s a
