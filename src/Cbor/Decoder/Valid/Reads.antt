-- ===== src/Cbor/Decoder/Valid/Reads.antt =====
-- Reads and heads of src/cbor/bio_cbor_decoder.c on any input.
use hiya.Base.{
  ℕ, ◌+◌, ◌^◌, ◌≤◌, ◌<◌, ◌≡◌, refl, sym, ◌∙◌, ap, Bool, true, false, List, length, arith, Status,
  cbor_invalid, ◌⊎◌, take, drop, some, none, Bool-cases, inl, inr, ltb, leb, ◌==◌, if◌then◌else◌,
}
use hiya.Cbor.{Major, add_size}
use hiya.Cbor.Decoder.{
  Decoder, Head, done, fail, Reply, and_then, ◌>>=◌, refuse, read_as, head_done, dec_read,
  dec_read_byte, dec_read_be16, dec_read_be32, dec_read_be64, dec_head, dec_argument,
}

-- The cursor is inside the buffer, which is an object in memory.
pub record InBounds (d : Decoder) : Type 0 where
  pub whole : d.size ≡ length d.source
  pub small : d.size < 2 ^ 63
  pub within : d.offset ≤ d.size

-- The buffer is the same, and the cursor has not moved back.
pub record Kept (d d' : Decoder) : Type 0 where
  pub source_same : d'.source ≡ d.source
  pub size_same : d'.size ≡ d.size
  pub forward : d.offset ≤ d'.offset
  pub inside : d'.offset ≤ d'.size

pub Kept-refl : (d : Decoder) → InBounds d → Kept d d
Kept-refl d b = record {
  source_same = refl;
  size_same = refl;
  forward = omega arith;
  inside = b.within;
}

pub Kept-trans : (d e f : Decoder) → Kept d e → Kept e f → Kept d f
Kept-trans d e f p q = record {
  source_same = q.source_same ∙ p.source_same;
  size_same = q.size_same ∙ p.size_same;
  forward = omega (arith, p.forward, q.forward);
  inside = q.inside;
}

pub Kept-InBounds : (d e : Decoder) → InBounds d → Kept d e → InBounds e
Kept-InBounds d e b k = record {
  whole = k.size_same ∙ b.whole ∙ ap length (sym k.source_same);
  small = omega (arith, k.size_same, b.small);
  within = k.inside;
}

-- A call from `d`: it succeeds with a value of which `P` holds, or it fails and sets the error
-- flag; on both ways the cursor stays inside the buffer.
pub data Step {ℓ} {A : Type ℓ} (P : A → Decoder → Type 0) (d : Decoder) : Reply A → Type ℓ where
  good : {e : Decoder} {a : A} → Kept d e → P a e → Step P d (e, done a)
  bad : {e : Decoder} {s : Status} → Kept d e → e.error ≡ true → Step P d (e, fail s)

pub Step-after {ℓ} :
    {A : Type ℓ} {Q : A → Decoder → Type 0} {d e : Decoder} {r : Reply A}
    → Kept d e
    → Step Q e r
    → Step Q d r
Step-after k (good k' q) = good (Kept-trans _ _ _ k k') q
Step-after k (bad k' q) = bad (Kept-trans _ _ _ k k') q

-- One call, and then the rest.
pub Step-then {ℓ κ} :
    {A : Type ℓ} {B : Type κ} {P : A → Decoder → Type 0} {Q : B → Decoder → Type 0} {d : Decoder}
    {r : Reply A} (f : A → Decoder → Reply B)
    → Step P d r
    → ((a : A) (e : Decoder) → Kept d e → P a e → Step Q e (f a e))
    → Step Q d (and_then r.0 r.1 f)
Step-then f (good {e} {a} k p) g = Step-after k (g a e k p)
Step-then f (bad k p) g = bad k p

pub refuse-Step {ℓ} :
    {A : Type ℓ} {P : A → Decoder → Type 0} (d : Decoder) → InBounds d → Step P d (refuse d)
refuse-Step d b =
    bad (record { source_same = refl; size_same = refl; forward = omega arith; inside = b.within })
      refl

pub Step-weaken {ℓ} :
    {A : Type ℓ} {P Q : A → Decoder → Type 0} {d : Decoder} {r : Reply A}
    → Step P d r
    → ((a : A) (e : Decoder) → P a e → Q a e)
    → Step Q d r
Step-weaken (good {e} {a} k p) f = good k (f a e p)
Step-weaken (bad k p) f = bad k p

-- `n` bytes further on.
abbrev pub Past : ℕ → Decoder → ℕ → Decoder → Type 0
Past n d v e = e.offset ≡ d.offset + n

abbrev refused : Decoder → Decoder
refused d = record d { error = true; err_code = cbor_invalid }

refused-Kept : (d : Decoder) → InBounds d → Kept d (refused d)
refused-Kept d b = record {
  source_same = refl;
  size_same = refl;
  forward = omega arith;
  inside = b.within;
}

moved-Kept :
    (d : Decoder) (n : ℕ) → d.offset + n ≤ d.size → Kept d (record d { offset = d.offset + n })
moved-Kept d n h = record {
  source_same = refl;
  size_same = refl;
  forward = omega arith;
  inside = h;
}

dec_read_cases :
    (n : ℕ) (d : Decoder)
    → n ≤ 8
    → InBounds d
    → ((d.error ≡ true) × (dec_read n d ≡ (d, none)))
      ⊎ (dec_read n d ≡ (refused d, none))
      ⊎ ((d.offset + n ≤ d.size)
          × (dec_read n d
              ≡ (record d { offset = d.offset + n }, some (take n (drop d.offset d.source)))))
unfolding dec_read
dec_read_cases n d h b = elim (Bool-cases d.error) [
  | inl p ↦ inl (p, ground arith)
  | inr p ↦ elim (Bool-cases (ltb d.size (add_size d.offset n))) [
    | inl q ↦ inr (inl (ground arith))
    | inr q ↦ inr (inr (ground arith, ground arith))
  ]
]

pub read_as-Step :
    (n : ℕ) (f : List ℕ → ℕ) (d : Decoder) → n ≤ 8 → InBounds d → Step (Past n d) d (read_as n f d)
read_as-Step n f d h b = elim (dec_read_cases n d h b) [
  | inl (p, e) ↦ rw e (bad (Kept-refl d b) p)
  | inr (inl e) ↦ rw e (bad (refused-Kept d b) refl)
  | inr (inr (q, e)) ↦ rw e (good (moved-Kept d n q) refl)
]

pub Step-if {ℓ} :
    {A : Type ℓ} {P : A → Decoder → Type 0} {d : Decoder} (b : Bool) {x y : Reply A}
    → (b ≡ true → Step P d x)
    → (b ≡ false → Step P d y)
    → Step P d (if b then x else y)
Step-if true f g = f refl
Step-if false f g = g refl

-- A head moves the cursor by 1 to 9 bytes.
abbrev pub AtHead : Decoder → Head → Decoder → Type 0
AtHead d h e = (d.offset < e.offset) × (e.offset ≤ d.offset + 9)

abbrev pub AtArgument : Decoder → Head → Decoder → Type 0
AtArgument d h e = (d.offset ≤ e.offset) × (e.offset ≤ d.offset + 8)

dec_argument-Step :
    (mt : Major) (ai : ℕ) (d : Decoder) → InBounds d → Step (AtArgument d) d (dec_argument mt ai d)
unfolding dec_argument dec_read_byte dec_read_be16 dec_read_be32 dec_read_be64
dec_argument-Step mt ai d b =
    Step-if (leb ai 23) (λ _. good (Kept-refl d b) (omega arith))
      λ _.
        Step-if (ai == 24) (λ _. sized 1 _ (omega arith))
          λ _.
            Step-if (ai == 25) (λ _. sized 2 _ (omega arith))
              λ _.
                Step-if (ai == 26) (λ _. sized 4 _ (omega arith))
                  λ _. Step-if (ai == 27) (λ _. sized 8 _ (omega arith)) λ _. refuse-Step d b
  where
    sized :
        (n : ℕ) (f : List ℕ → ℕ)
        → n ≤ 8
        → Step (AtArgument d) d ((read_as n f >>= head_done mt ai) d)
    sized n f h =
        Step-then (head_done mt ai) (read_as-Step n f d h b)
          λ v e k p. good (Kept-refl e (Kept-InBounds d e b k)) (omega arith)

-- `dec_head` on any input.
pub dec_head-Step : (d : Decoder) → InBounds d → Step (AtHead d) d (dec_head d)
unfolding dec_head dec_read_byte
dec_head-Step d b = Step-then _ (read_as-Step 1 _ d (omega arith) b) λ head e k p.
    Step-weaken (dec_argument-Step _ _ e (Kept-InBounds d e b k)) (λ h e' q. omega arith)
