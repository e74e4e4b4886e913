-- ===== src/Pm/Otp/Base32/Decode.antt =====
-- `base32_decode` of src/pm/pm_otp.c on a whole text.
use hiya.Base.{
  ℕ, suc, ◌+◌, ◌*◌, ◌/◌, ◌^◌, ◌%◌, ◌≤◌, ◌<◌, ◌≡◌, refl, ap, ◌∙◌, Bool, true, List, [], ◌∷◌, length,
  take, Option, none, some, arith, Bool-cases, inl, inr, length-replicate, length-take, All, IsByte,
}
use mathlib.Core.Path.{subst}
use hiya.Pm.Otp.Base32.{
  Decoding, push_position, decode_char, decode_chars, start, output, base32_decode, and_then,
}
use hiya.Pm.Otp.Base32.Symbol.{
  symbol_value, is_blank, is_skipped-is_blank, position-symbol_value, Below, symbol_value-Below,
}
use hiya.Pm.Otp.Base32.Value.{symbols, with_symbol, number, Reading, Pushes, push-Pushes}

-- The loop on a text, against its symbols.
abbrev Loops : ℕ → ℕ → ℕ → Option (List ℕ) → Option Decoding → Type 0
Loops n v count none r = r ≡ none
Loops n v count (some vs) r = Pushes n (number 32 v vs) (count + length vs) r

join :
    (n v count x : ℕ) (q : Option (List ℕ)) (r : Option Decoding)
    → Loops n (v * 32 + x) (suc count) q r
    → Loops n v count (with_symbol (some x) q) r
join n v count x none r l = l
join n v count x (some vs) r l = record {
  next = l.next;
  done = l.done;
  reading = subst (λ k. Reading n (number 32 (v * 32 + x) vs) k l.next) (omega arith) l.reading;
}

-- One character that is not skipped, in front of the rest of the loop.
read-Loops :
    (grows : Bool) (n v count : ℕ) (s : Decoding) (vs : Option (List ℕ))
    (rest : Decoding → Option Decoding)
    → Reading n v count s
    → count < n
    → ((x : ℕ) (s' : Decoding)
        → Reading n (v * 32 + x) (suc count) s'
        → Loops n (v * 32 + x) (suc count) vs (rest s'))
    → (o : Option ℕ) → Below 32 o
    → Loops n v count (with_symbol o vs) (and_then (push_position grows o s) rest)
read-Loops grows n v count s vs rest r h f none b = refl
read-Loops grows n v count s vs rest r h f (some x) b =
    let pushed = push-Pushes grows n v count x s r b h in
    rw pushed.done (join n v count x vs (rest pushed.next) (f x pushed.next pushed.reading))

decode_chars-Loops :
    (grows : Bool) (n v count : ℕ) (cs : List ℕ) (s : Decoding)
    → Reading n v count s
    → count + length cs ≤ n
    → Loops n v count (symbols cs) (decode_chars grows cs s)
unfolding symbols decode_chars decode_char
decode_chars-Loops grows n v count [] s r h = record {
  next = s;
  done = refl;
  reading = subst (λ k. Reading n v k s) (omega arith) r;
}
decode_chars-Loops grows n v count (c ∷ cs) s r h =
    rw (is_skipped-is_blank c) (elim (Bool-cases (is_blank c)) [
      | inl p ↦ rw p (decode_chars-Loops grows n v count cs s r (omega arith))
      | inr p ↦
          rw (p, position-symbol_value c)
            (read-Loops grows n v count s (symbols cs) (decode_chars grows cs) r (omega arith)
              (λ x s' r'.
                decode_chars-Loops grows n (v * 32 + x) (suc count) cs s' r' (omega arith))
              (symbol_value c) (symbol_value-Below c))
    ])

-- The bytes of a text whose symbols are `vs`.
pub record Decodes (vs : List ℕ) (r : Option (List ℕ)) : Type 0 where
  pub bytes : List ℕ
  pub returned : r ≡ some bytes
  pub count : length bytes ≡ length vs * 5 / 8
  pub small : All IsByte bytes
  pub value : number 256 0 bytes ≡ number 32 0 vs / 2 ^ (length vs * 5 % 8)

abbrev pub Spells : Option (List ℕ) → Option (List ℕ) → Type 0
Spells none r = r ≡ none
Spells (some vs) r = Decodes vs r

Loops-Spells :
    (n : ℕ) (vs : Option (List ℕ)) (r : Option Decoding) → Loops n 0 0 vs r → Spells vs (output r)
Loops-Spells n none r e = ap output e
Loops-Spells n (some vs) r l =
    let s = l.next in
    let k = l.reading in
    record {
      bytes = take s.written s.decoded;
      returned = ap output l.done;
      count = omega (arith, length-take s.written s.decoded, k.bits, k.few, k.room, k.fitted);
      small = k.small;
      value = k.value ∙ ap (λ b. number 32 0 vs / 2 ^ b) (omega (arith, k.bits, k.few));
    }

-- `base32_decode` with memory at the start skips each '=', space, line feed and carriage
-- return. It returns -1 where another character of the text is neither a letter of either case
-- nor a digit from 2 to 7, and otherwise the complete bytes at the front of the number that the
-- symbols spell in base 32, letters being 0 to 25 and digits 26 to 31. It does so whether or
-- not a later `realloc` would succeed.
pub base32_decode-Spells :
    (grows : Bool) (text : List ℕ) → Spells (symbols text) (base32_decode true grows text)
unfolding base32_decode
base32_decode-Spells grows text =
    let n = length text in
    Loops-Spells n (symbols text) (decode_chars grows text (start n)) (
      decode_chars-Loops grows n 0 0 text (start n)
        (record {
          room = length-replicate (n * 5 / 8 + 1) 0;
          planned = refl;
          bits = refl;
          few = omega arith;
          fitted = omega arith;
          low = refl;
          small = tt;
          value = refl;
        })
        (omega arith))
