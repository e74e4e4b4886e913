-- ===== src/Cbor/Tests/Reads.antt =====
-- Runs of the decoder.
use hiya.Base.{
  ◌+◌, ◌-◌, ◌*◌, ◌^◌, ◌≡◌, refl, false, [], ◌∷◌, ◌++◌, length, arith, inl, inr, ok, negsuc,
  replicate,
}
use hiya.Cbor.{Major, code}
use hiya.Cbor.Head.{be}
use hiya.Cbor.Tree.{encode}
use hiya.Cbor.Decoder.{
  Decoder, done, negint, item_of, int_val, dec_head, dec_argument, dec_read, dec_read_byte,
  dec_read_be64, be64_of, decode_next, skip,
}
use hiya.Cbor.Decoder.Calls.{map_find_uint_key}
use hiya.Cbor.Decoder.Read.{Ahead, advance, dec_head-Carries}
use hiya.Cbor.Decoder.Items.{decoded, consumed, decode_next-encode}
use hiya.Cbor.Decoder.Skip.{skip-encode}
use hiya.Cbor.Decoder.Find.{found, value_at, is_uint, map_find_uint_key-found}
use hiya.Cbor.Decoder.Valid.{InBounds, Step, Accepts, Advances, decode_next-Step, skip-Step}
use hiya.Cbor.Tests.{sample, pairs, sample-IsValid, reader, reader-Ahead, inside-Ahead}

-- The arguments 9 and 2 ^ 63 of the major type 1.
abbrev minus_ten : Decoder
minus_ten = record { source = 0x29 ∷ []; size = 1; offset = 0; error = false; err_code = ok }

abbrev out_of_range : Decoder
out_of_range = record {
  source = 0x3b ∷ 0x80 ∷ replicate 7 0;
  size = 9;
  offset = 0;
  error = false;
  err_code = ok;
}

test_minus_ten : (decode_next minus_ten).1 ≡ done (negint (negsuc 9))
unfolding decode_next item_of int_val dec_head dec_argument dec_read dec_read_byte
test_minus_ten = refl

test_out_of_range : (decode_next out_of_range).1 ≡ done (negint (negsuc (2 ^ 63 - 1)))
unfolding decode_next item_of int_val dec_head dec_argument dec_read dec_read_byte dec_read_be64
    be64_of
test_out_of_range = refl

decode_next-encode_example :
    decode_next reader ≡ (advance reader (consumed sample), done (decoded sample 0))
decode_next-encode_example =
    decode_next-encode sample reader (0x00 ∷ []) sample-IsValid reader-Ahead

skip-encode_example : skip reader ≡ (advance reader (length (encode sample)), done tt)
skip-encode_example =
    skip-encode sample reader (0x00 ∷ []) sample-IsValid (omega arith) reader-Ahead

map_find_uint_key-found_example :
    map_find_uint_key 2 1 (record reader { offset = 1 })
    ≡ found (record reader { offset = 1 }) 1 (value_at (is_uint 1) pairs)
map_find_uint_key-found_example =
    map_find_uint_key-found pairs 1 (record reader { offset = 1 }) (0x00 ∷ []) sample-IsValid
      (unfold consumed in (refl, omega arith, (refl, omega arith, tt))) inside-Ahead

-- A text string that promises 200 bytes and has two.
abbrev short : Decoder
short = record {
  source = 0x78 ∷ 200 ∷ 1 ∷ 2 ∷ [];
  size = 4;
  offset = 0;
  error = false;
  err_code = ok;
}

short-InBounds : InBounds short
short-InBounds = record { whole = refl; small = omega arith; within = omega arith }

decode_next-Step_example : Step (Accepts short) short (decode_next short)
decode_next-Step_example = decode_next-Step short short-InBounds

skip-Step_example : Step (Advances short) short (skip short)
skip-Step_example = skip-Step short short-InBounds

-- The argument 5 in a byte of its own, which is not the shortest form.
abbrev long_form : Decoder
long_form = record { source = 0x18 ∷ 5 ∷ []; size = 2; offset = 0; error = false; err_code = ok }

long_form-Ahead : Ahead long_form ((code Major.uint * 32 + 24) ∷ (be 1 5 ++ []))
long_form-Ahead = record {
  fine = refl;
  whole = refl;
  small = omega arith;
  within = omega arith;
  rest = refl;
}

dec_head-Carries_example :
    dec_head long_form
    ≡ (advance long_form 2, done (record { major = Major.uint; additional = 24; argument = 5 }))
dec_head-Carries_example =
    dec_head-Carries long_form Major.uint 24 1 5 [] (inr (inl (refl, refl, omega arith)))
      long_form-Ahead
