-- ===== src/Cbor/Tests/Writes.antt =====
-- Runs of the encoder.
use hiya.Base.{◌≡◌, refl, true, false, List, [], ◌∷◌, replicate, arith, some, ok}
use hiya.Cbor.{Major}
use hiya.Cbor.Head.{head, follow}
use hiya.Cbor.Encoder.{Encoder, no_frame, enc_head, enc_track_item}
use hiya.Cbor.Encoder.Write.{IsReady, append, enc_head-Fits}
use hiya.Cbor.Encoder.Track.{Counted, enc_track_item-Counted}
use hiya.Cbor.Encoder.Safe.{InMemory, Kept}
use hiya.Cbor.Encoder.Runs.{Call, call_all, call_all-Kept}
use hiya.Cbor.Roundtrip.{Written, emit-encode}
use hiya.Cbor.Tests.{sample, sample-IsValid, encode-sample}

emit-encode_example : Written (replicate 16 0) 16 sample
emit-encode_example =
    emit-encode sample (replicate 16 0) 16 sample-IsValid (omega arith) refl (omega arith)
      (rw encode-sample (omega arith))

-- A writer with one open array of two items, at offset 1 of 6 bytes.
abbrev writer : Encoder
writer = record {
  buf = replicate 6 0;
  capacity = 6;
  offset = 1;
  error = false;
  stack = record { kind = Major.array; count = 2; written = 1 } ∷ replicate 15 no_frame;
  depth = 1;
}

writer-IsReady : IsReady writer
writer-IsReady = record {
  storage = refl;
  within = omega arith;
  small = omega arith;
  fine = refl;
  slots = refl;
  shallow = omega arith;
}

writer-InMemory : InMemory writer
writer-InMemory = record {
  storage = refl;
  within = omega arith;
  small = omega arith;
  slots = refl;
  shallow = omega arith;
}

enc_head-Fits_example : enc_head Major.uint 1000 writer ≡ (append writer (head Major.uint 1000), ok)
enc_head-Fits_example =
    enc_head-Fits writer Major.uint 1000 writer-IsReady (omega arith)
      (unfold head follow in omega arith)

enc_track_item-Counted_example : Counted writer (enc_track_item writer)
enc_track_item-Counted_example = enc_track_item-Counted writer refl (omega arith)

-- The third call does not fit any more.
abbrev calls : List Call
calls = Call.map 1 ∷ Call.uint 70000 ∷ Call.tstr (some (0x61 ∷ 0x62 ∷ [])) 2 ∷ Call.bool true ∷ []

call_all-Kept_example : Kept writer (call_all calls writer)
call_all-Kept_example =
    call_all-Kept calls writer (tt, (tt, (omega arith, (tt, tt)))) writer-InMemory
