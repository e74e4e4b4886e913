-- ===== src/Cbor/Roundtrip.antt =====
-- The encoder and the decoder of src/cbor together, through a buffer: what a client writes with
-- one it reads with the other.
use hiya.Base.{
  ℕ, ◌^◌, ◌≤◌, ◌<◌, ◌≡◌, refl, sym, ◌∙◌, ap, List, [], ◌++◌, length, take, length-replicate, arith,
  ok,
}
use hiya.Cbor.{max_depth}
use hiya.Cbor.Tree.{Tree, encode, IsValid, opens}
use hiya.Cbor.Tree.Emit.{emit, emit-Writes}
use hiya.Cbor.Encoder.{no_frame}
use hiya.Cbor.Encoder.Calls
use hiya.Cbor.Encoder.Write.{IsReady, output}
use hiya.Cbor.Encoder.Track.{frames, open_frames, count_item, length-open_frames}

fresh :
    (buf : List ℕ) (size : ℕ) → length buf ≡ size → size < 2 ^ 63 → IsReady (Calls.init buf size)
unfolding Calls.init
fresh buf size e l = record {
  storage = e;
  within = omega arith;
  small = l;
  fine = refl;
  slots = length-replicate max_depth no_frame;
  shallow = omega arith;
}

nothing_open :
    (buf : List ℕ) (size : ℕ)
    → (frames (Calls.init buf size) ≡ [])
      × (output (Calls.init buf size) ≡ [])
      × ((Calls.init buf size).offset ≡ 0)
      × ((Calls.init buf size).capacity ≡ size)
unfolding Calls.init open_frames
nothing_open buf size = (refl, refl, refl, refl)

-- What a client finds after it has written an item.
pub record Written (buf : List ℕ) (size : ℕ) (t : Tree) : Type 0 where
  pub succeeded : (emit t (Calls.init buf size)).1 ≡ ok
  pub bytes_written : Calls.encoder_len (emit t (Calls.init buf size)).0 ≡ length (encode t)
  pub bytes : take (length (encode t)) (emit t (Calls.init buf size)).0.buf ≡ encode t
  pub same_size : length (emit t (Calls.init buf size)).0.buf ≡ size
  pub closed : (emit t (Calls.init buf size)).0.depth ≡ 0

-- For a valid item that opens at most 16 containers at once, written into a fresh buffer of
-- fewer than 2 ^ 63 bytes that its encoding fits, the calls that write it succeed, leave
-- exactly the RFC 8949 encoding of the item at the start of the buffer, `bio_cbor_encoder_len`
-- is the length of the encoding, the buffer keeps its size, and no container is left open.
pub emit-encode :
    (t : Tree) (buf : List ℕ) (size : ℕ)
    → IsValid t
    → opens t ≤ max_depth
    → length buf ≡ size
    → size < 2 ^ 63
    → length (encode t) ≤ size
    → Written buf size t
unfolding Calls.encoder_len count_item
emit-encode t buf size v o e l h =
    let e₀ = Calls.init buf size in
    let (no_frames, no_output, at_start, room) = nothing_open buf size in
    let w =
      emit-Writes t e₀ (fresh buf size e l) v (omega (arith, ap length no_frames)) (omega arith) in
    let r = (emit t e₀).0 in
    let n : r.offset ≡ length (encode t) = omega (arith, w.offset_now) in
    record {
      succeeded = w.done;
      bytes_written = rw w.ready.fine n;
      bytes = ap (λ k. take k r.buf) (sym n) ∙ w.output_now ∙ ap (λ x. x ++ encode t) no_output;
      same_size = w.ready.storage ∙ w.capacity_now ∙ room;
      closed = omega (
        arith,
        ap length (w.open_now ∙ ap count_item no_frames),
        length-open_frames r.stack r.depth,
      );
    }
