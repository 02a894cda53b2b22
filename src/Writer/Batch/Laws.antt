-- ===== src/Writer/Batch/Laws.antt =====
-- What a batch writer (src/writer/batch.rs) buffers and what reaches the index.
use mathlib.Core.List.{append_assoc, append-nil}
use drusdenx.Prelude.{
  ℕ, ◌<◌, ◌≡◌, refl, ap, sym, ◌∙◌, List, [], ◌∷◌, ◌++◌, leb, length, Bool-cases, inl, inr, false,
  arith,
}
use drusdenx.Storage.Segment.{Document}
use drusdenx.Storage.Bitmap.{Bitmap}
use drusdenx.Writer.Index.{IndexWriter}
use drusdenx.Writer.Index.Contents.{Holds, HoldsPublished, flush-HoldsPublished}
use drusdenx.Writer.Index.Operations.{add_each-Holds, commit_lem}
use drusdenx.Writer.Batch.{BatchWriter, new, flush, add, finish, add_all}

not_full : (b : ℕ) (n : ℕ) → 0 < b → leb b n ≡ false → n < b
not_full b n h e = ground arith

module _ (bitmap : Bitmap) {Fields : Type 0} (held : ℕ → ℕ)
    (size : List (Document Fields) → ℕ) where
  -- The index writer and the buffer behind it hold the documents, and the buffer is not full.
  pub record Buffers (docs : List (Document Fields)) (b : BatchWriter Fields bitmap.Bits)
      : Type 0 where
    pub written : List (Document Fields)
    pub holds : Holds bitmap written b.writer
    pub all : written ++ b.buffer ≡ docs
    pub room : length b.buffer < b.batch_size

  flushed-HoldsPublished :
      (written : List (Document Fields)) (b : BatchWriter Fields bitmap.Bits)
      → Holds bitmap written b.writer
      → HoldsPublished bitmap (written ++ b.buffer) (flush bitmap held size b).writer
  unfolding flush
  flushed-HoldsPublished written b h =
      flush-HoldsPublished bitmap held size (written ++ b.buffer) _
        (add_each-Holds bitmap held size written b.buffer b.writer h)

  add-Buffers :
      (docs : List (Document Fields)) (doc : Document Fields) (b : BatchWriter Fields bitmap.Bits)
      → Buffers docs b
      → Buffers (docs ++ doc ∷ []) (add bitmap held size doc b)
        × ((add bitmap held size doc b).batch_size ≡ b.batch_size)
  unfolding add
  add-Buffers docs doc b c =
      let pushed : BatchWriter Fields bitmap.Bits = record b { buffer = b.buffer ++ doc ∷ [] } in
      let moved : c.written ++ (b.buffer ++ doc ∷ []) ≡ docs ++ doc ∷ [] =
        sym (append_assoc c.written b.buffer (doc ∷ [])) ∙ ap (λ d. d ++ doc ∷ []) c.all in
      let positive : 0 < b.batch_size = (let r = c.room in omega arith) in
      elim (Bool-cases (leb b.batch_size (length (b.buffer ++ doc ∷ [])))) [
        | inl e ↦ rw e (
          record {
            written = docs ++ doc ∷ [];
            holds = rw (sym moved) (flushed-HoldsPublished c.written pushed c.holds).0;
            all = unfold flush in append-nil (docs ++ doc ∷ []);
            room = unfold flush in positive;
          },
          unfold flush in refl,
        )
        | inr e ↦ rw e (
          record {
            written = c.written;
            holds = c.holds;
            all = moved;
            room = not_full b.batch_size (length (b.buffer ++ doc ∷ [])) positive e;
          },
          refl,
        )
      ]

  add_all-Buffers :
      (docs more : List (Document Fields)) (b : BatchWriter Fields bitmap.Bits)
      → Buffers docs b
      → Buffers (docs ++ more) (add_all bitmap held size more b)
  unfolding add_all
  add_all-Buffers docs [] b c = rw (append-nil docs) c
  add_all-Buffers docs (doc ∷ more) b c =
      rw (sym (append_assoc docs (doc ∷ []) more))
        (add_all-Buffers (docs ++ doc ∷ []) more _ (add-Buffers docs doc b c).0)

  -- A batch writer over a consistent writer, with a positive batch size, never holds a full buffer
  -- between two calls, and after it is finished the index holds the documents that it was given after
  -- those of before, in their order, all of them published, and the log is durable.
  pub finish-add_all :
      (docs more : List (Document Fields)) (batch_size : ℕ) (w : IndexWriter Fields bitmap.Bits)
      → 0 < batch_size
      → Holds bitmap docs w
      → let b = add_all bitmap held size more (new bitmap held size w batch_size) in
        (length b.buffer < b.batch_size)
        × HoldsPublished bitmap (docs ++ more) (finish bitmap held size b)
        × ((finish bitmap held size b).wal.synced ≡ length (finish bitmap held size b).wal.entries)
  unfolding finish
  finish-add_all docs more batch_size w positive h =
      let start : Buffers docs (new bitmap held size w batch_size) = record {
        written = docs;
        holds = unfold new in h;
        all = unfold new in append-nil docs;
        room = unfold new in positive;
      } in
      let c = add_all-Buffers docs more (new bitmap held size w batch_size) start in
      let b = add_all bitmap held size more (new bitmap held size w batch_size) in
      let (published, _, synced) =
        commit_lem bitmap held size (docs ++ more) (flush bitmap held size b).writer
          (rw (sym c.all) (flushed-HoldsPublished c.written b c.holds).0) in
      (c.room, published, synced)
