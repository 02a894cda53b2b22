-- ===== src/Writer/Batch.antt =====
-- src/writer/batch.rs: a buffer of documents in front of the index writer. That the writer's
-- operations succeed is the case that is modelled.
mod Laws
mod Tests
use drusdenx.Prelude.{ℕ, List, [], ◌∷◌, ◌++◌, leb, if◌then◌else◌, length}
use drusdenx.Storage.Segment.{Document}
use drusdenx.Storage.Bitmap.{Bitmap}
use drusdenx.Writer.Index.{IndexWriter, add_each, flush as flush_writer, commit}

pub record BatchWriter (Fields B : Type 0) : Type 0 where
  pub writer : IndexWriter Fields B
  pub buffer : List (Document Fields)
  pub batch_size : ℕ

module _ (bitmap : Bitmap) {Fields : Type 0} (held : ℕ → ℕ)
    (size : List (Document Fields) → ℕ) where
  abbrev Batch : Type 0
  Batch = BatchWriter Fields bitmap.Bits

  pub new : IndexWriter Fields bitmap.Bits → ℕ → Batch
  new writer batch_size = record { writer = writer; buffer = []; batch_size = batch_size }

  pub flush : Batch → Batch
  flush b = record b {
    writer = flush_writer bitmap held size (add_each bitmap held size b.buffer b.writer);
    buffer = [];
  }

  pub add : Document Fields → Batch → Batch
  unfolding flush
  add doc b =
      let pushed : Batch = record b { buffer = b.buffer ++ doc ∷ [] } in
      if leb b.batch_size (length pushed.buffer) then flush pushed else pushed

  -- `finish` consumes the batch writer; the index writer is dropped with it, after its commit.
  pub finish : Batch → IndexWriter Fields bitmap.Bits
  unfolding flush
  finish b = commit bitmap held size (flush b).writer

  -- A client's calls of `add`, one after the other.
  pub add_all : List (Document Fields) → Batch → Batch
  unfolding add
  add_all [] b = b
  add_all (doc ∷ docs) b = add_all docs (add doc b)
