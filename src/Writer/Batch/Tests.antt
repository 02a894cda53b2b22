-- ===== src/Writer/Batch/Tests.antt =====
-- The theorem on src/writer/batch.rs at a concrete batch.
use drusdenx.Prelude.{ℕ, ◌<◌, ◌≡◌, List, [], ◌∷◌, length, arith}
use drusdenx.Storage.Segment.{Document}
use drusdenx.Writer.Index.Contents.{HoldsPublished}
use drusdenx.Writer.Index.Samples.{
  list_bitmap, none_held, file_size, document, writer, writer-Holds,
}
use drusdenx.Writer.Batch.{BatchWriter, new, add_all, finish}
use drusdenx.Writer.Batch.Laws.{finish-add_all}

abbrev given : List (Document ℕ)
given = document ∷ document ∷ document ∷ []

abbrev filled : BatchWriter ℕ (List ℕ)
filled =
    add_all list_bitmap none_held file_size given (new list_bitmap none_held file_size writer 2)

finish-add_all_example :
    (length filled.buffer < filled.batch_size)
    × HoldsPublished list_bitmap given (finish list_bitmap none_held file_size filled)
    × ((finish list_bitmap none_held file_size filled).wal.synced
        ≡ length (finish list_bitmap none_held file_size filled).wal.entries)
finish-add_all_example =
    finish-add_all list_bitmap none_held file_size [] given 2 writer (omega arith) writer-Holds
