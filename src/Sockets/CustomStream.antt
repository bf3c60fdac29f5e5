-- ===== src/Sockets/CustomStream.antt =====
-- src/util/custom_stream.rs: a reader and a writer as one stream.
use tiny_http.Io.{Read, Write}

pub record CustomStream (R W : Type 0) : Type 0 where
  pub reader : R
  pub writer : W

module _ {R W : Type 0} where
  unfoldable pub new : R → W → CustomStream R W
  new reader writer = record { reader = reader; writer = writer }

  -- `Read`, where the reader is one.
  unfoldable pub stream_read : Read R → Read (CustomStream R W)
  stream_read inner = record {
    read = λ n s. let (r, reader) = inner.read n s.reader in (r, record s { reader = reader });
  }

  -- `Write`, where the writer is one.
  unfoldable pub stream_write : Write W → Write (CustomStream R W)
  stream_write inner = record {
    write_all =
        λ b s. let (r, writer) = inner.write_all b s.writer in (r, record s { writer = writer });
    flush = λ s. let (r, writer) = inner.flush s.writer in (r, record s { writer = writer });
  }
