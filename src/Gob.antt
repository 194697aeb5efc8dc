-- ===== src/Gob.antt =====
-- SuRPC/codec/gob.go: the codec that `CodecFuncMap` has. The encoder, the decoder, the buffer and the
-- connection are one state `S`, and their methods are parameters.
pub mod Writes
mod Tests
use golang_frame_practice.Client.{Header}
use golang_frame_practice.Common.Outcome.{Outcome, ok, err, panics, hangs, exits}
use golang_frame_practice.Server.Requests.{Codec, Reply}

-- `gob.Encoder` into the buffer, `gob.Decoder` from the connection, and `Flush` and `Close`.
pub record Wire (S A B : Type 0) : Type 0 where
  pub encode_header : Header → S → S × Outcome (Unit {0})
  pub encode_body : Reply B → S → S × Outcome (Unit {0})
  pub decode_header : S → S × Outcome Header
  pub decode_body : S → S × Outcome A
  pub flush : S → S × Outcome (Unit {0})
  pub close : S → S × Outcome (Unit {0})

module _ {S A B : Type 0} (wire : Wire S A B) where
  -- The deferred function of `Write`: the error of `Flush` is dropped.
  unfoldable pub flushed : S × Outcome (Unit {0}) → S × Outcome (Unit {0})
  flushed (s, err e) = ((wire.close (wire.flush s).0).0, err e)
  flushed (s, hangs) = (s, hangs)
  flushed (s, exits msg) = (s, exits msg)
  flushed (s, o) = ((wire.flush s).0, o)

  -- The body of `Write`: an error of the header leaves the body out.
  unfoldable pub encode_both : Header → Reply B → S → S × Outcome (Unit {0})
  encode_both h body s =
      let (s', r) = wire.encode_header h s in
      elim r [ ok _ ↦ wire.encode_body body s' | o ↦ (s', o) ]

  -- `Write`
  unfoldable pub write : Header → Reply B → S → S × Outcome (Unit {0})
  write h body s = flushed (encode_both h body s)

  -- `NewGobCodec`
  unfoldable pub new_gob_codec : Codec S A B
  new_gob_codec = record {
    read_header = wire.decode_header;
    read_body = wire.decode_body;
    write = write;
    close = λ s. (wire.close s).0;
  }
