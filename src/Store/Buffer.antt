-- ===== src/Store/Buffer.antt =====
-- `bytesBuffer` of store/store.go, the buffer between gob and a byte slice.
use waychain_consensus.Prelude.{
  ℕ, ◌+◌, ◌++◌, Option, none, some, leb, if◌then◌else◌, Bytes, length, take, drop,
}

pub record BytesBuffer : Type 0 where
  pub payload : Bytes
  pub off : ℕ

-- `Write`, which returns the length of its argument
unfoldable pub buffer_write : Bytes → BytesBuffer → ℕ × BytesBuffer
buffer_write p b = (length p, record b { payload = b.payload ++ p })

-- `Read` into a slice of so many bytes: what is copied, and `none` for the error at the end
unfoldable pub buffer_read : ℕ → BytesBuffer → Option Bytes × BytesBuffer
buffer_read n b =
    let copied = take n (drop b.off b.payload) in
    if leb (length b.payload) b.off
    then (none, b)
    else (some copied, record b { off = b.off + length copied })
