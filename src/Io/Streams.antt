-- ===== src/Io/Streams.antt =====
-- include/metasys/io/InputStream.hxx and OutputStream.hxx: the concepts that a stream satisfies, as
-- records of the operations that they ask for, on an object at an address.
use metasys.Base.{ℕ, ℤ}
use metasys.Machine.{Addr, Kernel, M}
use metasys.Io.ReadableDescriptor.{read}
use metasys.Io.WritableDescriptor.{write}

-- `{ a.read() } -> std::same_as<int16_t>`
pub record UnitInputStream : Type 0 where
  pub read_unit : Addr → M ℤ

-- `{ a.read(buf, len) } -> std::same_as<size_t>`
pub record BatchInputStream : Type 0 where
  pub read_batch : (buf : Addr) → (len : ℕ) → Addr → M ℕ

pub data InputStream : Type 0 where
  unit_input : UnitInputStream → InputStream
  batch_input : BatchInputStream → InputStream

-- `a.write(c)`, whatever it returns.
pub record UnitOutputStream : Type 1 where
  pub Result : Type 0
  pub write_unit : (c : ℤ) → Addr → M Result

-- `{ a.write(buf, len) } -> std::same_as<size_t>`
pub record BatchOutputStream : Type 0 where
  pub write_batch : (buf : Addr) → (len : ℕ) → Addr → M ℕ

pub data OutputStream : Type 1 where
  unit_output : UnitOutputStream → OutputStream
  batch_output : BatchOutputStream → OutputStream

module _ (k : Kernel) (fuel : ℕ) where
  -- `static_assert (InputStream<ReadableDescriptor>)`
  unfoldable pub readable_descriptor : InputStream
  unfolding read
  readable_descriptor =
      batch_input (record { read_batch = λ buf len this. read k fuel buf len this })

  -- `static_assert (OutputStream<WritableDescriptor>)`
  unfoldable pub writable_descriptor : OutputStream
  unfolding write
  writable_descriptor =
      batch_output (record { write_batch = λ buf len this. write k fuel buf len this })
