-- ===== src/Io.antt =====
-- What src/io_util.rs and src/net use of the crate bitstream_io, for little-endian streams over
-- memory: the reader over a byte slice and the writer into a byte vector.
--
-- `holding p bs` is the reader that has read `p` bits and has the bits `bs` before it, and
-- `written bs` the writer that has been given the bits `bs`. The laws say, in these terms, what
-- the crate's documentation promises: fields are stored lowest bit first, a read past the end of the
-- data and a value too wide for its field are I/O errors, and alignment pads with zeros.

pub mod BitList
pub mod Laws
pub mod Advance
use quickplay_server.Base.{
  ℕ, zero, suc, ◌+◌, ◌-◌, ◌*◌, ◌%◌, ◌^◌, ◌≤◌, ◌<◌, ◌≡◌, Bool, false, List, [], ◌∷◌, ◌++◌, length,
  replicate, All, IsByte, Outcome, ok, err, le_bits, bits_of,
}
use quickplay_server.Errors.{Error, io}

pub record BitIo : Type 1 where
  pub Reader : Type 0
  pub open_reader : List ℕ → Reader
  pub read_in : ℕ → Reader → Outcome Error (ℕ × Reader)
  pub read_bit : Reader → Outcome Error (Bool × Reader)
  -- fills the buffer that is given; on an error too, the buffer may have changed
  pub read_bytes : List ℕ → Reader → Outcome Error Reader × List ℕ
  pub position_in_bits : Reader → ℕ
  pub Writer : Type 0
  pub new_writer : Writer
  pub write_out : ℕ → ℕ → Writer → Outcome Error Writer
  pub write_bit : Bool → Writer → Outcome Error Writer
  pub write_bytes : List ℕ → Writer → Outcome Error Writer
  pub byte_align : Writer → Outcome Error Writer
  pub into_bytes : Writer → List ℕ
  -- the reader's laws
  pub holding : ℕ → List Bool → Reader
  pub open_reader_lem : (bytes : List ℕ) → open_reader bytes ≡ holding 0 (bits_of bytes)
  pub position_lem : (p : ℕ) (bs : List Bool) → position_in_bits (holding p bs) ≡ p
  pub read_in_lem :
      (n p v : ℕ) (rest : List Bool)
      → v < 2 ^ n
      → read_in n (holding p (le_bits n v ++ rest)) ≡ ok (v, holding (p + n) rest)
  pub read_in_end : (n p : ℕ) (bs : List Bool) → length bs < n → read_in n (holding p bs) ≡ err io
  pub read_bit_lem :
      (p : ℕ) (b : Bool) (rest : List Bool)
      → read_bit (holding p (b ∷ rest)) ≡ ok (b, holding (p + 1) rest)
  pub read_bit_end : (p : ℕ) → read_bit (holding p []) ≡ err io
  pub read_bytes_lem :
      (buffer bytes : List ℕ) (p : ℕ) (rest : List Bool)
      → length buffer ≡ length bytes
      → All IsByte bytes
      → read_bytes buffer (holding p (bits_of bytes ++ rest))
        ≡ (ok (holding (p + 8 * length bytes) rest), bytes)
  pub read_bytes_end :
      (buffer : List ℕ) (p : ℕ) (bs : List Bool)
      → length bs < 8 * length buffer
      → ((read_bytes buffer (holding p bs)).0 ≡ err io)
        × (length (read_bytes buffer (holding p bs)).1 ≡ length buffer)
  -- the writer's laws
  pub written : List Bool → Writer
  pub new_writer_lem : new_writer ≡ written []
  pub write_out_lem :
      (n v : ℕ) (bs : List Bool)
      → v < 2 ^ n
      → write_out n v (written bs) ≡ ok (written (bs ++ le_bits n v))
  pub write_out_wide : (n v : ℕ) (bs : List Bool) → 2 ^ n ≤ v → write_out n v (written bs) ≡ err io
  pub write_bit_lem :
      (b : Bool) (bs : List Bool) → write_bit b (written bs) ≡ ok (written (bs ++ b ∷ []))
  pub write_bytes_lem :
      (bytes : List ℕ) (bs : List Bool)
      → All IsByte bytes
      → write_bytes bytes (written bs) ≡ ok (written (bs ++ bits_of bytes))
  pub byte_align_lem :
      (bs : List Bool)
      → byte_align (written bs) ≡ ok (written (bs ++ replicate ((8 - length bs % 8) % 8) false))
  pub into_bytes_lem :
      (bytes : List ℕ) → All IsByte bytes → into_bytes (written (bits_of bytes)) ≡ bytes
