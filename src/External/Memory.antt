-- ===== src/External/Memory.antt =====
-- `struct mbuf` as far as src/ reads and writes its fields, and the functions on it, which are
-- parameters: libre documents what the laws state. A function that allocates takes the moment `t`
-- of the call, since it may fail at one moment and succeed at another.
use rawrtc_data_channel.Base.{
  ℕ, ◌+◌, ◌-◌, ◌≡◌, ◌≢◌, ◌≤◌, suc, List, [], ◌∷◌, ◌++◌, Option, some, length, take, drop, drop-add,
}
use rawrtc_data_channel.Base.Code.{Code, success}
use rawrtc_data_channel.External.Words.{word_of, bytes_of}

pub record Mbuf : Type 0 where
  pub buf : List ℕ
  pub pos : ℕ

-- `mbuf_buf`, as far as `mbuf_get_left` goes.
abbrev pub left : Mbuf → List ℕ
left b = drop b.pos b.buf

-- A buffer positioned at its end, as the writing functions leave it.
abbrev pub appended : Mbuf → List ℕ → Mbuf
appended b src = record { buf = b.buf ++ src; pos = length (b.buf ++ src) }

abbrev pub advanced : Mbuf → ℕ → Mbuf
advanced b n = record b { pos = b.pos + n }

-- A buffer with bytes written over those at its position.
abbrev pub overwritten : Mbuf → List ℕ → Mbuf
overwritten b src = record {
  buf = take b.pos b.buf ++ (src ++ drop (b.pos + length src) b.buf);
  pos = b.pos + length src;
}

pub record Libre : Type 0 where
  pub get_left : Mbuf → ℕ
  pub advance : Mbuf → ℕ → Mbuf
  pub set_pos : Mbuf → ℕ → Mbuf
  pub skip_to_end : Mbuf → Mbuf
  -- `mbuf_advance` by minus a number
  pub retreat : Mbuf → ℕ → Mbuf
  pub rewind : Mbuf → Mbuf
  -- `mbuf_shift` by minus the position: error code and buffer
  pub shift_to_start : ℕ → Mbuf → ℕ × Mbuf
  pub read_u8 : Mbuf → ℕ × Mbuf
  pub read_u16 : Mbuf → ℕ × Mbuf
  pub read_u32 : Mbuf → ℕ × Mbuf
  -- error code, text and buffer
  pub strdup : ℕ → Mbuf → ℕ → ℕ × List ℕ × Mbuf
  pub alloc : ℕ → ℕ → Option Mbuf
  pub write_u8 : ℕ → Mbuf → ℕ → ℕ × Mbuf
  pub write_u16 : ℕ → Mbuf → ℕ → ℕ × Mbuf
  pub write_u32 : ℕ → Mbuf → ℕ → ℕ × Mbuf
  pub write_mem : ℕ → Mbuf → List ℕ → ℕ × Mbuf
  -- `mem_zalloc` at a moment: does it return memory?
  pub zalloc : ℕ → Option (Unit {0})
  -- `rawrtc_error_to_code`
  pub error_to_code : ℕ → Code
  pub get_left_law : (b : Mbuf) → get_left b ≡ length (left b)
  pub advance_law : (b : Mbuf) (n : ℕ) → n ≤ length (left b) → advance b n ≡ advanced b n
  pub set_pos_law : (b : Mbuf) (n : ℕ) → n ≤ length b.buf → set_pos b n ≡ record b { pos = n }
  pub skip_to_end_law : (b : Mbuf) → skip_to_end b ≡ record b { pos = length b.buf }
  pub retreat_law : (b : Mbuf) (n : ℕ) → n ≤ b.pos → retreat b n ≡ record b { pos = b.pos - n }
  pub rewind_law : (b : Mbuf) → rewind b ≡ record { buf = []; pos = 0 }
  pub shift_to_start_law :
      (t : ℕ) (b : Mbuf)
      → (shift_to_start t b).0 ≡ 0
      → shift_to_start t b ≡ (0, record { buf = left b; pos = 0 })
  pub read_u8_law :
      (b : Mbuf) (x : ℕ) (xs : List ℕ) → left b ≡ x ∷ xs → read_u8 b ≡ (x, advanced b 1)
  pub read_u16_law :
      (b : Mbuf) (x y : ℕ) (xs : List ℕ)
      → left b ≡ x ∷ y ∷ xs
      → read_u16 b ≡ (word_of (x ∷ y ∷ []), advanced b 2)
  pub read_u32_law :
      (b : Mbuf) (x y z w : ℕ) (xs : List ℕ)
      → left b ≡ x ∷ y ∷ z ∷ w ∷ xs
      → read_u32 b ≡ (word_of (x ∷ y ∷ z ∷ w ∷ []), advanced b 4)
  pub strdup_law :
      (t : ℕ) (b : Mbuf) (n : ℕ)
      → n ≤ length (left b)
      → (strdup t b n).0 ≡ 0
      → strdup t b n ≡ (0, take n (left b), advanced b n)
  pub alloc_law : (t n : ℕ) {b : Mbuf} → alloc t n ≡ some b → b ≡ record { buf = []; pos = 0 }
  pub write_u8_law :
      (t : ℕ) (b : Mbuf) (v : ℕ)
      → b.pos ≡ length b.buf
      → (write_u8 t b v).0 ≡ 0
      → write_u8 t b v ≡ (0, appended b (bytes_of 1 v))
  pub write_u16_law :
      (t : ℕ) (b : Mbuf) (v : ℕ)
      → b.pos ≡ length b.buf
      → (write_u16 t b v).0 ≡ 0
      → write_u16 t b v ≡ (0, appended b (bytes_of 2 v))
  pub write_u32_law :
      (t : ℕ) (b : Mbuf) (v : ℕ)
      → b.pos ≡ length b.buf
      → (write_u32 t b v).0 ≡ 0
      → write_u32 t b v ≡ (0, appended b (bytes_of 4 v))
  -- inside the buffer no memory is needed, so the write succeeds
  pub write_u16_in :
      (t : ℕ) (b : Mbuf) (v : ℕ)
      → b.pos + 2 ≤ length b.buf
      → write_u16 t b v ≡ (0, overwritten b (bytes_of 2 v))
  pub write_u32_in :
      (t : ℕ) (b : Mbuf) (v : ℕ)
      → b.pos + 4 ≤ length b.buf
      → write_u32 t b v ≡ (0, overwritten b (bytes_of 4 v))
  pub write_mem_law :
      (t : ℕ) (b : Mbuf) (src : List ℕ)
      → b.pos ≡ length b.buf
      → (write_mem t b src).0 ≡ 0
      → write_mem t b src ≡ (0, appended b src)
  pub error_to_code_zero : error_to_code 0 ≡ success
  pub error_to_code_suc : (e : ℕ) → error_to_code (suc e) ≢ success

-- Nothing fails for lack of memory at the moment `t`.
pub record HasMemory (lib : Libre) (t : ℕ) : Type 0 where
  pub zalloc_ok : lib.zalloc t ≡ some tt
  pub alloc_ok : (n : ℕ) → lib.alloc t n ≡ some (record { buf = []; pos = 0 })
  pub strdup_ok : (b : Mbuf) (n : ℕ) → n ≤ length (left b) → (lib.strdup t b n).0 ≡ 0
  pub shift_ok : (b : Mbuf) → (lib.shift_to_start t b).0 ≡ 0
  pub write_u8_ok : (b : Mbuf) (v : ℕ) → (lib.write_u8 t b v).0 ≡ 0
  pub write_u16_ok : (b : Mbuf) (v : ℕ) → (lib.write_u16 t b v).0 ≡ 0
  pub write_u32_ok : (b : Mbuf) (v : ℕ) → (lib.write_u32 t b v).0 ≡ 0
  pub write_mem_ok : (b : Mbuf) (src : List ℕ) → (lib.write_mem t b src).0 ≡ 0

pub left-advanced : (b : Mbuf) (n : ℕ) → left (advanced b n) ≡ drop n (left b)
left-advanced b n = drop-add b.pos n b.buf
