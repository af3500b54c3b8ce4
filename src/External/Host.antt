-- ===== src/External/Host.antt =====
-- A libre whose memory never runs out: the laws of `Libre` can be met, and tests can run.
use rawrtc_data_channel.Base.{
  ℕ, zero, suc, ◌+◌, ◌-◌, ◌≡◌, ◌≢◌, refl, List, [], ◌∷◌, ◌++◌, some, length, take, drop, arith,
  if◌then◌else◌, leb, take_all, drop_all, length-append, append-nil,
}
use rawrtc_data_channel.Base.Code.{Code, success, other, try_again_later}
use rawrtc_data_channel.External.Words.{word_of, bytes_of}
use rawrtc_data_channel.External.Memory.{Mbuf, left, appended, advanced, Libre, HasMemory}

-- EAGAIN is 11 on Linux.
abbrev pub error_to_code : ℕ → Code
error_to_code zero = success
error_to_code (suc e) =
    if leb 10 e then (if leb e 10 then try_again_later else other e) else other e

pub error_to_code-suc : (e : ℕ) → error_to_code (suc e) ≢ success
error_to_code-suc e h = ground arith

-- The next `n` bytes as a word, and the buffer behind them.
abbrev pub read : ℕ → Mbuf → ℕ × Mbuf
read n b = (word_of (take n (left b)), advanced b n)

-- A write at the position, over what stands there.
abbrev pub write : Mbuf → List ℕ → ℕ × Mbuf
write b src = (
  0,
  record {
    buf = take b.pos b.buf ++ (src ++ drop (b.pos + length src) b.buf);
    pos = b.pos + length src;
  },
)

pub read_u8-eq : (b : Mbuf) (x : ℕ) (xs : List ℕ) → left b ≡ x ∷ xs → read 1 b ≡ (x, advanced b 1)
read_u8-eq b x xs h = rw h (ground arith)

pub read_u16-eq :
    (b : Mbuf) (x y : ℕ) (xs : List ℕ)
    → left b ≡ x ∷ y ∷ xs
    → read 2 b ≡ (word_of (x ∷ y ∷ []), advanced b 2)
read_u16-eq b x y xs h = rw h

pub read_u32-eq :
    (b : Mbuf) (x y z w : ℕ) (xs : List ℕ)
    → left b ≡ x ∷ y ∷ z ∷ w ∷ xs
    → read 4 b ≡ (word_of (x ∷ y ∷ z ∷ w ∷ []), advanced b 4)
read_u32-eq b x y z w xs h = rw h

pub write-eq-appended :
    (b : Mbuf) (src : List ℕ) → b.pos ≡ length b.buf → write b src ≡ (0, appended b src)
write-eq-appended b src h = rw (
  h,
  take_all (length b.buf) b.buf (omega arith),
  length-append b.buf src,
  drop_all (length b.buf + length src) b.buf (omega arith),
  append-nil,
)

abbrev pub fresh : Mbuf
fresh = record { buf = []; pos = 0 }

pub alloc-eq : {b : Mbuf} → some fresh ≡ some b → b ≡ fresh
alloc-eq h = cc

abbrev pub host : Libre
host = record {
  get_left = λ b. length (left b);
  advance = advanced;
  set_pos = λ b n. record b { pos = n };
  skip_to_end = λ b. record b { pos = length b.buf };
  retreat = λ b n. record b { pos = b.pos - n };
  rewind = λ b. fresh;
  shift_to_start = λ t b. (0, record { buf = left b; pos = 0 });
  read_u8 = read 1;
  read_u16 = read 2;
  read_u32 = read 4;
  strdup = λ t b n. (0, take n (left b), advanced b n);
  alloc = λ t n. some fresh;
  write_u8 = λ t b v. write b (bytes_of 1 v);
  write_u16 = λ t b v. write b (bytes_of 2 v);
  write_u32 = λ t b v. write b (bytes_of 4 v);
  write_mem = λ t b src. write b src;
  zalloc = λ t. some tt;
  error_to_code = error_to_code;
  get_left_law = λ b. refl;
  advance_law = λ b n h. refl;
  set_pos_law = λ b n h. refl;
  skip_to_end_law = λ b. refl;
  retreat_law = λ b n h. refl;
  rewind_law = λ b. refl;
  shift_to_start_law = λ t b e. refl;
  read_u8_law = read_u8-eq;
  read_u16_law = read_u16-eq;
  read_u32_law = read_u32-eq;
  strdup_law = λ t b n h e. refl;
  alloc_law = λ t n h. alloc-eq h;
  write_u8_law = λ t b v h e. write-eq-appended b (bytes_of 1 v) h;
  write_u16_law = λ t b v h e. write-eq-appended b (bytes_of 2 v) h;
  write_u32_law = λ t b v h e. write-eq-appended b (bytes_of 4 v) h;
  write_u16_in = λ t b v h. refl;
  write_u32_in = λ t b v h. refl;
  write_mem_law = λ t b src h e. write-eq-appended b src h;
  error_to_code_zero = refl;
  error_to_code_suc = error_to_code-suc;
}

pub host-HasMemory : (t : ℕ) → HasMemory host t
host-HasMemory t = record {
  zalloc_ok = refl;
  alloc_ok = λ n. refl;
  strdup_ok = λ b n h. refl;
  shift_ok = λ b. refl;
  write_u8_ok = λ b v. refl;
  write_u16_ok = λ b v. refl;
  write_u32_ok = λ b v. refl;
  write_mem_ok = λ b src. refl;
}
