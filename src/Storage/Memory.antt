-- ===== src/Storage/Memory.antt =====
-- An array of bytes as a function from positions to bytes, with `copy_from_slice`, slices and the
-- little-endian numbers of two bytes in it.
use byte_db.Common.{
  ℕ, zero, suc, ◌+◌, ◌-◌, ◌*◌, ◌≡◌, ◌≤◌, ◌<◌, ◌⊎◌, inl, inr, refl, ap, ◌∙◌, ◌&&◌, [], ◌∷◌, leb, ltb,
  if◌then◌else◌, length, get_or, arith, Bytes,
}
use byte_db.Common.LeBytes.{to_le_bytes}

abbrev pub Memory : Type 0
Memory = ℕ → ℕ

-- `d[off..off + bytes.len()].copy_from_slice(bytes)`
unfoldable pub write_at : Memory → ℕ → Bytes → Memory
write_at d off bytes i =
    if leb off i && ltb i (off + length bytes) then get_or bytes (i - off) 0 else d i

-- zeroes from `from` up to `to`
unfoldable pub zero_fill : Memory → ℕ → ℕ → Memory
zero_fill d from to i = if leb from i && ltb i to then 0 else d i

-- `n` bytes from `start`
unfoldable pub slice : Memory → ℕ → ℕ → Bytes
slice d start zero = []
slice d start (suc n) = d start ∷ slice d (suc start) n

unfoldable pub get16 : Memory → ℕ → ℕ
get16 d off = d off + 256 * d (off + 1)

unfoldable pub put16 : Memory → ℕ → ℕ → Memory
unfolding write_at
put16 d off v = write_at d off (to_le_bytes 2 v)

-- two ranges have no position in common
abbrev pub Apart : ℕ → ℕ → ℕ → ℕ → Type 0
Apart a n b m = (a + n ≤ b) ⊎ (b + m ≤ a)

pub write_at-Apart :
    (d : Memory) (off : ℕ) (bytes : Bytes) (i : ℕ)
    → Apart off (length bytes) i 1
    → write_at d off bytes i ≡ d i
unfolding write_at
write_at-Apart d off bytes i (inl h) = ground arith
write_at-Apart d off bytes i (inr h) = ground arith

pub get16-write_at :
    (d : Memory) (off : ℕ) (bytes : Bytes) (i : ℕ)
    → Apart off (length bytes) i 2
    → get16 (write_at d off bytes) i ≡ get16 d i
unfolding get16
get16-write_at d off bytes i (inl h) = ground (
  arith,
  write_at-Apart d off bytes i (inl (omega arith)),
  write_at-Apart d off bytes (i + 1) (inl (omega arith)),
)
get16-write_at d off bytes i (inr h) = ground (
  arith,
  write_at-Apart d off bytes i (inr (omega arith)),
  write_at-Apart d off bytes (i + 1) (inr (omega arith)),
)

pub slice-write_at-Apart :
    (d : Memory) (off : ℕ) (bytes : Bytes) (start n : ℕ)
    → Apart off (length bytes) start n
    → slice (write_at d off bytes) start n ≡ slice d start n
unfolding slice
slice-write_at-Apart d off bytes start zero h = refl
slice-write_at-Apart d off bytes start (suc n) (inl h) = ground (
  arith,
  write_at-Apart d off bytes start (inl (omega arith)),
  slice-write_at-Apart d off bytes (suc start) n (inl (omega arith)),
)
slice-write_at-Apart d off bytes start (suc n) (inr h) = ground (
  arith,
  write_at-Apart d off bytes start (inr (omega arith)),
  slice-write_at-Apart d off bytes (suc start) n (inr (omega arith)),
)

-- a slice depends on its positions only
pub slice-same :
    (d e : Memory) (start n : ℕ)
    → ((i : ℕ) → start ≤ i → i < start + n → d i ≡ e i)
    → slice d start n ≡ slice e start n
unfolding slice
slice-same d e start zero h = refl
slice-same d e start (suc n) h = ground (
  arith,
  h start (omega arith) (omega arith),
  slice-same d e (suc start) n (λ i low high. h i (omega arith) (omega arith)),
)

write_at-tail :
    (d : Memory) (off b : ℕ) (bytes : Bytes) (i : ℕ)
    → suc off ≤ i
    → write_at d off (b ∷ bytes) i ≡ write_at d (suc off) bytes i
unfolding write_at
write_at-tail d off b bytes i h =
    let next : i - off ≡ suc (i - suc off) = omega arith in rw next (ground arith)

write_at-head : (d : Memory) (off b : ℕ) (bytes : Bytes) → write_at d off (b ∷ bytes) off ≡ b
unfolding write_at
write_at-head d off b bytes = let here : off - off ≡ 0 = omega arith in rw here (ground arith)

pub slice-write_at :
    (d : Memory) (off : ℕ) (bytes : Bytes) → slice (write_at d off bytes) off (length bytes) ≡ bytes
unfolding slice write_at
slice-write_at d off [] = refl
slice-write_at d off (b ∷ bytes) = rw (write_at-head d off b bytes) (
    ap (λ t. b ∷ t)
      (slice-same (write_at d off (b ∷ bytes)) (write_at d (suc off) bytes) (suc off) (length bytes)
          (λ i low high. write_at-tail d off b bytes i low)
        ∙ slice-write_at d (suc off) bytes))

pub length-slice : (d : Memory) (start n : ℕ) → length (slice d start n) ≡ n
unfolding slice
length-slice d start zero = refl
length-slice d start (suc n) = ap suc (length-slice d (suc start) n)

pub get16-put16 : (d : Memory) (off v : ℕ) → v < 65536 → get16 (put16 d off v) off ≡ v
unfolding get16 put16 write_at
get16-put16 d off v h =
    let here : off - off ≡ 0 = omega arith in
    let next : off + 1 - off ≡ 1 = omega arith in rw here (rw next (ground arith))

pub put16-Apart : (d : Memory) (off v i : ℕ) → Apart off 2 i 1 → put16 d off v i ≡ d i
unfolding put16
put16-Apart d off v i h = write_at-Apart d off (to_le_bytes 2 v) i h

pub get16-put16-Apart :
    (d : Memory) (off v i : ℕ) → Apart off 2 i 2 → get16 (put16 d off v) i ≡ get16 d i
unfolding put16
get16-put16-Apart d off v i h = get16-write_at d off (to_le_bytes 2 v) i h

pub get16-same : (d e : Memory) (h : ℕ) → d h ≡ e h → d (h + 1) ≡ e (h + 1) → get16 d h ≡ get16 e h
unfolding get16
get16-same d e h low high = omega (arith, low, high)
