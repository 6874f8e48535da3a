-- ===== src/Net/Wire/Swap.antt =====
-- Byte order: `htons` and `htonl` reverse the bytes, and undo themselves.
use layla_os.Base.{
  ℕ, ◌+◌, ◌*◌, ◌/◌, ◌%◌, ◌^◌, ◌<◌, ◌≡◌, ap₂, ◌∙◌, arith, bit_and, bit_or, bit_or_fields,
  bit_or_comm, bit_and_mask, bit_and_high, u32, ◌<<<◌, ◌>>>◌,
}
use layla_os.Net.Wire.{htons, htonl, ntohs, ntohl}

-- `htons` exchanges the two bytes.
pub htons_lem : (x : ℕ) → x < 2 ^ 16 → htons x ≡ x % 256 * 256 + x / 256
unfolding htons
htons_lem x h = omega (
  arith,
  bit_or_comm 24 (x / 2 ^ 8) (x * 2 ^ 8) (omega arith) (omega arith),
  bit_or_fields 8 x (x / 2 ^ 8) (omega arith),
)

pub htons-lt : (x : ℕ) → htons x < 2 ^ 16
unfolding htons
htons-lt x = omega arith

-- `ntohs` undoes `htons`.
pub ntohs-htons : (x : ℕ) → x < 2 ^ 16 → ntohs (htons x) ≡ x
ntohs-htons x h = omega (arith, htons_lem x h, htons_lem (htons x) (htons-lt x), htons-lt x)

-- Four fields of a word that do not overlap.
four_fields :
    (p q r s : ℕ)
    → p < 256
    → q < 256
    → r < 256
    → s < 256
    → bit_or (bit_or (bit_or p (q * 2 ^ 8)) (r * 2 ^ 16)) (s * 2 ^ 24)
      ≡ p + q * 256 + r * 65536 + s * 16777216
four_fields p q r s hp hq hr hs =
    let two : bit_or p (q * 2 ^ 8) ≡ q * 256 + p =
      bit_or_comm 32 p (q * 2 ^ 8) (omega arith) (omega arith)
      ∙ bit_or_fields 8 q p (omega arith) in
    let three : bit_or (q * 256 + p) (r * 2 ^ 16) ≡ r * 65536 + (q * 256 + p) =
      bit_or_comm 32 (q * 256 + p) (r * 2 ^ 16) (omega arith) (omega arith)
      ∙ bit_or_fields 16 r (q * 256 + p) (omega arith) in
    let four : bit_or (r * 65536 + (q * 256 + p)) (s * 2 ^ 24)
        ≡ s * 16777216 + (r * 65536 + (q * 256 + p)) =
      bit_or_comm 32 (r * 65536 + (q * 256 + p)) (s * 2 ^ 24) (omega arith) (omega arith)
      ∙ bit_or_fields 24 s (r * 65536 + (q * 256 + p)) (omega arith) in
    rw (two, three, four) (omega arith)

-- `htonl` reverses the four bytes.
pub htonl_lem :
    (x : ℕ)
    → x < 2 ^ 32
    → htonl x
      ≡ x / 16777216 % 256 + x / 65536 % 256 * 256 + x / 256 % 256 * 65536 + x % 256 * 16777216
unfolding htonl
htonl_lem x h =
    let m24 = bit_and_high 24 x 255 in
    let m16 = bit_and_high 16 x 255 in
    let m8 = bit_and_high 8 x 255 in
    let low = λ (y : ℕ). bit_and_mask 8 y in
    let f3 : bit_and x 0xFF000000 >>> 24 ≡ x / 16777216 % 256 =
      omega (arith, m24, low (x / 2 ^ 24)) in
    let f2 : bit_and x 0x00FF0000 >>> 8 ≡ x / 65536 % 256 * 2 ^ 8 =
      omega (arith, m16, low (x / 2 ^ 16)) in
    let f1 : u32 (bit_and x 0x0000FF00 <<< 8) ≡ x / 256 % 256 * 2 ^ 16 =
      omega (arith, m8, low (x / 2 ^ 8)) in
    let f0 : u32 (bit_and x 0x000000FF <<< 24) ≡ x % 256 * 2 ^ 24 = omega (arith, low x) in
    ap₂ bit_or (ap₂ bit_or (ap₂ bit_or f3 f2) f1) f0
    ∙ four_fields (x / 16777216 % 256) (x / 65536 % 256) (x / 256 % 256) (x % 256) (omega arith)
        (omega arith) (omega arith) (omega arith)

-- `ntohl` undoes `htonl`.
pub ntohl-htonl : (x : ℕ) → x < 2 ^ 32 → (ntohl (htonl x) ≡ x) × (htonl x < 2 ^ 32)
ntohl-htonl x h =
    let e = htonl_lem x h in
    let small : htonl x < 2 ^ 32 = omega (arith, e) in
    (omega (arith, e, htonl_lem (htonl x) small), small)
