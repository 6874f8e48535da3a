-- ===== src/Net/Checksum.antt =====
-- src/net/net.h, `InternetChecksum`: the one's complement sum of a block of bytes.
-- The `while (sum >> 16)` loop is a recursion on fuel; three rounds are enough for any 32-bit sum.
pub mod Verify
use layla_os.Base.{
  ℕ, zero, suc, ◌+◌, ◌-◌, ◌*◌, ◌/◌, ◌%◌, ◌^◌, ◌≤◌, ◌<◌, List, [], ◌∷◌, ◌++◌, ◌≡◌, refl, ap, ◌∙◌,
  inl, inr, ◌↔◌, true, false, if◌then◌else◌, ◌!=◌, ==_iff, Bool-cases, bit_and, bit_and_mask, add32,
  u16, not16, ◌>>>◌, length,
}
use layla_os.Net.Wire.{bytes16}

-- The loop over the words: a pair of bytes is a little-endian word, a last odd byte counts alone.
unfoldable pub sum_words : List ℕ → ℕ → ℕ
sum_words [] s = s
sum_words (x ∷ []) s = add32 s x
sum_words (x ∷ (y ∷ rest)) s = sum_words rest (add32 s (x + 256 * y))

-- The loop that adds the carries back in.
unfoldable pub fold_carries : ℕ → ℕ → ℕ
fold_carries zero s = s
fold_carries (suc fuel) s =
    let rest = fold_carries fuel (add32 (bit_and s 0xFFFF) (s >>> 16)) in
    if s >>> 16 != 0 then rest else s

unfoldable pub internet_checksum : List ℕ → ℕ
internet_checksum block = not16 (u16 (fold_carries 3 (sum_words block 0)))
