-- ===== src/Arch/Gdt.antt =====
-- src/arch/i386/gdt.h, src/arch/i386/gdt.cpp: segment descriptors.
-- A selector is the distance of its descriptor from the null descriptor. Loading the table is the
-- processor's.
use layla_os.Base.{
  ℕ, ◌+◌, ◌*◌, ◌/◌, ◌%◌, ◌^◌, ◌<◌, ◌≡◌, refl, List, [], ◌∷◌, Option, none, some, bit_and, bit_or,
  bit_and_mask, bit_and_high, bit_or_fields, sub32, ◌>>>◌, arith,
}

pub record GdtEntry : Type 0 where
  pub limit_low : ℕ
  pub base_low : ℕ
  pub base_mid : ℕ
  pub access : ℕ
  pub granularity : ℕ
  pub base_high : ℕ

unfoldable pub encode_entry : ℕ → ℕ → ℕ → ℕ → GdtEntry
encode_entry base limit access gran_flags = record {
  limit_low = bit_and limit 0xFFFF;
  base_low = bit_and base 0xFFFF;
  base_mid = bit_and (base >>> 16) 0xFF;
  access = access;
  granularity = bit_or (bit_and gran_flags 0xF0) (bit_and (limit >>> 16) 0x0F);
  base_high = bit_and (base >>> 24) 0xFF;
}

unfoldable pub tss_entry : ℕ → ℕ → GdtEntry
tss_entry base limit = record {
  limit_low = bit_and limit 0xFFFF;
  base_low = bit_and base 0xFFFF;
  base_mid = bit_and (base >>> 16) 0xFF;
  access = 0x89;
  granularity = bit_and (limit >>> 16) 0x0F;
  base_high = bit_and (base >>> 24) 0xFF;
}

-- The six descriptors, for the task state segment's base and size if there is one.
unfoldable pub descriptors : Option (ℕ × ℕ) → List GdtEntry
descriptors tss =
    encode_entry 0 0 0x00 0x00
    ∷ (encode_entry 0 0xFFFFF 0x9A 0xC0
        ∷ (encode_entry 0 0xFFFFF 0x92 0xC0
            ∷ (encode_entry 0 0xFFFFF 0xFA 0xC0
                ∷ (encode_entry 0 0xFFFFF 0xF2 0xC0
                    ∷ ((elim tss [
                      | none ↦ encode_entry 0 0 0x00 0x00
                      | some s ↦ tss_entry s.0 (sub32 s.1 1)
                    ])
                        ∷ [])))))

-- What the processor reads from a descriptor.
abbrev pub base_of : GdtEntry → ℕ
base_of e = e.base_low + e.base_mid * 2 ^ 16 + e.base_high * 2 ^ 24

abbrev pub limit_of : GdtEntry → ℕ
limit_of e = e.limit_low + e.granularity % 16 * 2 ^ 16

abbrev pub flags_of : GdtEntry → ℕ
flags_of e = e.granularity / 16

-- The processor reads from a descriptor the 32-bit base, the 20-bit limit, the access byte and the four
-- flags that it was made from.
pub encode_entry_lem :
    (base limit access gran_flags : ℕ)
    → base < 2 ^ 32
    → limit < 2 ^ 20
    → gran_flags < 2 ^ 8
    → (base_of (encode_entry base limit access gran_flags) ≡ base)
      × (limit_of (encode_entry base limit access gran_flags) ≡ limit)
      × ((encode_entry base limit access gran_flags).access ≡ access)
      × (flags_of (encode_entry base limit access gran_flags) ≡ gran_flags / 16)
unfolding encode_entry
encode_entry_lem base limit access gran_flags hb hl hg =
    let b0 = bit_and_mask 16 base in
    let b1 = bit_and_mask 8 (base / 2 ^ 16) in
    let b2 = bit_and_mask 8 (base / 2 ^ 24) in
    let l0 = bit_and_mask 16 limit in
    let l1 = bit_and_mask 4 (limit / 2 ^ 16) in
    let high = bit_and_high 4 gran_flags 15 in
    let kept = bit_and_mask 4 (gran_flags / 2 ^ 4) in
    let top : bit_and gran_flags 0xF0 ≡ gran_flags / 16 * 2 ^ 4 = omega arith in
    let bottom : bit_and (limit / 2 ^ 16) 0x0F ≡ limit / 2 ^ 16 = omega arith in
    let gran : bit_or (bit_and gran_flags 0xF0) (bit_and (limit / 2 ^ 16) 0x0F)
        ≡ gran_flags / 16 * 2 ^ 4 + limit / 2 ^ 16 =
      rw (top, bottom) (bit_or_fields 4 (gran_flags / 16) (limit / 2 ^ 16) (omega arith)) in
    (omega arith, omega arith, refl, omega arith)
