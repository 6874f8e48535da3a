-- ===== src/Fs/Disk.antt =====
-- src/drivers/ata.cpp: the sectors that `Read28` and `Write28` transfer, and runs over a disk.
-- The drive is its sectors and the sectors that a read waits for in vain; it takes every write.
use layla_os.Base.{
  ℕ, ◌+◌, ◌*◌, ◌/◌, ◌%◌, ◌^◌, ◌<◌, ◌≡◌, refl, Bool, true, false, Option, none, some, List,
  if◌then◌else◌, ◌==◌, arith,
}
use layla_os.Net.Wire.{read}

-- `stack` is what a buffer of a function holds before anything is stored in it.
pub record Disk : Type 0 where
  pub sectors : ℕ → List ℕ
  pub silent : ℕ → Bool
  pub stack : List ℕ

-- An array of `n` bytes on the stack.
unfoldable pub stack_buffer : ℕ → Disk → List ℕ
stack_buffer n d = read n d.stack

-- The sector that the four address registers name.
unfoldable pub lba28 : ℕ → ℕ
lba28 lba =
    lba / 2 ^ 24 % 16 * 2 ^ 24 + lba / 2 ^ 16 % 256 * 2 ^ 16 + lba / 2 ^ 8 % 256 * 2 ^ 8 + lba % 256

-- The registers keep 28 bits of an address.
pub lba28-small : (lba : ℕ) → lba < 2 ^ 28 → lba28 lba ≡ lba
unfolding lba28
lba28-small lba h = omega arith

-- `Read28` of one sector into the buffer; without an answer the buffer stays.
unfoldable pub read28 : Disk → ℕ → List ℕ → Bool × List ℕ
read28 d lba buffer =
    if d.silent (lba28 lba) then (false, buffer) else (true, d.sectors (lba28 lba))

abbrev pub put_sector : (ℕ → List ℕ) → ℕ → List ℕ → ℕ → List ℕ
put_sector sectors lba bytes = λ j. if lba == j then bytes else sectors j

-- `Write28` of one sector answers true on every path.
unfoldable pub write28 : Disk → ℕ → List ℕ → Bool × Disk
write28 d lba bytes = (true, record d { sectors = put_sector d.sectors (lba28 lba) bytes })

-- A run over the disk: `fault` is an access past the end of a buffer or a division by zero,
-- `out_of_fuel` a loop that has not ended within its fuel.
pub data Run (A : Type 0) : Type 0 where
  ok : A → Disk → Run A
  fault : Run A
  out_of_fuel : Run A

abbrev pub Cmd : Type 0 → Type 0
Cmd A = Disk → Run A

abbrev pub pure : {A : Type 0} → A → Cmd A
pure = ok

abbrev pub gets : {A : Type 0} → (Disk → A) → Cmd A
gets f d = ok (f d) d

-- A step that only reads and may fault.
abbrev pub reads : {A : Type 0} → (Disk → Option A) → Cmd A
reads f d = elim (f d) [ none ↦ fault | some a ↦ ok a d ]

module _ {A B : Type 0} where
  abbrev pub and_then : Run A → (A → Cmd B) → Run B
  and_then (ok a d) k = k a d
  and_then fault k = fault
  and_then out_of_fuel k = out_of_fuel

  infixl 5 ◌>>=◌
  abbrev pub ◌>>=◌ : Cmd A → (A → Cmd B) → Cmd B
  m >>= k = λ d. and_then (m d) k

-- `if (!m) return false;` before `n`.
infixr 6 ◌&&&◌
abbrev pub ◌&&&◌ : Cmd Bool → Cmd Bool → Cmd Bool
m &&& n = m >>= λ b. if b then n else pure false

pub reads-some :
    {A B : Type 0} (f : Disk → Option A) (k : A → Cmd B) (d : Disk) (a : A)
    → f d ≡ some a
    → (reads f >>= k) d ≡ k a d
reads-some f k d a h = rw (reads, h) refl

-- A step that is known to succeed.
pub bind-ok :
    {A B : Type 0} (m : Cmd A) (k : A → Cmd B) (d d' : Disk) (a : A)
    → m d ≡ ok a d'
    → (m >>= k) d ≡ k a d'
bind-ok m k d d' a h = rw h refl
