-- ===== src/Net/Wire.antt =====
-- src/net/net.h: byte order, addresses, and the packed structures as bytes in memory.
-- Memory is the list of bytes from a pointer on; past its end a read gives 0. A `uint16_t` or
-- `uint32_t` read through a pointer is little-endian, as on the i386.
pub mod Swap
pub mod Read
use layla_os.Base.{
  ℕ, zero, suc, ◌+◌, ◌*◌, ◌/◌, ◌%◌, ◌^◌, Bool, true, false, ◌&&◌, Option, none, some, List, [], ◌∷◌,
  ◌++◌, if◌then◌else◌, leb, ◌==◌, bit_and, bit_or, u16, u32, ◌<<<◌, ◌>>>◌, get_or, length, take,
  drop, replicate,
}

abbrev pub load8 : List ℕ → ℕ → ℕ
load8 mem i = get_or mem i 0

abbrev pub load16 : List ℕ → ℕ → ℕ
load16 mem i = get_or mem i 0 + 256 * get_or mem (i + 1) 0

abbrev pub load32 : List ℕ → ℕ → ℕ
load32 mem i = load16 mem i + 65536 * load16 mem (i + 2)

-- The bytes of a `uint16_t` and of a `uint32_t`.
abbrev pub bytes16 : ℕ → List ℕ
bytes16 x = x % 256 ∷ x / 256 % 256 ∷ []

abbrev pub bytes32 : ℕ → List ℕ
bytes32 x = x % 256 ∷ x / 256 % 256 ∷ x / 65536 % 256 ∷ x / 16777216 % 256 ∷ []

unfoldable pub htons : ℕ → ℕ
htons x = u16 (bit_or (x >>> 8) (x <<< 8))

unfoldable pub htonl : ℕ → ℕ
htonl x =
    bit_or
      (bit_or (bit_or (bit_and x 0xFF000000 >>> 24) (bit_and x 0x00FF0000 >>> 8))
        (u32 (bit_and x 0x0000FF00 <<< 8)))
      (u32 (bit_and x 0x000000FF <<< 24))

abbrev pub ntohs : ℕ → ℕ
ntohs x = htons x

abbrev pub ntohl : ℕ → ℕ
ntohl x = htonl x

pub record Ipv4Address : Type 0 where
  pub a : ℕ
  pub b : ℕ
  pub c : ℕ
  pub d : ℕ

abbrev pub from_bytes : ℕ → ℕ → ℕ → ℕ → Ipv4Address
from_bytes a b c d = record { a = a; b = b; c = c; d = d }

abbrev pub ip_eq : Ipv4Address → Ipv4Address → Bool
ip_eq x y = x.a == y.a && x.b == y.b && x.c == y.c && x.d == y.d

abbrev pub ip_bytes : Ipv4Address → List ℕ
ip_bytes x = x.a ∷ x.b ∷ x.c ∷ x.d ∷ []

abbrev pub load_ip : List ℕ → ℕ → Ipv4Address
load_ip mem i = from_bytes (load8 mem i) (load8 mem (i + 1)) (load8 mem (i + 2)) (load8 mem (i + 3))

pub record MacAddress : Type 0 where
  pub b0 : ℕ
  pub b1 : ℕ
  pub b2 : ℕ
  pub b3 : ℕ
  pub b4 : ℕ
  pub b5 : ℕ

abbrev pub mac : ℕ → ℕ → ℕ → ℕ → ℕ → ℕ → MacAddress
mac b0 b1 b2 b3 b4 b5 = record { b0 = b0; b1 = b1; b2 = b2; b3 = b3; b4 = b4; b5 = b5 }

abbrev pub broadcast : MacAddress
broadcast = mac 0xFF 0xFF 0xFF 0xFF 0xFF 0xFF

abbrev pub mac_eq : MacAddress → MacAddress → Bool
mac_eq x y =
    x.b0 == y.b0 && x.b1 == y.b1 && x.b2 == y.b2 && x.b3 == y.b3 && x.b4 == y.b4 && x.b5 == y.b5

abbrev pub is_broadcast : MacAddress → Bool
is_broadcast m = mac_eq m broadcast

abbrev pub mac_bytes : MacAddress → List ℕ
mac_bytes m = m.b0 ∷ m.b1 ∷ m.b2 ∷ m.b3 ∷ m.b4 ∷ m.b5 ∷ []

abbrev pub load_mac : List ℕ → ℕ → MacAddress
load_mac mem i =
    mac (load8 mem i) (load8 mem (i + 1)) (load8 mem (i + 2)) (load8 mem (i + 3))
      (load8 mem (i + 4)) (load8 mem (i + 5))

-- The `n` bytes that a copy loop reads from a pointer.
abbrev pub read : ℕ → List ℕ → List ℕ
read zero mem = []
read (suc n) [] = 0 ∷ read n []
read (suc n) (x ∷ mem) = x ∷ read n mem

-- Writes into a static buffer; `none` where they would run past its end.
unfoldable pub write_at : List ℕ → ℕ → List ℕ → Option (List ℕ)
write_at buf i bytes =
    if leb (i + length bytes) (length buf)
    then some (take i buf ++ (bytes ++ drop (i + length bytes) buf))
    else none
