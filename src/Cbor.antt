-- ===== src/Cbor.antt =====
-- The CBOR library, src/cbor: the major types and limits of bio_cbor.h, which the encoder, the
-- decoder and the CTAP2 utilities share, and the RFC 8949 head that all three must agree on.
pub mod Head
pub mod Encoder
pub mod Tree
pub mod Decoder
pub mod Ctap2
pub mod Roundtrip
mod Tests
use hiya.Base.{ℕ, ◌+◌, ◌*◌, ◌/◌, ◌%◌, ◌^◌, ◌<◌, ◌-◌, ◌==◌, ◌≡◌, if◌then◌else◌, arith}

-- `bio_cbor_major_t`.
pub data Major : Type 0 where
  uint negint bstr tstr array map tag simple : Major

-- The value of the enumerator.
abbrev pub code : Major → ℕ
code Major.uint = 0
code Major.negint = 1
code Major.bstr = 2
code Major.tstr = 3
code Major.array = 4
code Major.map = 5
code Major.tag = 6
code Major.simple = 7

-- The cast `(bio_cbor_major_t)n` for `n` below 8.
abbrev pub major_of : ℕ → Major
major_of n =
    if n == 0
    then Major.uint
    else if n == 1
    then Major.negint
    else if n == 2
    then Major.bstr
    else if n == 3
    then Major.tstr
    else if n == 4
    then Major.array
    else if n == 5
    then Major.map
    else if n == 6
    then Major.tag
    else Major.simple

-- `BIO_CBOR_FALSE`, `BIO_CBOR_TRUE`, `BIO_CBOR_NULL`, `BIO_CBOR_UNDEFINED`.
abbrev pub simple_false : ℕ
simple_false = 20

abbrev pub simple_true : ℕ
simple_true = 21

abbrev pub simple_null : ℕ
simple_null = 22

abbrev pub simple_undefined : ℕ
simple_undefined = 23

-- `BIO_CBOR_MAX_DEPTH`.
abbrev pub max_depth : ℕ
max_depth = 16

-- `SIZE_MAX` and `UINT64_MAX` of a 64-bit build.
abbrev pub size_max : ℕ
size_max = 2 ^ 64 - 1

-- Addition of `size_t`.
abbrev pub add_size : ℕ → ℕ → ℕ
add_size a b = (a + b) % 2 ^ 64

-- The casts to `uint8_t`, `uint16_t` and `uint32_t`.
abbrev pub u8 : ℕ → ℕ
u8 x = x % 2 ^ 8

abbrev pub u16 : ℕ → ℕ
u16 x = x % 2 ^ 16

abbrev pub u32 : ℕ → ℕ
u32 x = x % 2 ^ 32

-- `x >> k`.
abbrev pub shr : ℕ → ℕ → ℕ
shr x k = x / 2 ^ k

-- `(uint64_t)x << k`.
abbrev pub shl64 : ℕ → ℕ → ℕ
shl64 x k = x * 2 ^ k % 2 ^ 64

pub code-lt : (mt : Major) → code mt < 8
code-lt Major.uint = omega arith
code-lt _ = omega arith

pub major_of-code : (mt : Major) → major_of (code mt) ≡ mt
major_of-code mt = ground arith

-- Subtraction of `size_t`.
abbrev pub sub_size : ℕ → ℕ → ℕ
sub_size a b = (a + 2 ^ 64 - b) % 2 ^ 64
