-- ===== src/Prelude/Bytes.antt =====
-- Bytes are numbers below 256; the fixed-width encodings of encoding/binary.
use Prim.Native.Nat.{ℕ, ◌+◌, ◌*◌, ◌/◌, ◌%◌, ◌<◌}
use mathlib.Core.Path.{◌≡◌}
use mathlib.Core.List.{List, [], ◌∷◌}
use mathlib.Core.Bool.{Bool, true, false, ◌&&◌}
use mathlib.Core.Logic.{◌↔◌}
use native.Mathlib.Omega.{arith}
use mlstore_db.Prelude.Tests.{◌==◌}

abbrev pub Byte : Type 0
Byte = ℕ

abbrev pub Bytes : Type 0
Bytes = List Byte

-- binary.LittleEndian.PutUint16, PutUint32 and binary.BigEndian.PutUint16.
abbrev pub put_le16 : ℕ → Bytes
put_le16 n = n % 256 ∷ (n / 256) % 256 ∷ []

abbrev pub put_le32 : ℕ → Bytes
put_le32 n = n % 256 ∷ (n / 256) % 256 ∷ (n / 65536) % 256 ∷ (n / 16777216) % 256 ∷ []

abbrev pub put_be16 : ℕ → Bytes
put_be16 n = (n / 256) % 256 ∷ n % 256 ∷ []

-- Uint16 and Uint32 of the slice's first bytes; the callers have checked the length.
abbrev pub le16 : Bytes → ℕ
le16 (a ∷ b ∷ _) = a + 256 * b
le16 _ = 0

abbrev pub le32 : Bytes → ℕ
le32 (a ∷ b ∷ c ∷ d ∷ _) = a + 256 * b + 65536 * c + 16777216 * d
le32 _ = 0

abbrev pub be16 : Bytes → ℕ
be16 (a ∷ b ∷ _) = 256 * a + b
be16 _ = 0

pub le16-put : (n : ℕ) → n < 65536 → n % 256 + 256 * ((n / 256) % 256) ≡ n
le16-put n h = omega arith

pub be16-put : (n : ℕ) → n < 65536 → 256 * ((n / 256) % 256) + n % 256 ≡ n
be16-put n h = omega arith

pub le32-put :
    (n : ℕ)
    → n < 4294967296
    → n % 256
        + 256 * ((n / 256) % 256)
        + 65536 * ((n / 65536) % 256)
        + 16777216 * ((n / 16777216) % 256)
      ≡ n
le32-put n h = omega arith

-- Go's == on strings and bytes.Equal.
unfoldable pub bytes_eq : Bytes → Bytes → Bool
bytes_eq [] [] = true
bytes_eq [] (b ∷ bs) = false
bytes_eq (a ∷ as_) [] = false
bytes_eq (a ∷ as_) (b ∷ bs) = a == b && bytes_eq as_ bs

pub bytes_eq_iff : (s t : Bytes) → (bytes_eq s t ≡ true) ↔ (s ≡ t)
unfolding bytes_eq
bytes_eq_iff [] [] = ground arith
bytes_eq_iff [] (b ∷ bs) = ground arith
bytes_eq_iff (a ∷ s) [] = ground arith
bytes_eq_iff (a ∷ s) (b ∷ t) = ground (arith, bytes_eq_iff s t)
