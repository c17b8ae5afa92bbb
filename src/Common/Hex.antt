-- ===== src/Common/Hex.antt =====
-- Package encoding/hex on lists of bytes.
use Prim.Native.Nat.{ℕ, ◌+◌, ◌-◌, ◌*◌, ◌/◌, ◌%◌, ◌<◌}
use mathlib.Core.Path.{◌≡◌, refl, sym, ap, ap₂, ◌∙◌}
use mathlib.Core.List.{[], ◌∷◌}
use native.Mathlib.Omega.{arith}
use network_enumerator.Common.Tests.{ltb, if◌then◌else◌}
use network_enumerator.Common.Lists.{All}
use network_enumerator.Common.Texts.{Text}

abbrev pub hex_digit : ℕ → ℕ
hex_digit n = if ltb n 10 then 48 + n else 87 + n

-- `hex.EncodeToString`.
unfoldable pub hex_encode : Text → Text
hex_encode [] = []
hex_encode (b ∷ s) = hex_digit (b / 16) ∷ hex_digit (b % 16) ∷ hex_encode s

abbrev pub hex_value : ℕ → ℕ
hex_value c = if ltb c 58 then c - 48 else c - 87

-- `hex.DecodeString` of an encoding; the source ignores its error.
unfoldable pub hex_decode : Text → Text
hex_decode [] = []
hex_decode (c ∷ []) = []
hex_decode (c ∷ d ∷ s) = (hex_value c * 16 + hex_value d) ∷ hex_decode s

abbrev pub IsBytes : Text → Type 0
IsBytes s = All (λ b. b < 256) s

hex_value-hex_digit : (n : ℕ) → n < 16 → hex_value (hex_digit n) ≡ n
hex_value-hex_digit n h = ground arith

-- A hexadecimal text is read back as it was written.
pub hex_decode-hex_encode : (s : Text) → IsBytes s → hex_decode (hex_encode s) ≡ s
unfolding hex_decode hex_encode
hex_decode-hex_encode [] h = refl
hex_decode-hex_encode (b ∷ s) (low, h) =
    let high = hex_value-hex_digit (b / 16) (omega arith) in
    let rest = hex_value-hex_digit (b % 16) (omega arith) in
    let whole : b / 16 * 16 + b % 16 ≡ b = omega arith in
    ap₂ (λ x y. x ∷ y) (ap₂ (λ x y. x * 16 + y) high rest ∙ whole) (hex_decode-hex_encode s h)

pub hex_encode-injective :
    (s t : Text) → IsBytes s → IsBytes t → hex_encode s ≡ hex_encode t → s ≡ t
hex_encode-injective s t hs ht e =
    sym (hex_decode-hex_encode s hs) ∙ ap hex_decode e ∙ hex_decode-hex_encode t ht
