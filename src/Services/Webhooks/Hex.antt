-- ===== src/Services/Webhooks/Hex.antt =====
-- services/webhooks.rs: what the signature of a delivery says.
use Prim.Native.Nat.{◌*◌, ◌/◌, ◌%◌}
use rsmc_engine.Base.{
  ℕ, ◌+◌, ◌-◌, ◌<◌, ◌≤◌, ◌⊎◌, ◌≡◌, refl, ap, ◌∙◌, Option, none, some, List, [], ◌∷◌, ◌++◌, text,
  if◌then◌else◌, ltb, length, All, All-append, Bytes, Text, arith,
}
use rsmc_engine.Services.Webhooks.Sha256.{State, be_bytes, to_bytes, output, hash_state, sha256}
use rsmc_engine.Services.Webhooks.Hmac.{digit, to_hex, key_block, xor_with, mac, hex, signature}

-- A hexadecimal digit in lower case.
pub IsHexDigit : ℕ → Type 0
IsHexDigit c = ((b'0' ≤ c) × (c ≤ b'9')) ⊎ ((b'a' ≤ c) × (c ≤ b'f'))

value : ℕ → ℕ
value c = if ltb c b'a' then c - b'0' else c - b'a' + 10

-- A reading of hexadecimal text.
unfoldable pub from_hex : Text → Option Bytes
unfolding value
from_hex [] = some []
from_hex (h ∷ l ∷ cs) = elim (from_hex cs) [
  | none ↦ none
  | some bs ↦ some ((value h * 16 + value l) ∷ bs)
]
from_hex (h ∷ []) = none

digit-IsHexDigit : (n : ℕ) → n < 16 → IsHexDigit (digit n)
unfolding digit IsHexDigit
digit-IsHexDigit n h = ground (arith, h)

value-digit : (n : ℕ) → n < 16 → value (digit n) ≡ n
unfolding value digit
value-digit n h = ground (arith, h)

to_hex-IsHexDigit : (bs : Bytes) → All (λ b. b < 256) bs → All IsHexDigit (to_hex bs)
unfolding to_hex
to_hex-IsHexDigit [] h = tt
to_hex-IsHexDigit (b ∷ bs) h = (
  digit-IsHexDigit (b / 16) (omega (arith, h.0)),
  (digit-IsHexDigit (b % 16) (omega arith), to_hex-IsHexDigit bs h.1),
)

length-to_hex : (bs : Bytes) → length (to_hex bs) ≡ 2 * length bs
unfolding to_hex
length-to_hex [] = refl
length-to_hex (b ∷ bs) = omega (arith, length-to_hex bs)

from_hex-to_hex : (bs : Bytes) → All (λ b. b < 256) bs → from_hex (to_hex bs) ≡ some bs
unfolding from_hex to_hex
from_hex-to_hex [] h = refl
from_hex-to_hex (b ∷ bs) h =
    rw
      (
        from_hex-to_hex bs h.1,
        value-digit (b / 16) (omega (arith, h.0)),
        value-digit (b % 16) (omega arith),
      )
      (ap (λ x. some (x ∷ bs)) whole)
  where
    whole : b / 16 * 16 + b % 16 ≡ b
    whole = omega arith

be_bytes-small : (x : ℕ) → All (λ b. b < 256) (be_bytes x)
unfolding be_bytes
be_bytes-small x = (omega arith, (omega arith, (omega arith, (omega arith, tt))))

to_bytes-small : (xs : List ℕ) → All (λ b. b < 256) (to_bytes xs)
unfolding to_bytes
to_bytes-small [] = tt
to_bytes-small (x ∷ xs) =
    All-append (λ b. b < 256) (be_bytes x) (to_bytes xs) (be_bytes-small x) (to_bytes-small xs)

output-small : (v : State) → All (λ b. b < 256) (output v)
unfolding output
output-small v = to_bytes-small (v.a ∷ v.b ∷ v.c ∷ v.d ∷ v.e ∷ v.f ∷ v.g ∷ v.h ∷ [])

length-output : (v : State) → length (output v) ≡ 32
unfolding output to_bytes be_bytes
length-output v = refl

-- A digest is 32 bytes.
pub sha256-bytes : (msg : Bytes) → (length (sha256 msg) ≡ 32) × All (λ b. b < 256) (sha256 msg)
unfolding sha256
sha256-bytes msg = (length-output (hash_state msg), output-small (hash_state msg))

mac-bytes : (key msg : Bytes) → (length (mac key msg) ≡ 32) × All (λ b. b < 256) (mac key msg)
unfolding mac
mac-bytes key msg =
    let k = key_block key in sha256-bytes (xor_with 0x5c k ++ sha256 (xor_with 0x36 k ++ msg))

-- The signature of a body is `sha256=` and 64 hexadecimal digits in lower case, from which the
-- receiver reads the 32 bytes of the HMAC, and so accepts no other code.
pub signature-mac :
    (secret body : Bytes)
    → (signature secret body ≡ text "sha256=" ++ hex secret body)
      × (length (hex secret body) ≡ 64)
      × All IsHexDigit (hex secret body)
      × (from_hex (hex secret body) ≡ some (mac secret body))
unfolding signature hex
signature-mac secret body = (
  refl,
  length-to_hex (mac secret body) ∙ ap (λ n. 2 * n) (mac-bytes secret body).0,
  to_hex-IsHexDigit (mac secret body) (mac-bytes secret body).1,
  from_hex-to_hex (mac secret body) (mac-bytes secret body).1,
)
