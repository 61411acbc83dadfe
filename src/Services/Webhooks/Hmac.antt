-- ===== src/Services/Webhooks/Hmac.antt =====
-- services/webhooks.rs, `hmac_sha256::{hex, mac}` and `sign`: HMAC-SHA256 and its hexadecimal form.
use Prim.Native.Nat.{bit_xor, ◌/◌, ◌%◌}
use rsmc_engine.Base.{ℕ, ◌+◌, ◌-◌, [], ◌∷◌, ◌++◌, if◌then◌else◌, ltb, length, Bytes, Text, text}
use rsmc_engine.Services.Webhooks.Sha256.{sha256, zeros}

-- The key, hashed when it is longer than a block, filled with zeros to 64 bytes.
unfoldable pub key_block : (key : Bytes) → Bytes
unfolding zeros
key_block key =
    if ltb 64 (length key)
    then (let h = sha256 key in h ++ zeros (64 - length h))
    else key ++ zeros (64 - length key)

-- `ipad[i] ^= k[i]`
unfoldable pub xor_with : ℕ → Bytes → Bytes
xor_with pad [] = []
xor_with pad (b ∷ bs) = bit_xor pad b ∷ xor_with pad bs

unfoldable pub mac : (key msg : Bytes) → Bytes
unfolding key_block xor_with
mac key msg = let k = key_block key in sha256 (xor_with 0x5c k ++ sha256 (xor_with 0x36 k ++ msg))

-- A lowercase hexadecimal digit.
unfoldable pub digit : ℕ → ℕ
digit n = if ltb n 10 then b'0' + n else b'a' + (n - 10)

-- `format!("{b:02x}")` of each byte.
unfoldable pub to_hex : Bytes → Text
unfolding digit
to_hex [] = []
to_hex (b ∷ bs) = digit (b / 16) ∷ digit (b % 16) ∷ to_hex bs

unfoldable pub hex : (key msg : Bytes) → Text
unfolding to_hex
hex key msg = to_hex (mac key msg)

-- `sign`, and the value of the X-Signature header.
unfoldable pub signature : (secret body : Bytes) → Text
signature secret body = text "sha256=" ++ hex secret body
