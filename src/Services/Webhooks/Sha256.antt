-- ===== src/Services/Webhooks/Sha256.antt =====
-- services/webhooks.rs, `hmac_sha256::sha256`: SHA-256 on bytes, in 32-bit words that wrap around.
use Prim.Native.Nat.{bit_and, bit_xor, ◌*◌, ◌/◌, ◌%◌, ◌^◌}
use rsmc_engine.Base.{
  ℕ, zero, suc, ◌+◌, ◌-◌, List, [], ◌∷◌, ◌++◌, if◌then◌else◌, ◌==◌, length, Bytes,
}

unfoldable pub wrapping_add : ℕ → ℕ → ℕ
wrapping_add a b = (a + b) % 2 ^ 32

unfoldable pub rotate_right : (n : ℕ) → ℕ → ℕ
rotate_right n x = x / 2 ^ n + (x * 2 ^ (32 - n)) % 2 ^ 32

-- `!x` on a u32.
abbrev complement : ℕ → ℕ
complement x = 2 ^ 32 - 1 - x

-- `w[i]` and `w[i] = x`, on arrays that are long enough.
unfoldable pub get : ℕ → List ℕ → ℕ
get i [] = 0
get zero (x ∷ xs) = x
get (suc i) (x ∷ xs) = get i xs

unfoldable pub set : ℕ → ℕ → List ℕ → List ℕ
set i y [] = []
set zero y (x ∷ xs) = y ∷ xs
set (suc i) y (x ∷ xs) = x ∷ set i y xs

unfoldable pub zeros : ℕ → List ℕ
zeros zero = []
zeros (suc n) = 0 ∷ zeros n

-- `u32::from_be_bytes` of each group of four.
unfoldable pub words : Bytes → List ℕ
words (a ∷ b ∷ c ∷ d ∷ rest) = (a * 2 ^ 24 + b * 2 ^ 16 + c * 2 ^ 8 + d) ∷ words rest
words _ = []

-- `to_be_bytes` of a u32.
unfoldable pub be_bytes : ℕ → Bytes
be_bytes x = (x / 2 ^ 24) % 256 ∷ (x / 2 ^ 16) % 256 ∷ (x / 2 ^ 8) % 256 ∷ x % 256 ∷ []

-- `to_be_bytes` of a u64.
unfoldable pub be_bytes64 : ℕ → Bytes
unfolding be_bytes
be_bytes64 x = be_bytes (x / 2 ^ 32) ++ be_bytes x

-- `while msg.len() % 64 != 56 { msg.push(0) }`
unfoldable pub fill : (fuel : ℕ) → Bytes → Bytes
fill zero msg = msg
fill (suc fuel) msg = if length msg % 64 == 56 then msg else fill fuel (msg ++ 0 ∷ [])

unfoldable pub padded : Bytes → Bytes
unfolding fill be_bytes64
padded msg = fill 64 (msg ++ 0x80 ∷ []) ++ be_bytes64 ((length msg * 8) % 2 ^ 64)

unfoldable pub expanded : (i : ℕ) → List ℕ → ℕ
unfolding get rotate_right wrapping_add
expanded i w =
    let a = get (i - 15) w in
    let b = get (i - 2) w in
    let s0 = bit_xor (bit_xor (rotate_right 7 a) (rotate_right 18 a)) (a / 2 ^ 3) in
    let s1 = bit_xor (bit_xor (rotate_right 17 b) (rotate_right 19 b)) (b / 2 ^ 10) in
    wrapping_add (wrapping_add (wrapping_add (get (i - 16) w) s0) (get (i - 7) w)) s1

-- `for i in 16..64 { w[i] = … }`, from i on, `left` times.
unfoldable pub schedule : (left i : ℕ) → List ℕ → List ℕ
unfolding set expanded
schedule zero i w = w
schedule (suc left) i w = schedule left (suc i) (set i (expanded i w) w)

-- `[u32; 8]`
pub record State : Type 0 where
  pub a : ℕ
  pub b : ℕ
  pub c : ℕ
  pub d : ℕ
  pub e : ℕ
  pub f : ℕ
  pub g : ℕ
  pub h : ℕ

unfoldable pub round : (k w : ℕ) → State → State
unfolding rotate_right wrapping_add
round k w v =
    let s1 = bit_xor (bit_xor (rotate_right 6 v.e) (rotate_right 11 v.e)) (rotate_right 25 v.e) in
    let ch = bit_xor (bit_and v.e v.f) (bit_and (complement v.e) v.g) in
    let t1 = wrapping_add (wrapping_add (wrapping_add (wrapping_add v.h s1) ch) k) w in
    let s0 = bit_xor (bit_xor (rotate_right 2 v.a) (rotate_right 13 v.a)) (rotate_right 22 v.a) in
    let maj = bit_xor (bit_xor (bit_and v.a v.b) (bit_and v.a v.c)) (bit_and v.b v.c) in
    let t2 = wrapping_add s0 maj in
    record {
      a = wrapping_add t1 t2;
      b = v.a;
      c = v.b;
      d = v.c;
      e = wrapping_add v.d t1;
      f = v.e;
      g = v.f;
      h = v.g;
    }

-- `for i in 0..64`, over K and w.
unfoldable pub rounds : (ks ws : List ℕ) → State → State
unfolding round
rounds (k ∷ ks) (w ∷ ws) v = rounds ks ws (round k w v)
rounds _ _ v = v

abbrev round_constants : List ℕ
round_constants =
    0x428a2f98 ∷ 0x71374491 ∷ 0xb5c0fbcf ∷ 0xe9b5dba5 ∷ 0x3956c25b ∷ 0x59f111f1 ∷ 0x923f82a4
    ∷ 0xab1c5ed5 ∷ 0xd807aa98 ∷ 0x12835b01 ∷ 0x243185be ∷ 0x550c7dc3 ∷ 0x72be5d74 ∷ 0x80deb1fe
    ∷ 0x9bdc06a7 ∷ 0xc19bf174 ∷ 0xe49b69c1 ∷ 0xefbe4786 ∷ 0x0fc19dc6 ∷ 0x240ca1cc ∷ 0x2de92c6f
    ∷ 0x4a7484aa ∷ 0x5cb0a9dc ∷ 0x76f988da ∷ 0x983e5152 ∷ 0xa831c66d ∷ 0xb00327c8 ∷ 0xbf597fc7
    ∷ 0xc6e00bf3 ∷ 0xd5a79147 ∷ 0x06ca6351 ∷ 0x14292967 ∷ 0x27b70a85 ∷ 0x2e1b2138 ∷ 0x4d2c6dfc
    ∷ 0x53380d13 ∷ 0x650a7354 ∷ 0x766a0abb ∷ 0x81c2c92e ∷ 0x92722c85 ∷ 0xa2bfe8a1 ∷ 0xa81a664b
    ∷ 0xc24b8b70 ∷ 0xc76c51a3 ∷ 0xd192e819 ∷ 0xd6990624 ∷ 0xf40e3585 ∷ 0x106aa070 ∷ 0x19a4c116
    ∷ 0x1e376c08 ∷ 0x2748774c ∷ 0x34b0bcb5 ∷ 0x391c0cb3 ∷ 0x4ed8aa4a ∷ 0x5b9cca4f ∷ 0x682e6ff3
    ∷ 0x748f82ee ∷ 0x78a5636f ∷ 0x84c87814 ∷ 0x8cc70208 ∷ 0x90befffa ∷ 0xa4506ceb ∷ 0xbef9a3f7
    ∷ 0xc67178f2 ∷ []

abbrev pub initial : State
initial = record {
  a = 0x6a09e667;
  b = 0xbb67ae85;
  c = 0x3c6ef372;
  d = 0xa54ff53a;
  e = 0x510e527f;
  f = 0x9b05688c;
  g = 0x1f83d9ab;
  h = 0x5be0cd19;
}

abbrev pub add_state : State → State → State
unfolding wrapping_add
add_state x y = record {
  a = wrapping_add x.a y.a;
  b = wrapping_add x.b y.b;
  c = wrapping_add x.c y.c;
  d = wrapping_add x.d y.d;
  e = wrapping_add x.e y.e;
  f = wrapping_add x.f y.f;
  g = wrapping_add x.g y.g;
  h = wrapping_add x.h y.h;
}

unfoldable pub compress : (block : Bytes) → State → State
unfolding words zeros schedule rounds wrapping_add
compress block v = add_state v (rounds round_constants (schedule 48 16 (words block ++ zeros 48)) v)

-- `chunks_exact(64)`, with the first `n` bytes of a chunk gathered in `chunk`.
abbrev pub split_at : (n : ℕ) → Bytes → Bytes × Bytes
split_at zero xs = ([], xs)
split_at (suc n) [] = ([], [])
split_at (suc n) (x ∷ xs) = let (block, rest) = split_at n xs in (x ∷ block, rest)

unfoldable pub compress_all : (chunks : ℕ) → Bytes → State → State
unfolding compress
compress_all zero msg v = v
compress_all (suc chunks) msg v =
    let (block, rest) = split_at 64 msg in compress_all chunks rest (compress block v)

-- `for (i, word) in h.iter().enumerate()`
unfoldable pub to_bytes : List ℕ → Bytes
unfolding be_bytes
to_bytes [] = []
to_bytes (x ∷ xs) = be_bytes x ++ to_bytes xs

unfoldable pub output : State → Bytes
unfolding to_bytes
output v = to_bytes (v.a ∷ v.b ∷ v.c ∷ v.d ∷ v.e ∷ v.f ∷ v.g ∷ v.h ∷ [])

-- `h` after all the chunks.
unfoldable pub hash_state : Bytes → State
unfolding padded compress_all
hash_state bytes = let msg = padded bytes in compress_all (length msg / 64) msg initial

unfoldable pub sha256 : Bytes → Bytes
unfolding hash_state output
sha256 bytes = output (hash_state bytes)
