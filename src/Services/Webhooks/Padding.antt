-- ===== src/Services/Webhooks/Padding.antt =====
-- services/webhooks.rs: what the padding of SHA-256 promises.
use Prim.Native.Nat.{◌*◌, ◌/◌, ◌%◌, ◌^◌}
use rsmc_engine.Base.{
  ℕ, zero, suc, ◌+◌, ◌-◌, ◌<◌, ◌≤◌, ◌≡◌, refl, sym, ap, ◌∙◌, append-nil, [], ◌∷◌, ◌++◌, ◌==◌,
  length, length-append, take, Bytes, arith, Bool-cases, inl, inr, append_assoc,
}
use rsmc_engine.Services.Webhooks.Sha256.{fill, be_bytes, be_bytes64, padded}

-- How many zeros the loop pushes from a length.
abbrev gap : ℕ → ℕ
gap n = (120 - n % 64) % 64

fill-length :
    (fuel : ℕ) (msg : Bytes)
    → gap (length msg) ≤ fuel
    → length (fill fuel msg) ≡ length msg + gap (length msg)
unfolding fill
fill-length zero msg h = omega (arith, h)
fill-length (suc fuel) msg h = elim (Bool-cases (length msg % 64 == 56)) [
  | inl done ↦ rw done (ground (arith, done))
  | inr more ↦
      rw more
        (ground (arith, more, h, fill-length fuel (msg ++ 0 ∷ []), length-append msg (0 ∷ [])))
]

fill-append : (fuel : ℕ) (msg : Bytes) → (rest : Bytes) × (fill fuel msg ≡ msg ++ rest)
unfolding fill
fill-append zero msg = ([], sym (append-nil msg))
fill-append (suc fuel) msg = elim (Bool-cases (length msg % 64 == 56)) [
  | inl done ↦ rw done ([], sym (append-nil msg))
  | inr more ↦ rw more (
      let (rest, e) = fill-append fuel (msg ++ 0 ∷ []) in
      (0 ∷ rest, e ∙ append_assoc msg (0 ∷ []) rest))
]

stable : (fuel : ℕ) (msg : Bytes) → gap (length msg) ≤ fuel → fill (suc fuel) msg ≡ fill fuel msg
unfolding fill
stable zero msg h = ground (arith, h)
stable (suc fuel) msg h = elim (Bool-cases (length msg % 64 == 56)) [
  | inl done ↦ rw done refl
  | inr more ↦
      rw more (stable fuel (msg ++ 0 ∷ []) (ground (arith, h, more, length-append msg (0 ∷ []))))
]

-- With 63 steps or more, the loop that pushes zeros ends: the length is 56 modulo 64, and another
-- step pushes nothing.
pub fill_ends :
    (fuel : ℕ) (msg : Bytes)
    → 63 ≤ fuel
    → (length (fill fuel msg) % 64 ≡ 56) × (fill (suc fuel) msg ≡ fill fuel msg)
fill_ends fuel msg enough = (ends, stable fuel msg fits)
  where
    fits : gap (length msg) ≤ fuel
    fits = omega (arith, enough)

    ends : length (fill fuel msg) % 64 ≡ 56
    ends = omega (arith, fill-length fuel msg fits)

drop : ℕ → Bytes → Bytes
drop zero xs = xs
drop (suc n) [] = []
drop (suc n) (x ∷ xs) = drop n xs

be_value : (high : ℕ) → Bytes → ℕ
be_value high [] = high
be_value high (b ∷ bs) = be_value (high * 256 + b) bs

-- A reading of a padded message: the last eight bytes are its length in bits.
unfoldable pub unpadded : Bytes → Bytes
unfolding drop be_value
unpadded p = take (be_value 0 (drop (length p - 8) p) / 8) p

drop-append : (xs ys : Bytes) → drop (length xs) (xs ++ ys) ≡ ys
unfolding drop
drop-append [] ys = refl
drop-append (x ∷ xs) ys = drop-append xs ys

take-append : (xs ys : Bytes) → take (length xs) (xs ++ ys) ≡ xs
take-append [] ys = refl
take-append (x ∷ xs) ys = ap (λ zs. x ∷ zs) (take-append xs ys)

be_value-be_bytes64 : (n : ℕ) → n < 2 ^ 64 → be_value 0 (be_bytes64 n) ≡ n
unfolding be_value be_bytes64 be_bytes
be_value-be_bytes64 n h = omega (arith, h)

length-be_bytes64 : (n : ℕ) → length (be_bytes64 n) ≡ 8
unfolding be_bytes64 be_bytes
length-be_bytes64 n = refl

length-tail : (xs : Bytes) (n : ℕ) → length (xs ++ be_bytes64 n) ≡ length xs + 8
length-tail xs n = length-append xs (be_bytes64 n) ∙ ap (λ k. length xs + k) (length-be_bytes64 n)

read_tail :
    (xs : Bytes) (n : ℕ)
    → n < 2 ^ 64
    → unpadded (xs ++ be_bytes64 n) ≡ take (n / 8) (xs ++ be_bytes64 n)
unfolding unpadded
read_tail xs n h =
    rw (length-tail xs n, back, drop-append xs (be_bytes64 n), be_value-be_bytes64 n h) refl
  where
    back : length xs + 8 - 8 ≡ length xs
    back = omega arith

read_back :
    (msg rest : Bytes) (n : ℕ)
    → n < 2 ^ 64
    → n / 8 ≡ length msg
    → unpadded ((msg ++ rest) ++ be_bytes64 n) ≡ msg
read_back msg rest n h eighth =
    read_tail (msg ++ rest) n h
    ∙ rw (eighth, append_assoc msg rest (be_bytes64 n)) (take-append msg (rest ++ be_bytes64 n))

-- A message of fewer than 2⁶¹ bytes, padded, has a length that 64 divides, and what is read back
-- from it is the message; so two messages have the same padded form only when they are the same.
pub unpadded-padded :
    (msg : Bytes)
    → length msg < 2 ^ 61
    → (length (padded msg) % 64 ≡ 0) × (unpadded (padded msg) ≡ msg)
unfolding padded
unpadded-padded msg short =
    let bits = (length msg * 8) % 2 ^ 64 in
    let (rest, e) = fill-append 64 (msg ++ 0x80 ∷ []) in
    (
      omega (
        arith,
        length-tail (fill 64 (msg ++ 0x80 ∷ [])) bits,
        (fill_ends 64 (msg ++ 0x80 ∷ []) (omega arith)).0,
      ),
      rw (e, append_assoc msg (0x80 ∷ []) rest)
          (read_back msg (0x80 ∷ rest) bits (omega arith) (omega (arith, short))),
    )
