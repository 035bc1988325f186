-- ===== src/OpenThread/Hex.antt =====
-- extension/gmailThread.ts: the decimal id of a page and the hexadecimal one of the API.
use aimail.Base.{
  ℕ, zero, suc, ◌+◌, ◌*◌, ◌-◌, ◌/◌, ◌%◌, ◌≤◌, ◌<◌, Bool, true, false, ◌&&◌, some, [], ◌∷◌, ◌++◌,
  Text, codes, all, is_empty, ltb, ◌≡◌, refl, ap, ◌∙◌, arith, Bool-cases, inl, inr, if◌then◌else◌,
}
use aimail.OpenThread.Urls.{
  is_digit, is_hex_digit, number_from, hex_digit, hex_from, hex, hex_from_perm_id, starts_with,
}

-- The number that a hexadecimal text stands for.
hex_value : ℕ → ℕ
hex_value c = if is_digit c then c - b'0' else c - b'a' + 10

value_from : ℕ → Text → ℕ
value_from n [] = n
value_from n (c ∷ t) = value_from (16 * n + hex_value c) t

hex_value-hex_digit : (d : ℕ) → d < 16 → hex_value (hex_digit d) ≡ d
unfolding hex_value
hex_value-hex_digit d h = ground arith

is_hex_digit-hex_digit : (d : ℕ) → d < 16 → is_hex_digit (hex_digit d) ≡ true
is_hex_digit-hex_digit d h = ground arith

value_from-hex_from :
    (rounds n : ℕ) (later : Text)
    → n < rounds
    → value_from 0 (hex_from rounds n later) ≡ value_from n later
unfolding hex_from value_from
value_from-hex_from zero n later h = absurd (omega arith)
value_from-hex_from (suc rounds) n later h = elim (Bool-cases (ltb n 16)) [
  | inl k ↦ rw k (ap (λ m. value_from m later) (one_digit k))
  | inr k ↦ rw k (
      value_from-hex_from rounds (n / 16) (hex_digit (n % 16) ∷ later) (smaller k)
      ∙ ap (λ m. value_from m later) whole)
]
  where
    one_digit : ltb n 16 ≡ true → 16 * 0 + hex_value (hex_digit n) ≡ n
    one_digit k = let e = hex_value-hex_digit n (ground arith) in omega arith

    smaller : ltb n 16 ≡ false → n / 16 < rounds
    smaller k = let g : 16 ≤ n = ground arith in omega arith

    whole : 16 * (n / 16) + hex_value (hex_digit (n % 16)) ≡ n
    whole = let e = hex_value-hex_digit (n % 16) (omega arith) in omega arith

all-hex_from :
    (rounds n : ℕ) (later : Text)
    → all is_hex_digit later ≡ true
    → all is_hex_digit (hex_from rounds n later) ≡ true
unfolding hex_from
all-hex_from zero n later h = h
all-hex_from (suc rounds) n later h = elim (Bool-cases (ltb n 16)) [
  | inl k ↦ rw k (both (is_hex_digit-hex_digit n (ground arith)) h)
  | inr k ↦ rw k (
      all-hex_from rounds (n / 16) (hex_digit (n % 16) ∷ later)
        (both (is_hex_digit-hex_digit (n % 16) (omega arith)) h))
]
  where
    both : {a b : Bool} → a ≡ true → b ≡ true → (a && b) ≡ true
    both x y = ground arith

-- The id of "thread-f:" and decimal digits is in lower-case hexadecimal digits, and is the same
-- number.
hex_from_perm_id-value :
    (digits : Text)
    → is_empty digits ≡ false
    → all is_digit digits ≡ true
    → let id = hex (number_from 0 digits) in
      (hex_from_perm_id (codes "thread-f:" ++ digits) ≡ some id)
      × (value_from 0 id ≡ number_from 0 digits)
      × (all is_hex_digit id ≡ true)
unfolding hex_from_perm_id starts_with hex value_from
hex_from_perm_id-value digits some_digit h =
    let n = number_from 0 digits in
    (
      rw (some_digit, h) refl,
      value_from-hex_from (suc n) n [] (omega arith),
      all-hex_from (suc n) n [] refl,
    )
