-- ===== src/Pci/Bits.antt =====
-- The bits of a byte after `val &= ~mask; val |= data & mask` in src/pci.c.
use Prim.Native.Nat.{min, max, digits, bit_and, bit_or, bit_and-bitwise, bit_or-bitwise}
use native.Mathlib.Nat.{le_refl}
use usfstl.Base.{
  ℕ, zero, suc, ◌+◌, ◌-◌, ◌*◌, ◌/◌, ◌%◌, ◌^◌, ◌≤◌, ◌<◌, ◌≡◌, refl, ap, ◌∙◌, arith, ◌==◌,
  if◌then◌else◌,
}
use usfstl.Pci.{merge_byte}

-- Bit `k` of a number, from the lowest.
pub bit_at : ℕ → ℕ → ℕ
bit_at zero n = n % 2
bit_at (suc k) n = bit_at k (n / 2)

bit_at_bound : (k n : ℕ) → bit_at k n < 2
unfolding bit_at
bit_at_bound zero n = omega arith
bit_at_bound (suc k) n = bit_at_bound k (n / 2)

bit_at_zero : (k : ℕ) → bit_at k 0 ≡ 0
unfolding bit_at
bit_at_zero zero = refl
bit_at_zero (suc k) = bit_at_zero k

-- An operation on digits, bit by bit.
module _ (z : ℕ → ℕ) (f : ℕ → ℕ → ℕ) (small : (x y : ℕ) → x < 2 → y < 2 → f x y < 2)
    (rest : (k b : ℕ) → bit_at k (z b) ≡ f 0 (bit_at k b)) where
  bit_at-digits : (n k a b : ℕ) → a ≤ n → bit_at k (digits z f n a b) ≡ f (bit_at k a) (bit_at k b)
  unfolding bit_at
  bit_at-digits zero k zero b h = rest k b ∙ rw (bit_at_zero k) refl
  bit_at-digits zero k (suc a) b h = let no : ⊥ = omega arith in absurd no
  bit_at-digits (suc n) k zero b h = rest k b ∙ rw (bit_at_zero k) refl
  bit_at-digits (suc n) zero (suc a) b h =
      let l = small (suc a % 2) (b % 2) (omega arith) (omega arith) in omega (arith, l)
  bit_at-digits (suc n) (suc k) (suc a) b h =
      let l = small (suc a % 2) (b % 2) (omega arith) (omega arith) in
      let d = digits z f n (suc a / 2) (b / 2) in
      let e : (d * 2 + f (suc a % 2) (b % 2)) / 2 ≡ d = omega (arith, l) in
      ap (bit_at k) e ∙ bit_at-digits n k (suc a / 2) (b / 2) (omega arith)

bit_at-bit_and : (k a b : ℕ) → bit_at k (bit_and a b) ≡ min (bit_at k a) (bit_at k b)
bit_at-bit_and k a b = simp bit_and-bitwise (
    bit_at-digits (λ y. 0) min (λ x y h l. omega arith) (λ i y. bit_at_zero i ∙ omega arith) a k a b
      (le_refl a))

bit_at-bit_or : (k a b : ℕ) → bit_at k (bit_or a b) ≡ max (bit_at k a) (bit_at k b)
bit_at-bit_or k a b =
    simp bit_or-bitwise
      (bit_at-digits (λ y. y) max (λ x y h l. omega arith) (λ i y. omega arith) a k a b (le_refl a))

-- The bits of the complement of a number of at most `w` bits.
bit_at-complement : (k w m : ℕ) → k < w → m < 2 ^ w → bit_at k (2 ^ w - 1 - m) ≡ 1 - bit_at k m
unfolding bit_at
bit_at-complement k zero m h l = let no : ⊥ = omega arith in absurd no
bit_at-complement zero (suc w) m h l = omega (arith, l)
bit_at-complement (suc k) (suc w) m h l =
    let e : (2 ^ suc w - 1 - m) / 2 ≡ 2 ^ w - 1 - m / 2 = omega (arith, l) in
    ap (bit_at k) e ∙ bit_at-complement k w (m / 2) (omega arith) (omega (arith, l))

choose :
    (v m d : ℕ) → v < 2 → m < 2 → d < 2 → max (min v (1 - m)) (min d m) ≡ (if m == 1 then d else v)
choose v m d a b c = ground arith

-- Each bit of the mask lets the new bit in, and the others keep the old one.
pub bit_at-merge_byte :
    (k v m d : ℕ)
    → k < 8
    → m < 256
    → bit_at k (merge_byte v m d) ≡ (if bit_at k m == 1 then bit_at k d else bit_at k v)
bit_at-merge_byte k v m d h l =
    let c : bit_at k (255 - m) ≡ 1 - bit_at k m = bit_at-complement k 8 m h l in
    rw
      (
        bit_at-bit_or k (bit_and v (255 - m)) (bit_and d m),
        bit_at-bit_and k v (255 - m),
        bit_at-bit_and k d m,
        c,
      )
      (choose (bit_at k v) (bit_at k m) (bit_at k d) (bit_at_bound k v) (bit_at_bound k m)
        (bit_at_bound k d))
