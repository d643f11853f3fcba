-- ===== src/Paging/Bits.antt =====
-- The bits of a machine word, and the kernel's `test_bit`, `set_bit` and `clear_bit` on one.
use flow_scanner.Prelude.{
  ℕ, zero, suc, ◌+◌, ◌*◌, ◌/◌, ◌%◌, ◌<◌, ◌≡◌, ◌≢◌, refl, ap, Bool, true, false, arith, ◌==◌,
  if◌then◌else◌,
}

-- Bit `k` of a word.
unfoldable pub test_bit : (w k : ℕ) → Bool
test_bit w zero = w % 2 == 1
test_bit w (suc k) = test_bit (w / 2) k

unfoldable pub put_bit : (w k : ℕ) → Bool → ℕ
put_bit w zero v = (if v then 1 else 0) + 2 * (w / 2)
put_bit w (suc k) v = w % 2 + 2 * put_bit (w / 2) k v

unfoldable pub set_bit : (w k : ℕ) → ℕ
set_bit w k = put_bit w k true

unfoldable pub clear_bit : (w k : ℕ) → ℕ
clear_bit w k = put_bit w k false

half_back : (w b : ℕ) → b < 2 → (b + 2 * w) / 2 ≡ w
half_back w b h = omega arith

low_back : (w b : ℕ) → b < 2 → (b + 2 * w) % 2 ≡ b
low_back w b h = omega arith

pub test_bit-put_bit-same : (w k : ℕ) (v : Bool) → test_bit (put_bit w k v) k ≡ v
unfolding test_bit put_bit
test_bit-put_bit-same w zero true = ground arith
test_bit-put_bit-same w zero false = ground arith
test_bit-put_bit-same w (suc k) v =
    rw (half_back (put_bit (w / 2) k v) (w % 2) (omega arith)) (test_bit-put_bit-same (w / 2) k v)

pub test_bit-put_bit-other :
    (w k j : ℕ) (v : Bool) → j ≢ k → test_bit (put_bit w k v) j ≡ test_bit w j
unfolding test_bit put_bit
test_bit-put_bit-other w zero zero v ne = absurd (ne refl)
test_bit-put_bit-other w zero (suc j) true ne = rw (half_back (w / 2) 1 (omega arith)) refl
test_bit-put_bit-other w zero (suc j) false ne = rw (half_back (w / 2) 0 (omega arith)) refl
test_bit-put_bit-other w (suc k) zero v ne =
    rw (low_back (put_bit (w / 2) k v) (w % 2) (omega arith)) refl
test_bit-put_bit-other w (suc k) (suc j) v ne =
    rw (half_back (put_bit (w / 2) k v) (w % 2) (omega arith))
      (test_bit-put_bit-other (w / 2) k j v (λ e. ne (ap suc e)))
