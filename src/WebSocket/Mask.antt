-- ===== src/WebSocket/Mask.antt =====
-- The payload mask of RFC 6455, section 5.3, as both ends apply it.
use accel_observer.Prelude.{
  ℕ, zero, suc, ◌+◌, ◌<◌, ◌≡◌, refl, ap, ap₂, [], ◌∷◌, ◌++◌, arith, length, get_or, Bytes, IsBytes,
}
use accel_observer.Prelude.Bits.{bit_and, bit_xor, bit_xor_cancel, bit_xor-lt}

-- `x[i] ^ mask[i & 3]` for the bytes from index `i` on
unfoldable pub xor_mask : Bytes → ℕ → Bytes → Bytes
xor_mask mask i [] = []
xor_mask mask i (x ∷ xs) = bit_xor x (get_or mask (bit_and i 3) 0) ∷ xor_mask mask (i + 1) xs

pub xor_mask_twice : (mask : Bytes) (i : ℕ) (xs : Bytes) → xor_mask mask i (xor_mask mask i xs) ≡ xs
unfolding xor_mask
xor_mask_twice mask i [] = refl
xor_mask_twice mask i (x ∷ xs) =
    ap₂ ◌∷◌ (bit_xor_cancel x (get_or mask (bit_and i 3) 0)) (xor_mask_twice mask (i + 1) xs)

pub length-xor_mask : (mask : Bytes) (i : ℕ) (xs : Bytes) → length (xor_mask mask i xs) ≡ length xs
unfolding xor_mask
length-xor_mask mask i [] = refl
length-xor_mask mask i (x ∷ xs) = ap suc (length-xor_mask mask (i + 1) xs)

-- Masking in pieces is masking the whole, if each piece starts at its own index.
pub xor_mask-append :
    (mask : Bytes) (i j : ℕ) (xs ys : Bytes)
    → j ≡ i + length xs
    → xor_mask mask i (xs ++ ys) ≡ xor_mask mask i xs ++ xor_mask mask j ys
unfolding xor_mask
xor_mask-append mask i j [] ys e =
    let same : i ≡ j = omega arith in ap (λ t. xor_mask mask t ys) same
xor_mask-append mask i j (x ∷ xs) ys e =
    ap (◌∷◌ (bit_xor x (get_or mask (bit_and i 3) 0)))
      (xor_mask-append mask (i + 1) j xs ys (omega arith))

get_or-lt : (mask : Bytes) (i : ℕ) → IsBytes mask → get_or mask i 0 < 256
get_or-lt [] i h = omega arith
get_or-lt (x ∷ xs) zero h = h.0
get_or-lt (x ∷ xs) (suc i) h = get_or-lt xs i h.1

pub xor_mask-IsBytes :
    (mask : Bytes) (i : ℕ) (xs : Bytes) → IsBytes mask → IsBytes xs → IsBytes (xor_mask mask i xs)
unfolding xor_mask
xor_mask-IsBytes mask i [] hm hx = tt
xor_mask-IsBytes mask i (x ∷ xs) hm hx = (
  bit_xor-lt 8 x (get_or mask (bit_and i 3) 0) hx.0 (get_or-lt mask (bit_and i 3) hm),
  xor_mask-IsBytes mask (i + 1) xs hm hx.1,
)
