-- ===== src/WebSocket/Client/Random.antt =====
-- The mask generator never gets stuck at zero.
use accel_observer.Prelude.{
  ℕ, zero, suc, ◌*◌, ◌^◌, ◌<◌, ◌≡◌, ◌≢◌, sym, ap, ◌∙◌, arith, ◌==◌, if◌then◌else◌, u32, shl, shr,
}
use accel_observer.Prelude.Bits.{bit_xor, bit_xor_cancel, bit_xor-lt, zero-bit_xor}
use accel_observer.WebSocket.Client.{prng_next, stir, prng_seed}

-- A state of the generator: a word that is not zero.
abbrev pub IsState : ℕ → Type 0
IsState x = (0 < x) × (x < 2 ^ 32)

bit_xor_zero : (a b : ℕ) → bit_xor a b ≡ 0 → a ≡ b
bit_xor_zero a b e = sym (bit_xor_cancel a b) ∙ ap (λ t. bit_xor t b) e ∙ zero-bit_xor b

-- Mixing a word with another that it differs from.
mixed : (a b : ℕ) → IsState a → b < 2 ^ 32 → a ≢ b → IsState (bit_xor a b)
mixed a b (pos, small) hb ne =
    let nonzero : bit_xor a b ≢ 0 = λ e. ne (bit_xor_zero a b e) in
    (omega arith, bit_xor-lt 32 a b small hb)

-- A nonzero word is not its own left shift, nor its own right shift.
moved_left_13 : (x : ℕ) → IsState x → x ≢ u32 (shl x 13)
moved_left_13 x h e = omega arith

moved_left_5 : (x : ℕ) → IsState x → x ≢ u32 (shl x 5)
moved_left_5 x h e = omega arith

moved_right_17 : (x : ℕ) → IsState x → x ≢ shr x 17
moved_right_17 x h e = omega arith

left_13 : (x : ℕ) → IsState x → IsState (bit_xor x (u32 (shl x 13)))
left_13 x h = mixed x (u32 (shl x 13)) h (omega arith) (moved_left_13 x h)

left_5 : (x : ℕ) → IsState x → IsState (bit_xor x (u32 (shl x 5)))
left_5 x h = mixed x (u32 (shl x 5)) h (omega arith) (moved_left_5 x h)

right_17 : (x : ℕ) → IsState x → IsState (bit_xor x (shr x 17))
right_17 x h = mixed x (shr x 17) h (omega arith) (moved_right_17 x h)

-- From a nonzero 32-bit word, the generator goes to a nonzero 32-bit word.
pub prng_next-IsState : (x : ℕ) → IsState x → IsState (prng_next x)
unfolding prng_next
prng_next-IsState x h =
    left_5 (bit_xor (bit_xor x (u32 (shl x 13))) (shr (bit_xor x (u32 (shl x 13))) 17))
      (right_17 (bit_xor x (u32 (shl x 13))) (left_13 x h))

prng_next-lt : (x : ℕ) → x < 2 ^ 32 → prng_next x < 2 ^ 32
unfolding prng_next
prng_next-lt zero h = omega arith
prng_next-lt (suc x) h = unfold prng_next in (prng_next-IsState (suc x) (omega arith)).1

stir-lt : (rounds s : ℕ) → s < 2 ^ 32 → stir rounds s < 2 ^ 32
unfolding stir
stir-lt zero s h = h
stir-lt (suc rounds) s h = stir-lt rounds (prng_next s) (prng_next-lt s h)

seed_fallback : (s : ℕ) → s < 2 ^ 32 → IsState (if s == 0 then 0xdeadbeef else s)
seed_fallback zero h = ground arith
seed_fallback (suc s) h = ground arith

-- Whatever the clock and the process id are, the generator starts at a nonzero 32-bit word.
pub prng_seed-IsState : (time pid : ℕ) → IsState (prng_seed time pid)
unfolding prng_seed
prng_seed-IsState time pid =
    let mixed_seed = bit_xor (u32 time) (u32 (u32 pid * 2654435761)) in
    seed_fallback (stir 16 mixed_seed) (
      stir-lt 16 mixed_seed
        (bit_xor-lt 32 (u32 time) (u32 (u32 pid * 2654435761)) (omega arith) (omega arith)))
