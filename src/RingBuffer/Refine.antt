-- ===== src/RingBuffer/Refine.antt =====
-- A valid buffer behaves as the queue of the items that it holds.
use native.Mathlib.Nat.{mod-eq_of_lt, mod-eq-sub-mod, mod-add-mod, mod-lt}
use accel_observer.Prelude.{
  ℕ, zero, suc, ◌+◌, ◌-◌, ◌%◌, ◌≤◌, ◌<◌, ◌≡◌, ◌≢◌, refl, sym, ap, ap₂, ◌∙◌, ◌⊎◌, true, List, [],
  ◌∷◌, ◌++◌, append_assoc, append-nil, arith, length, get_or, set, dec_lt, inl, inr, ltb, lt→ltb,
}
use accel_observer.RingBuffer.{RingBuffer, try_push, advance, drain_loop, drain_nowait}
use accel_observer.RingBuffer.Inv.{IsValid, advance-IsValid, pushed_tail, advanced_head}
use accel_observer.RingBuffer.Queue

-- A sum of two places goes round at most once.
one_lap : (c x : ℕ) → x < c + c → (x % c ≡ x) ⊎ (x % c + c ≡ x)
one_lap c x h = elim (dec_lt x c) [
  | yes p ↦ inl (mod-eq_of_lt p)
  | no p ↦ inr (
      omega (
        arith,
        mod-eq-sub-mod {n = x} {m = c} (omega arith),
        mod-eq_of_lt {n = x - c} {m = c} (omega arith),
      ))
]

module _ {T : Type 0} (fill : T) where
  -- `n` items from the `k`-th after `head` on, going round at the capacity
  abbrev pub gather : List T → ℕ → ℕ → ℕ → ℕ → List T
  gather buffer capacity head k zero = []
  gather buffer capacity head k (suc n) =
      get_or buffer ((head + k) % capacity) fill ∷ gather buffer capacity head (k + 1) n

  abbrev pub contents : RingBuffer T → List T
  contents r = gather r.buffer r.capacity r.head 0 r.count

  pub length-gather : (b : List T) (c h k n : ℕ) → length (gather b c h k n) ≡ n
  length-gather b c h k zero = refl
  length-gather b c h k (suc n) = ap suc (length-gather b c h (k + 1) n)

  -- Starting one place later and counting from the next item is the same walk.
  gather_shift : (b : List T) (c h k n : ℕ) → gather b c ((h + 1) % c) k n ≡ gather b c h (k + 1) n
  gather_shift b c h k zero = refl
  gather_shift b c h k (suc n) =
      let place : (h + 1) + k ≡ h + (k + 1) = omega arith in
      ap₂ ◌∷◌ (ap (λ t. get_or b t fill) (mod-add-mod (h + 1) c k ∙ ap (λ t. t % c) place))
        (gather_shift b c h (k + 1) n)

  -- Two places of one lap are different.
  places_differ : (c h j k : ℕ) → h < c → j < k → k < c → (h + j) % c ≢ (h + k) % c
  places_differ c h j k hh jk kc = omega (arith, one_lap c (h + j), one_lap c (h + k))

  get_or-set_self : (xs : List T) (i : ℕ) (v : T) → i < length xs → get_or (set xs i v) i fill ≡ v
  get_or-set_self [] i v h = absurd (omega arith)
  get_or-set_self (x ∷ xs) zero v h = refl
  get_or-set_self (x ∷ xs) (suc i) v h = get_or-set_self xs i v (omega arith)

  get_or-set_ne :
      (xs : List T) (i j : ℕ) (v : T) → j ≢ i → get_or (set xs i v) j fill ≡ get_or xs j fill
  get_or-set_ne [] i j v h = refl
  get_or-set_ne (x ∷ xs) zero zero v h = absurd (h refl)
  get_or-set_ne (x ∷ xs) zero (suc j) v h = refl
  get_or-set_ne (x ∷ xs) (suc i) zero v h = refl
  get_or-set_ne (x ∷ xs) (suc i) (suc j) v h = get_or-set_ne xs i j v (λ e. h (ap suc e))

  -- A write just behind the last item appends it.
  gather-set :
      (b : List T) (c h i : ℕ) (v : T) (k n m : ℕ)
      → k + n ≡ m
      → c ≤ length b
      → h < c
      → m < c
      → i ≡ (h + m) % c
      → gather (set b i v) c h k (suc n) ≡ gather b c h k n ++ v ∷ []
  gather-set b c h i v k zero m e store hh mc at =
      let here : k ≡ m = omega arith in
      let place : (h + k) % c ≡ i = ap (λ t. (h + t) % c) here ∙ sym at in
      let inside : i < length b = omega (arith, mod-lt (h + m) {m = c} (omega arith)) in
      ap (λ x. x ∷ []) (ap (λ t. get_or (set b i v) t fill) place ∙ get_or-set_self b i v inside)
  gather-set b c h i v k (suc n) m e store hh mc at =
      ap₂ ◌∷◌
        (get_or-set_ne b i ((h + k) % c) v
          (λ same. places_differ c h k m hh (omega arith) mc (same ∙ at)))
        (gather-set b c h i v (k + 1) n m (omega arith) store hh mc at)

  gather-suc : (b : List T) (c h k n : ℕ) → gather b c h k (n + 1) ≡ gather b c h k (suc n)
  gather-suc b c h k n = let e : n + 1 ≡ suc n = omega arith in ap (gather b c h k) e

  -- `try_push` answers as the queue does, and leaves the buffer holding the queue's items.
  pub try_push_refines :
      (item : T) (r : RingBuffer T)
      → IsValid r
      → let (done, r') = try_push item r in
        (done, contents r') ≡ Queue.push r.capacity item (contents r)
  unfolding try_push Queue.push
  try_push_refines item r v = ground (
    arith,
    length-gather r.buffer r.capacity r.head 0 r.count,
    pushed_tail v,
    gather-set r.buffer r.capacity r.head r.tail item 0 r.count r.count,
    gather-suc r.buffer r.capacity r.head 0 r.count,
  )

  pub contents_zero : (r : RingBuffer T) → r.count ≡ 0 → contents r ≡ []
  contents_zero r e = ap (gather r.buffer r.capacity r.head 0) e

  contents-suc :
      (n : ℕ) (r : RingBuffer T)
      → IsValid r
      → r.count ≡ suc n
      → contents r ≡ get_or r.buffer r.head fill ∷ contents (advance r)
  unfolding advance
  contents-suc n r v e =
      let flat : r.head + 0 ≡ r.head = omega arith in
      let start : (r.head + 0) % r.capacity ≡ r.head =
        ap (λ t. t % r.capacity) flat ∙ mod-eq_of_lt (omega arith) in
      let left : n ≡ r.count - 1 = omega arith in
      ap (gather r.buffer r.capacity r.head 0) e
      ∙ ap₂ ◌∷◌ (ap (λ t. get_or r.buffer t fill) start) (
          sym (gather_shift r.buffer r.capacity r.head 0 n)
          ∙ ap₂ (λ h m. gather r.buffer r.capacity (h % r.capacity) 0 m)
              (sym (advanced_head v (omega arith)).0) left)

  drain_loop-contents :
      (n : ℕ) (r : RingBuffer T) (result : List T)
      → IsValid r
      → r.count ≡ n
      → let (items, r') = drain_loop fill n r result in
        (items ≡ result ++ contents r) × (r'.count ≡ 0) × IsValid r' × (r'.capacity ≡ r.capacity)
  unfolding drain_loop
  drain_loop-contents zero r result v e =
      (rw (contents_zero r e) (sym (append-nil result)), e, v, refl)
  drain_loop-contents (suc n) r result v e =
      let positive : ltb 0 r.count ≡ true = lt→ltb 0 r.count (omega arith) in
      let (items, left, valid, same) =
        drain_loop-contents n (advance r) (result ++ get_or r.buffer r.head fill ∷ [])
          (advance-IsValid v (omega arith)) (unfold advance in omega arith) in
      rw positive (
        items
            ∙ append_assoc result (get_or r.buffer r.head fill ∷ []) (contents (advance r))
            ∙ sym (ap (◌++◌ result) (contents-suc n r v e)),
        left,
        valid,
        same ∙ unfold advance in refl,
      )

  -- Both drains hand out the queue's items, oldest first, and leave a valid empty buffer.
  pub drain_refines :
      (r : RingBuffer T)
      → IsValid r
      → let (items, r') = drain_nowait fill r in
        ((items, contents r') ≡ Queue.take_all (contents r))
        × IsValid r'
        × (r'.count ≡ 0)
        × (r'.capacity ≡ r.capacity)
  unfolding drain_nowait Queue.take_all
  drain_refines r v =
      let (items, left, valid, same) = drain_loop-contents r.count r [] v refl in
      (
        ap₂ (λ a b. (a, b)) items (contents_zero (drain_loop fill r.count r []).1 left),
        valid,
        left,
        same,
      )
