-- ===== src/Net/Stream.antt =====
-- What the program relies on of a connected stream socket, which the operating system implements.
use accel_observer.Prelude.{ℕ, ◌≤◌, ◌<◌, ◌≡◌, ◌++◌, Option, none, some, length, take, Bytes}

-- `recv` and `send` on one descriptor. A result `none` stands for a return value `n <= 0`: the end of
-- the stream, a timeout or an error. `incoming` is what the peer has sent and this side has not
-- received yet; `outgoing` is what this side has sent so far.
pub record Socket (S : Type 0) : Type 0 where
  pub recv : ℕ → S → Option Bytes × S
  pub send : Bytes → S → Option ℕ × S
  pub incoming : S → Bytes
  pub outgoing : S → Bytes
  pub recv_some :
      (n : ℕ) (s s' : S) (part : Bytes)
      → 0 < n
      → recv n s ≡ (some part, s')
      → (0 < length part)
        × (length part ≤ n)
        × (incoming s ≡ part ++ incoming s')
        × (outgoing s' ≡ outgoing s)
  pub send_some :
      (bytes : Bytes) (s s' : S) (n : ℕ)
      → send bytes s ≡ (some n, s')
      → (0 < n)
        × (n ≤ length bytes)
        × (outgoing s' ≡ outgoing s ++ take n bytes)
        × (incoming s' ≡ incoming s)

-- The connection stays up: bytes that the peer has sent arrive.
abbrev pub Delivers : {S : Type 0} → Socket S → Type 0
Delivers {S} net =
    (n : ℕ) (s : S)
    → 0 < n
    → 0 < length (net.incoming s)
    → (part : Bytes) × (s' : S) × (net.recv n s ≡ (some part, s'))

-- The connection stays up: the kernel takes what is sent, if only a part at a time.
abbrev pub Accepts : {S : Type 0} → Socket S → Type 0
Accepts {S} net =
    (bytes : Bytes) (s : S)
    → 0 < length bytes
    → (n : ℕ) × (s' : S) × (net.send bytes s ≡ (some n, s'))

-- A `send` that fails has sent nothing, as the manual says of the result -1.
abbrev pub Refuses : {S : Type 0} → Socket S → Type 0
Refuses {S} net =
    (bytes : Bytes) (s s' : S)
    → net.send bytes s ≡ (none, s')
    → (net.outgoing s' ≡ net.outgoing s) × (net.incoming s' ≡ net.incoming s)
