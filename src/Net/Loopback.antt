-- ===== src/Net/Loopback.antt =====
-- A concrete stream, for the tests: the peer's bytes arrive in segments, and `send` takes at most
-- three bytes at a time.
use accel_observer.Prelude.{
  ℕ, zero, suc, ◌≤◌, ◌<◌, ◌≡◌, refl, sym, ap, ◌∙◌, List, [], ◌∷◌, ◌++◌, append_assoc, Option, none,
  some, arith, min, length, take, drop, take-append-drop, length-take, Bytes,
}
use accel_observer.Net.Stream.{Socket, Delivers, Accepts, Refuses}

pub record Wire : Type 0 where
  pub arrivals : List Bytes
  pub sent : Bytes

abbrev pub flat : List Bytes → Bytes
flat [] = []
flat (x ∷ xs) = x ++ flat xs

abbrev pub recv_from : ℕ → Bytes → List Bytes → Option Bytes × Wire
recv_from n sent [] = (none, record { arrivals = []; sent = sent })
recv_from n sent ([] ∷ rest) = recv_from n sent rest
recv_from n sent ((x ∷ xs) ∷ rest) =
    (some (take n (x ∷ xs)), record { arrivals = drop n (x ∷ xs) ∷ rest; sent = sent })

abbrev pub send_some_of : Bytes → Wire → Option ℕ × Wire
send_some_of [] w = (none, w)
send_some_of (x ∷ xs) w =
    let n = min 3 (length (x ∷ xs)) in (some n, record w { sent = w.sent ++ take n (x ∷ xs) })

pub recv_from_lem :
    (n : ℕ) (sent part : Bytes) (segments : List Bytes) (w' : Wire)
    → 0 < n
    → recv_from n sent segments ≡ (some part, w')
    → (0 < length part)
      × (length part ≤ n)
      × (flat segments ≡ part ++ flat w'.arrivals)
      × (w'.sent ≡ sent)
recv_from_lem n sent part [] w' pos e = ground arith
recv_from_lem n sent part ([] ∷ rest) w' pos e = recv_from_lem n sent part rest w' pos e
recv_from_lem zero sent part ((x ∷ xs) ∷ rest) w' pos e = absurd (omega arith)
recv_from_lem (suc n) sent part ((x ∷ xs) ∷ rest) w' pos e = ground (
  arith,
  length-take n xs,
  take-append-drop n xs,
  append_assoc (take n xs) (drop n xs) (flat rest),
)

pub send_some_lem :
    (bytes : Bytes) (w w' : Wire) (n : ℕ)
    → send_some_of bytes w ≡ (some n, w')
    → (0 < n)
      × (n ≤ length bytes)
      × (w'.sent ≡ w.sent ++ take n bytes)
      × (flat w'.arrivals ≡ flat w.arrivals)
send_some_lem [] w w' n e = ground arith
send_some_lem (x ∷ xs) w w' n e =
    let count : min 3 (length (x ∷ xs)) ≡ n = cc in
    let after : record w { sent = w.sent ++ take (min 3 (length (x ∷ xs))) (x ∷ xs) } ≡ w' = cc in
    (
      omega arith,
      omega arith,
      sym (ap (λ u. u.sent) after) ∙ ap (λ t. w.sent ++ take t (x ∷ xs)) count,
      sym (ap (λ u. flat u.arrivals) after),
    )

abbrev pub loopback : Socket Wire
loopback = record {
  recv = λ n w. recv_from n w.sent w.arrivals;
  send = send_some_of;
  incoming = λ w. flat w.arrivals;
  outgoing = λ w. w.sent;
  recv_some = λ n s s' part. recv_from_lem n s.sent part s.arrivals s';
  send_some = send_some_lem;
}

recv_from_up :
    (n : ℕ) (sent : Bytes) (segments : List Bytes)
    → 0 < length (flat segments)
    → (part : Bytes) × (w' : Wire) × (recv_from n sent segments ≡ (some part, w'))
recv_from_up n sent [] h = ([], record { arrivals = []; sent = sent }, absurd (omega arith))
recv_from_up n sent ([] ∷ rest) h = recv_from_up n sent rest h
recv_from_up n sent ((x ∷ xs) ∷ rest) h =
    (take n (x ∷ xs), record { arrivals = drop n (x ∷ xs) ∷ rest; sent = sent }, refl)

pub loopback-Delivers : Delivers loopback
loopback-Delivers n w pos h = recv_from_up n w.sent w.arrivals h

send_up :
    (bytes : Bytes) (w : Wire)
    → 0 < length bytes
    → (n : ℕ) × (w' : Wire) × (send_some_of bytes w ≡ (some n, w'))
send_up [] w h = (0, w, absurd (omega arith))
send_up (x ∷ xs) w h =
    let n = min 3 (length (x ∷ xs)) in (n, record w { sent = w.sent ++ take n (x ∷ xs) }, refl)

pub loopback-Accepts : Accepts loopback
loopback-Accepts = send_up

send_none_lem :
    (bytes : Bytes) (w w' : Wire)
    → send_some_of bytes w ≡ (none, w')
    → (w'.sent ≡ w.sent) × (flat w'.arrivals ≡ flat w.arrivals)
send_none_lem [] w w' e =
    let same : w ≡ w' = cc in (sym (ap (λ u. u.sent) same), sym (ap (λ u. flat u.arrivals) same))
send_none_lem (x ∷ xs) w w' e = absurd (ground arith)

pub loopback-Refuses : Refuses loopback
loopback-Refuses = send_none_lem
