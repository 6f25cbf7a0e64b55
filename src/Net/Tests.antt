-- ===== src/Net/Tests.antt =====
-- The theorems on the socket loops, at a stream that arrives in pieces.
use accel_observer.Prelude.{ℕ, ◌≡◌, refl, [], ◌∷◌, ◌++◌, some, none, Bytes}
use accel_observer.Net.{net_recv_exact}
use accel_observer.Net.Exact.{net_recv_exact-prefix, net_recv_exact-message}
use accel_observer.Net.Loopback.{Wire, flat, loopback, loopback-Delivers}

-- "OK", CR, LF and one byte more, in three segments
abbrev answer : Wire
answer = record { arrivals = (b'O' ∷ []) ∷ (b'K' ∷ b'\r' ∷ []) ∷ (b'\n' ∷ 7 ∷ []) ∷ []; sent = [] }

abbrev after_answer : Wire
after_answer = record { arrivals = (7 ∷ []) ∷ []; sent = [] }

read_four :
    net_recv_exact loopback 4 answer ≡ (some (b'O' ∷ b'K' ∷ b'\r' ∷ b'\n' ∷ []), after_answer)
unfolding net_recv_exact
read_four = refl

read_too_much : (net_recv_exact loopback 6 answer).0 ≡ none
unfolding net_recv_exact
read_too_much = refl

net_recv_exact-prefix_example :
    (◌≡◌ {A = ℕ} 4 4)
    × (flat answer.arrivals ≡ (b'O' ∷ b'K' ∷ b'\r' ∷ b'\n' ∷ []) ++ (7 ∷ []))
    × (◌≡◌ {A = Bytes} [] [])
net_recv_exact-prefix_example =
    net_recv_exact-prefix loopback 4 answer after_answer (b'O' ∷ b'K' ∷ b'\r' ∷ b'\n' ∷ [])
      read_four

net_recv_exact-message_example :
    (w : Wire) × (net_recv_exact loopback 4 answer ≡ (some (b'O' ∷ b'K' ∷ b'\r' ∷ b'\n' ∷ []), w))
    × (flat w.arrivals ≡ 7 ∷ [])
    × (w.sent ≡ [])
net_recv_exact-message_example =
    net_recv_exact-message loopback loopback-Delivers (b'O' ∷ b'K' ∷ b'\r' ∷ b'\n' ∷ []) (7 ∷ [])
      answer refl
