-- ===== src/Net/Exact.antt =====
-- `net_recv_exact` and `net_send_exact` deliver whole messages, however the transport cuts them.
use accel_observer.Prelude.{
  ℕ, zero, suc, ◌+◌, ◌-◌, ◌≤◌, ◌<◌, ◌≡◌, refl, sym, ap, ap₂, ◌∙◌, inl, inr, true, [], ◌∷◌, ◌++◌,
  append_assoc, append-nil, Option, none, some, arith, ltb, ltb→lt, ltb_false→le, min, length,
  length-append, take, drop, take-append-drop, length-drop, Bytes, Bool-cases,
}
use accel_observer.Prelude.State.{and_then}
use accel_observer.Net.{chunk_max, recv_loop, net_recv_exact, send_loop, net_send_exact}
use accel_observer.Net.Stream.{Socket, Delivers, Accepts}

-- Two splits of one list at the same place are the same.
pub append_split :
    (front front' xs ys : Bytes)
    → front ++ xs ≡ front' ++ ys
    → length front ≡ length front'
    → (front ≡ front') × (xs ≡ ys)
append_split [] [] xs ys e l = (refl, e)
append_split [] (b ∷ bs) xs ys e l = absurd (omega arith)
append_split (a ∷ front) [] xs ys e l = absurd (omega arith)
append_split (a ∷ front) (b ∷ front') xs ys e l = ground (arith, append_split front front' xs ys)

pair_parts :
    {S : Type 0} {a b : Bytes} {s t : S}
    → ◌≡◌ {A = Option Bytes × S} (some a, s) (some b, t)
    → (a ≡ b) × (s ≡ t)
pair_parts e = (cc, cc)

module _ {S : Type 0} (net : Socket S) where
  open net use {incoming, outgoing, recv_some, send_some}

  -- what a loop that ends well has read, started with `buf` in state `s`
  record Read (len : ℕ) (buf : Bytes) (s : S) (out : Bytes) (s' : S) : Type 0 where
    all : length out ≡ len
    stream : buf ++ incoming s ≡ out ++ incoming s'
    quiet : outgoing s' ≡ outgoing s

  Read-more :
      {len : ℕ} {buf : Bytes} {s s1 : S} {out : Bytes} {s' : S} (part : Bytes)
      → incoming s ≡ part ++ incoming s1
      → outgoing s1 ≡ outgoing s
      → Read len (buf ++ part) s1 out s'
      → Read len buf s out s'
  Read-more {buf} {s1} part e q r = record {
    all = r.all;
    stream = ap (◌++◌ buf) e ∙ sym (append_assoc buf part (incoming s1)) ∙ r.stream;
    quiet = r.quiet ∙ q;
  }

  -- One call of `recv` and the rest of the loop.
  recv_rest :
      (fuel len : ℕ) (buf : Bytes) (s s' : S) (out : Bytes) (r : Option Bytes × S)
      → net.recv (min (len - length buf) chunk_max) s ≡ r
      → length buf < len
      → and_then r (λ part. recv_loop net fuel len (buf ++ part)) ≡ (some out, s')
      → ((part : Bytes) (s1 : S)
          → length (buf ++ part) ≤ len
          → recv_loop net fuel len (buf ++ part) s1 ≡ (some out, s')
          → Read len (buf ++ part) s1 out s')
      → Read len buf s out s'
  recv_rest fuel len buf s s' out (none, s1) got lt rest ih = ground arith
  recv_rest fuel len buf s s' out (some part, s1) got lt rest ih =
      let (pos, fits, stream, quiet) = recv_some _ s s1 part (omega arith) got in
      Read-more part stream quiet (ih part s1 (omega (arith, length-append buf part)) rest)

  recv_loop-Read :
      (fuel len : ℕ) (buf : Bytes) (s s' : S) (out : Bytes)
      → length buf ≤ len
      → recv_loop net fuel len buf s ≡ (some out, s')
      → Read len buf s out s'
  unfolding recv_loop
  recv_loop-Read zero len buf s s' out h e = ground arith
  recv_loop-Read (suc fuel) len buf s s' out h e = elim (Bool-cases (ltb (length buf) len)) [
    | inl more ↦
        recv_rest fuel len buf s s' out (net.recv (min (len - length buf) chunk_max) s) refl
          (ltb→lt (length buf) len more) (rw more at e)
          (λ part s1. recv_loop-Read fuel len (buf ++ part) s1 s' out)
    | inr done ↦
        let (same, state) = pair_parts (rw done at e) in
        record {
          all = omega (arith, ap length same, ltb_false→le (length buf) len done);
          stream = ap₂ (λ b t. b ++ incoming t) same state;
          quiet = ap outgoing (sym state);
        }
  ]

  recv_step :
      (fuel len : ℕ) (buf part : Bytes) (s s1 : S)
      → ltb (length buf) len ≡ true
      → net.recv (min (len - length buf) chunk_max) s ≡ (some part, s1)
      → recv_loop net (suc fuel) len buf s ≡ recv_loop net fuel len (buf ++ part) s1
  unfolding recv_loop
  recv_step fuel len buf part s s1 more got = rw (more, got)

  -- With more fuel than bytes wanted, and the bytes on their way, the loop ends well.
  recv_loop-Delivers :
      Delivers net
      → (fuel len : ℕ) (buf : Bytes) (s : S) → len < fuel + length buf
      → length buf ≤ len
      → len ≤ length buf + length (incoming s)
      → (out : Bytes) × (s' : S) × (recv_loop net fuel len buf s ≡ (some out, s'))
  unfolding recv_loop
  recv_loop-Delivers up zero len buf s f b h = (buf, s, absurd (omega arith))
  recv_loop-Delivers up (suc fuel) len buf s f b h = elim (Bool-cases (ltb (length buf) len)) [
    | inl more ↦
        let lt = ltb→lt (length buf) len more in
        let (part, s1, got) = up (min (len - length buf) chunk_max) s (omega arith) (omega arith) in
        let (pos, fits, stream, quiet) = recv_some _ s s1 part (omega arith) got in
        let (out, s', rest) =
          recv_loop-Delivers up fuel len (buf ++ part) s1 (omega (arith, length-append buf part))
            (omega (arith, length-append buf part))
            (omega (
              arith,
              length-append buf part,
              ap length stream,
              length-append part (incoming s1),
            )) in
        (out, s', recv_step fuel len buf part s s1 more got ∙ rest)
    | inr done ↦ (buf, s, rw done)
  ]

  -- Whatever the socket does, if `net_recv_exact` returns true, it has the next `len` bytes of the
  -- peer's stream, which then stands right behind them, and nothing was sent.
  pub net_recv_exact-prefix :
      (len : ℕ) (s s' : S) (out : Bytes)
      → net_recv_exact net len s ≡ (some out, s')
      → (length out ≡ len) × (incoming s ≡ out ++ incoming s') × (outgoing s' ≡ outgoing s)
  unfolding net_recv_exact
  net_recv_exact-prefix len s s' out e =
      let r = recv_loop-Read (suc len) len [] s s' out (omega arith) e in (r.all, r.stream, r.quiet)

  -- While the connection is up, `net_recv_exact` returns a message of the length asked for that the
  -- peer has sent, whole, leaves what follows it, and sends nothing.
  pub net_recv_exact-message :
      Delivers net
      → (message rest : Bytes) (s : S) → incoming s ≡ message ++ rest
      → (s' : S) × (net_recv_exact net (length message) s ≡ (some message, s'))
        × (incoming s' ≡ rest)
        × (outgoing s' ≡ outgoing s)
  unfolding net_recv_exact
  net_recv_exact-message up message rest s e =
      let n = length message in
      let (out, s', got) =
        recv_loop-Delivers up (suc n) n [] s (omega arith) (omega arith)
          (omega (arith, ap length e, length-append message rest)) in
      let r = recv_loop-Read (suc n) n [] s s' out (omega arith) got in
      let (same, left) = append_split out message (incoming s') rest (sym r.stream ∙ e) r.all in
      (s', rw same at got, left, r.quiet)

  -- what a sending loop that ends well has sent
  record Sent (left : Bytes) (s s' : S) : Type 0 where
    stream : outgoing s' ≡ outgoing s ++ left
    quiet : incoming s' ≡ incoming s

  take-take : (n m : ℕ) (xs : Bytes) → n ≤ length (take m xs) → take n (take m xs) ≡ take n xs
  take-take zero m xs h = refl
  take-take (suc n) zero xs h = absurd (omega arith)
  take-take (suc n) (suc m) [] h = refl
  take-take (suc n) (suc m) (x ∷ xs) h = ap (◌∷◌ x) (take-take n m xs (omega arith))

  Sent-more :
      {s s1 s' : S} (n : ℕ) (left : Bytes)
      → n ≤ length (take chunk_max left)
      → outgoing s1 ≡ outgoing s ++ take n (take chunk_max left)
      → incoming s1 ≡ incoming s
      → Sent (drop n left) s1 s'
      → Sent left s s'
  Sent-more {s} n left fits e q r = record {
    stream =
        r.stream
        ∙ ap (λ t. t ++ drop n left) (e ∙ ap (◌++◌ (outgoing s)) (take-take n chunk_max left fits))
        ∙ append_assoc (outgoing s) (take n left) (drop n left)
        ∙ ap (◌++◌ (outgoing s)) (take-append-drop n left);
    quiet = r.quiet ∙ q;
  }

  send_step :
      (fuel x : ℕ) (xs : Bytes) (n : ℕ) (s s1 : S)
      → net.send (take chunk_max (x ∷ xs)) s ≡ (some n, s1)
      → send_loop net (suc fuel) (x ∷ xs) s ≡ send_loop net fuel (drop n (x ∷ xs)) s1
  unfolding send_loop
  send_step fuel x xs n s s1 done = rw done

  -- While the kernel takes what is sent, the loop sends all of it.
  send_loop-Accepts :
      Accepts net
      → (fuel : ℕ) (left : Bytes) (s : S) → length left < fuel
      → (s' : S) × (send_loop net fuel left s ≡ (some tt, s')) × Sent left s s'
  unfolding send_loop
  send_loop-Accepts up zero left s f = absurd (omega arith)
  send_loop-Accepts up (suc fuel) [] s f =
      (s, refl, record { stream = sym (append-nil (outgoing s)); quiet = refl })
  send_loop-Accepts up (suc fuel) (x ∷ xs) s f =
      let (n, s1, done) = up (take chunk_max (x ∷ xs)) s (omega arith) in
      let (pos, fits, stream, quiet) = send_some _ s s1 n done in
      let (s', rest, sent) =
        send_loop-Accepts up fuel (drop n (x ∷ xs)) s1 (omega (arith, length-drop n (x ∷ xs))) in
      (s', send_step fuel x xs n s s1 done ∙ rest, Sent-more n (x ∷ xs) fits stream quiet sent)

  -- While the kernel takes what is sent, `net_send_exact` returns true and has sent the whole
  -- message, in order and once, with nothing received.
  pub net_send_exact-message :
      Accepts net
      → (bytes : Bytes) (s : S)
      → (s' : S) × (net_send_exact net bytes s ≡ (some tt, s'))
        × (outgoing s' ≡ outgoing s ++ bytes)
        × (incoming s' ≡ incoming s)
  unfolding net_send_exact
  net_send_exact-message up bytes s =
      let (s', done, sent) = send_loop-Accepts up (suc (length bytes)) bytes s (omega arith) in
      (s', done, sent.stream, sent.quiet)
