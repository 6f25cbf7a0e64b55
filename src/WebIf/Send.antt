-- ===== src/WebIf/Send.antt =====
-- server/src/webif/web_interface.cpp: `send_raw`.
use accel_observer.Prelude.{
  ℕ, zero, suc, ◌<◌, ◌≡◌, refl, sym, ap, ◌∙◌, Bool, true, false, [], ◌∷◌, ◌++◌, append_assoc,
  append-nil, Option, none, some, arith, length, take, drop, take-append-drop, length-drop, Bytes,
}
use accel_observer.Prelude.State.{and_then}
use accel_observer.Net.Stream.{Socket, Accepts, Refuses}

-- whether a call has returned true
abbrev pub is_ok : Option (Unit {0}) → Bool
is_ok none = false
is_ok (some done) = true

module _ {S : Type 0} (net : Socket S) where
  open net use {incoming, outgoing, send_some}

  -- `while (rem > 0)`, on the bytes that are left
  pub raw_loop : ℕ → Bytes → S → Option (Unit {0}) × S
  raw_loop zero left s = (none, s)
  raw_loop (suc fuel) [] s = (some tt, s)
  raw_loop (suc fuel) (x ∷ xs) s =
      and_then (net.send (x ∷ xs) s) (λ n. raw_loop fuel (drop n (x ∷ xs)))

  unfoldable pub send_raw : Bytes → S → Option (Unit {0}) × S
  unfolding raw_loop
  send_raw bytes s = raw_loop (suc (length bytes)) bytes s

  -- The loop has sent a piece of the bytes, and all of them if it ends well.
  pub record Sending (bytes : Bytes) (s : S) (r : Option (Unit {0}) × S) : Type 0 where
    pub piece : Bytes
    pub left : Bytes
    pub split : bytes ≡ piece ++ left
    pub stream : outgoing r.1 ≡ outgoing s ++ piece
    pub quiet : incoming r.1 ≡ incoming s
    pub whole : is_ok r.0 ≡ true → left ≡ []

  Sending-none :
      (bytes : Bytes) (s s' : S)
      → outgoing s' ≡ outgoing s
      → incoming s' ≡ incoming s
      → Sending bytes s (none, s')
  Sending-none bytes s s' e q = record {
    piece = [];
    left = bytes;
    split = refl;
    stream = e ∙ sym (append-nil (outgoing s));
    quiet = q;
    whole = λ h. absurd (ground arith);
  }

  Sending-more :
      (n : ℕ) (bytes : Bytes) (s s1 : S) (r : Option (Unit {0}) × S)
      → outgoing s1 ≡ outgoing s ++ take n bytes
      → incoming s1 ≡ incoming s
      → Sending (drop n bytes) s1 r
      → Sending bytes s r
  Sending-more n bytes s s1 r e q t = record {
    piece = take n bytes ++ t.piece;
    left = t.left;
    split =
        sym (take-append-drop n bytes)
        ∙ ap (◌++◌ (take n bytes)) t.split
        ∙ sym (append_assoc (take n bytes) t.piece t.left);
    stream = t.stream ∙ ap (λ o. o ++ t.piece) e ∙ append_assoc (outgoing s) (take n bytes) t.piece;
    quiet = t.quiet ∙ q;
    whole = t.whole;
  }

  module _ (refuses : Refuses net) where
    raw_next :
        (fuel x : ℕ) (xs : Bytes) (s : S) (r : Option ℕ × S)
        → net.send (x ∷ xs) s ≡ r
        → ((n : ℕ) (s1 : S) → Sending (drop n (x ∷ xs)) s1 (raw_loop fuel (drop n (x ∷ xs)) s1))
        → Sending (x ∷ xs) s (and_then r (λ n. raw_loop fuel (drop n (x ∷ xs))))
    raw_next fuel x xs s (none, s1) e rest =
        let (same, quiet) = refuses (x ∷ xs) s s1 e in Sending-none (x ∷ xs) s s1 same quiet
    raw_next fuel x xs s (some n, s1) e rest =
        let (pos, fits, stream, quiet) = send_some (x ∷ xs) s s1 n e in
        Sending-more n (x ∷ xs) s s1 _ stream quiet (rest n s1)

    raw_loop-Sending : (fuel : ℕ) (bytes : Bytes) (s : S) → Sending bytes s (raw_loop fuel bytes s)
    unfolding raw_loop
    raw_loop-Sending zero bytes s = Sending-none bytes s s refl refl
    raw_loop-Sending (suc fuel) [] s = record {
      piece = [];
      left = [];
      split = refl;
      stream = sym (append-nil (outgoing s));
      quiet = refl;
      whole = λ h. refl;
    }
    raw_loop-Sending (suc fuel) (x ∷ xs) s =
        raw_next fuel x xs s (net.send (x ∷ xs) s) refl
          (λ n s1. raw_loop-Sending fuel (drop n (x ∷ xs)) s1)

    pub send_raw-Sending : (bytes : Bytes) (s : S) → Sending bytes s (send_raw bytes s)
    unfolding send_raw
    send_raw-Sending bytes s = raw_loop-Sending (suc (length bytes)) bytes s

  -- While the kernel takes what is sent, all of it is sent.
  raw_loop-Accepts :
      Accepts net
      → (fuel : ℕ) (bytes : Bytes) (s : S) → length bytes < fuel
      → (s' : S) × (raw_loop fuel bytes s ≡ (some tt, s'))
        × (outgoing s' ≡ outgoing s ++ bytes)
        × (incoming s' ≡ incoming s)
  unfolding raw_loop
  raw_loop-Accepts takes zero bytes s f = absurd (omega arith)
  raw_loop-Accepts takes (suc fuel) [] s f = (s, refl, sym (append-nil (outgoing s)), refl)
  raw_loop-Accepts takes (suc fuel) (x ∷ xs) s f =
      let (n, s1, done) = takes (x ∷ xs) s (omega arith) in
      let (pos, fits, stream, quiet) = send_some _ s s1 n done in
      let (s', ran, all, same) =
        raw_loop-Accepts takes fuel (drop n (x ∷ xs)) s1 (omega (arith, length-drop n (x ∷ xs))) in
      (
        s',
        ap (λ r. and_then r (λ m. raw_loop fuel (drop m (x ∷ xs)))) done ∙ ran,
        all
            ∙ ap (λ o. o ++ drop n (x ∷ xs)) stream
            ∙ append_assoc (outgoing s) (take n (x ∷ xs)) (drop n (x ∷ xs))
            ∙ ap (◌++◌ (outgoing s)) (take-append-drop n (x ∷ xs)),
        same ∙ quiet,
      )

  pub send_raw-message :
      Accepts net
      → (bytes : Bytes) (s : S)
      → (s' : S) × (send_raw bytes s ≡ (some tt, s'))
        × (outgoing s' ≡ outgoing s ++ bytes)
        × (incoming s' ≡ incoming s)
  unfolding send_raw
  send_raw-message takes bytes s = raw_loop-Accepts takes (suc (length bytes)) bytes s (omega arith)
