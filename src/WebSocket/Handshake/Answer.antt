-- ===== src/WebSocket/Handshake/Answer.antt =====
-- The server answers a whole upgrade request.
use accel_observer.Prelude.{
  ℕ, zero, suc, ◌+◌, ◌<◌, ◌≡◌, sym, ap, ◌∙◌, List, [], ◌∷◌, ◌++◌, append_assoc, append-nil, some,
  arith, ◌==◌, if◌then◌else◌, get_or, length, length-append, Bytes,
}
use accel_observer.Prelude.State.{and_then}
use accel_observer.Net.Stream.{Socket, Delivers, Accepts}
use accel_observer.Net.{strip_cr}
use accel_observer.Net.Line.{OneLine, OneLine-append, recv_byte, strip_cr-append}
use accel_observer.WebSocket.Server.Control.{send_exact-message}
use accel_observer.WebSocket.Handshake.{
  key_of_line, response, recv_line, at_header, header_loop, answer, do_handshake,
}

-- a line with its end, CR LF
abbrev pub with_end : Bytes → Bytes
with_end line = (line ++ b'\r' ∷ []) ++ (b'\n' ∷ [])

-- the header lines, then the blank one
abbrev pub header_text : List Bytes → Bytes
header_text [] = with_end []
header_text (h ∷ hs) = with_end h ++ header_text hs

-- the key that the headers give, the last one that names it
abbrev pub key_of : Bytes → List Bytes → Bytes
key_of key [] = key
key_of key (h ∷ hs) = key_of (key_of_line key h) hs

-- Each header is one line that is not blank, and shorter than the fuel.
abbrev pub Headers : ℕ → List Bytes → Type 0
Headers fuel [] = Unit
Headers fuel (h ∷ hs) = (0 < length h) × (length h + 1 < fuel) × OneLine h × Headers fuel hs

module _ {S : Type 0} (net : Socket S) (up : Delivers net) where
  open net use {incoming, outgoing}

  recv_line_lem :
      (fuel : ℕ) (line left_of_line rest : Bytes) (s : S)
      → length left_of_line < fuel
      → OneLine left_of_line
      → incoming s ≡ left_of_line ++ (b'\n' ∷ rest)
      → (s' : S) × (recv_line net fuel line s ≡ (some (strip_cr (line ++ left_of_line)), s'))
        × (incoming s' ≡ rest)
        × (outgoing s' ≡ outgoing s)
  unfolding recv_line
  recv_line_lem zero line cs rest s h one e = absurd (omega arith)
  recv_line_lem (suc fuel) line [] rest s h one e =
      let (s1, got, left, quiet) = recv_byte net up b'\n' rest s e in
      (
        s1,
        ap
              (λ r. and_then r (λ part u.
                if get_or part 0 0 == b'\n'
                then (some (strip_cr line), u)
                else recv_line net fuel (line ++ get_or part 0 0 ∷ []) u))
              got
            ∙ ap (λ l. (some (strip_cr l), s1)) (sym (append-nil line)),
        left,
        quiet,
      )
  recv_line_lem (suc fuel) line (c ∷ cs) rest s h (other, one) e =
      let (s1, got, left1, quiet1) = recv_byte net up c (cs ++ (b'\n' ∷ rest)) s e in
      let (s', done, left, quiet) =
        recv_line_lem fuel (line ++ c ∷ []) cs rest s1 (omega arith) one left1 in
      (
        s',
        ap
              (λ r. and_then r (λ part u.
                if get_or part 0 0 == b'\n'
                then (some (strip_cr line), u)
                else recv_line net fuel (line ++ get_or part 0 0 ∷ []) u))
              got
            ∙ ap
                (λ t.
                  if t then (some (strip_cr line), s1) else recv_line net fuel (line ++ c ∷ []) s1)
                other
            ∙ done
            ∙ ap (λ l. (some (strip_cr l), s')) (append_assoc line (c ∷ []) cs),
        left,
        quiet ∙ quiet1,
      )

  -- One line that ends in CR LF is read without its end.
  read_whole :
      (fuel : ℕ) (line rest : Bytes) (s : S)
      → length line + 1 < fuel
      → OneLine line
      → incoming s ≡ with_end line ++ rest
      → (s' : S) × (recv_line net fuel [] s ≡ (some line, s'))
        × (incoming s' ≡ rest)
        × (outgoing s' ≡ outgoing s)
  read_whole fuel line rest s h one e =
      let (s', ran, left, quiet) =
        recv_line_lem fuel [] (line ++ b'\r' ∷ []) rest s
          (omega (arith, length-append line (b'\r' ∷ []))) (OneLine-append net up line one)
          (e ∙ append_assoc (line ++ b'\r' ∷ []) (b'\n' ∷ []) rest) in
      (s', ran ∙ ap (λ l. (some l, s')) (strip_cr-append line), left, quiet)

  read-Headers :
      (fuel lines : ℕ) (key : Bytes) (hs : List Bytes) (rest : Bytes) (s : S)
      → 1 < fuel
      → length hs < lines
      → Headers fuel hs
      → incoming s ≡ header_text hs ++ rest
      → (s' : S) × (header_loop net fuel lines key s ≡ (key_of key hs, s'))
        × (incoming s' ≡ rest)
        × (outgoing s' ≡ outgoing s)
  unfolding header_loop
  read-Headers fuel zero key hs rest s pos few ok e = absurd (omega arith)
  read-Headers fuel (suc lines) key [] rest s pos few ok e =
      let (s', ran, left, quiet) = read_whole fuel [] rest s (omega arith) tt e in
      (s', ap (λ r. at_header net key r (header_loop net fuel lines)) ran, left, quiet)
  read-Headers fuel (suc lines) key ([] ∷ hs) rest s pos few (some_text, short, one, ok) e =
      absurd (omega arith)
  read-Headers fuel (suc lines) key ((c ∷ cs) ∷ hs) rest s pos few (some_text, short, one, ok) e =
      let (s1, ran, left1, quiet1) =
        read_whole fuel (c ∷ cs) (header_text hs ++ rest) s short one
          (e ∙ append_assoc (with_end (c ∷ cs)) (header_text hs) rest) in
      let (s', all, left, quiet) =
        read-Headers fuel lines (key_of_line key (c ∷ cs)) hs rest s1 pos (omega arith) ok left1 in
      (
        s',
        ap (λ r. at_header net key r (header_loop net fuel lines)) ran ∙ all,
        left,
        quiet ∙ quiet1,
      )

  -- While the connection is up and the kernel takes what is sent, the handshake on a request of one
  -- line, header lines and a blank line succeeds if the headers give a key: it sends exactly the
  -- response with the accept key of that key, and leaves what follows the request, if the fuel is
  -- above the number of lines and their lengths.
  pub do_handshake-response :
      Accepts net
      → (fuel lines : ℕ) (request : Bytes) (hs : List Bytes) (k : ℕ) (ks rest : Bytes) (s : S)
      → length request + 1 < fuel
      → length hs < lines
      → OneLine request
      → Headers fuel hs
      → key_of [] hs ≡ k ∷ ks
      → incoming s ≡ with_end request ++ (header_text hs ++ rest)
      → (s' : S) × (do_handshake net fuel lines s ≡ (some tt, s'))
        × (incoming s' ≡ rest)
        × (outgoing s' ≡ outgoing s ++ response (k ∷ ks))
  unfolding do_handshake
  do_handshake-response takes fuel lines request hs k ks rest s short few one ok key e =
      let (s1, ran, left1, quiet1) =
        read_whole fuel request (header_text hs ++ rest) s short one e in
      let (s2, all, left2, quiet2) =
        read-Headers fuel lines [] hs rest s1 (omega arith) few ok left1 in
      let (s3, sent, wire, left3) = send_exact-message net up takes (response (k ∷ ks)) s2 in
      (
        s3,
        ap (λ r. and_then r (λ line u. answer net (header_loop net fuel lines [] u))) ran
            ∙ ap (answer net) (all ∙ ap (λ t. (t, s2)) key)
            ∙ sent,
        left3 ∙ left2,
        wire ∙ ap (λ w. w ++ response (k ∷ ks)) (quiet2 ∙ quiet1),
      )
