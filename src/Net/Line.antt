-- ===== src/Net/Line.antt =====
-- client/src/network/net_platform.c, `net_recv_line`: what it makes of a line.
use accel_observer.Prelude.{
  ℕ, zero, suc, ◌+◌, ◌≤◌, ◌<◌, ◌≡◌, refl, sym, ap, ◌∙◌, Bool, true, false, not, ◌&&◌, [], ◌∷◌, ◌++◌,
  append_assoc, append-nil, some, arith, ◌==◌, if◌then◌else◌, length, length-append, get_or, Bytes,
}
use accel_observer.Prelude.State.{and_then}
use accel_observer.Net.Stream.{Socket, Delivers}
use accel_observer.Net.{pop_back, ends_in_cr, strip_cr, line_loop, net_recv_line}

-- No byte of the line is a newline.
abbrev pub OneLine : Bytes → Type 0
OneLine [] = Unit
OneLine (c ∷ cs) = ((c == b'\n') ≡ false) × OneLine cs

-- the same as a test
abbrev pub one_line : Bytes → Bool
one_line [] = true
one_line (c ∷ cs) = not (c == b'\n') && one_line cs

pub OneLine_lem : (line : Bytes) → one_line line ≡ true → OneLine line
OneLine_lem [] h = tt
OneLine_lem (c ∷ cs) h = (ground arith, OneLine_lem cs (ground arith))

pub OneLine-concat : (xs ys : Bytes) → OneLine xs → OneLine ys → OneLine (xs ++ ys)
OneLine-concat [] ys h k = k
OneLine-concat (x ∷ xs) ys (other, h) k = (other, OneLine-concat xs ys h k)

ends_in_cr-append : (line : Bytes) → ends_in_cr (line ++ b'\r' ∷ []) ≡ true
ends_in_cr-append [] = refl
ends_in_cr-append (x ∷ []) = refl
ends_in_cr-append (x ∷ y ∷ ys) = ends_in_cr-append (y ∷ ys)

pop_back-append : (line : Bytes) (c : ℕ) → pop_back (line ++ c ∷ []) ≡ line
pop_back-append [] c = refl
pop_back-append (x ∷ []) c = refl
pop_back-append (x ∷ y ∷ ys) c = ap (◌∷◌ x) (pop_back-append (y ∷ ys) c)

pub strip_cr-append : (line : Bytes) → strip_cr (line ++ b'\r' ∷ []) ≡ line
strip_cr-append line =
    ap (λ t. if t then pop_back (line ++ b'\r' ∷ []) else line ++ b'\r' ∷ [])
      (ends_in_cr-append line)
    ∙ pop_back-append line b'\r'

one_byte :
    (part left tail : Bytes) (c : ℕ)
    → 0 < length part
    → length part ≤ 1
    → c ∷ tail ≡ part ++ left
    → (part ≡ c ∷ []) × (left ≡ tail)
one_byte [] left tail c pos short e = absurd (omega arith)
one_byte (x ∷ []) left tail c pos short e = (cc, cc)
one_byte (x ∷ y ∷ ys) left tail c pos short e = absurd (omega arith)

module _ {S : Type 0} (net : Socket S) (up : Delivers net) where
  open net use {incoming, outgoing}

  pub recv_byte :
      (c : ℕ) (tail : Bytes) (s : S)
      → incoming s ≡ c ∷ tail
      → (s' : S) × (net.recv 1 s ≡ (some (c ∷ []), s'))
        × (incoming s' ≡ tail)
        × (outgoing s' ≡ outgoing s)
  recv_byte c tail s e =
      let (part, s', got) = up 1 s (omega arith) (omega (arith, ap length e)) in
      let (pos, short, stream, quiet) = net.recv_some 1 s s' part (omega arith) got in
      let (one, left) = one_byte part (incoming s') tail c pos short (sym e ∙ stream) in
      (s', got ∙ ap (λ p. (some p, s')) one, left, quiet)

  line_step :
      (room : ℕ) (line : Bytes) (c : ℕ) (tail : Bytes) (s : S)
      → incoming s ≡ c ∷ tail
      → (s' : S) × (line_loop net (suc room) line s ≡ (
          if c == b'\n'
          then (some (strip_cr line), s')
          else line_loop net room (line ++ c ∷ []) s'))
        × (incoming s' ≡ tail)
        × (outgoing s' ≡ outgoing s)
  unfolding line_loop
  line_step room line c tail s e =
      let (s', got, left, quiet) = recv_byte c tail s e in
      (
        s',
        ap
            (λ r. and_then r (λ part u.
              if get_or part 0 0 == b'\n'
              then (some (strip_cr line), u)
              else line_loop net room (line ++ get_or part 0 0 ∷ []) u))
            got,
        left,
        quiet,
      )

  line_loop_lem :
      (room : ℕ) (line rest_of_line rest : Bytes) (s : S)
      → length rest_of_line < room
      → OneLine rest_of_line
      → incoming s ≡ rest_of_line ++ (b'\n' ∷ rest)
      → (s' : S) × (line_loop net room line s ≡ (some (strip_cr (line ++ rest_of_line)), s'))
        × (incoming s' ≡ rest)
        × (outgoing s' ≡ outgoing s)
  line_loop_lem zero line cs rest s h one e = absurd (omega arith)
  line_loop_lem (suc room) line [] rest s h one e =
      let (s', ran, left, quiet) = line_step room line b'\n' rest s e in
      (s', ran ∙ ap (λ l. (some (strip_cr l), s')) (sym (append-nil line)), left, quiet)
  line_loop_lem (suc room) line (c ∷ cs) rest s h (other, one) e =
      let (s1, ran, left1, quiet1) = line_step room line c (cs ++ (b'\n' ∷ rest)) s e in
      let (s', done, left, quiet) =
        line_loop_lem room (line ++ c ∷ []) cs rest s1 (omega arith) one left1 in
      (
        s',
        ran
            ∙ ap
                (λ t.
                  if t then (some (strip_cr line), s1) else line_loop net room (line ++ c ∷ []) s1)
                other
            ∙ done
            ∙ ap (λ l. (some (strip_cr l), s')) (append_assoc line (c ∷ []) cs),
        left,
        quiet ∙ quiet1,
      )

  pub OneLine-append : (line : Bytes) → OneLine line → OneLine (line ++ b'\r' ∷ [])
  OneLine-append [] h = (refl, tt)
  OneLine-append (c ∷ cs) (other, h) = (other, OneLine-append cs h)

  net_recv_line-room : (room : ℕ) (s : S) → net_recv_line net (suc room) s ≡ line_loop net room [] s
  unfolding net_recv_line
  net_recv_line-room room s = ground arith

  -- While the connection is up, `net_recv_line` reads a line that has no newline in it, ends in CR
  -- LF and fits the buffer: it returns the line without its end, leaves what follows, and sends
  -- nothing.
  pub net_recv_line-crlf :
      (buf_size : ℕ) (line rest : Bytes) (s : S)
      → length line + 2 < buf_size
      → OneLine line
      → incoming s ≡ (line ++ b'\r' ∷ []) ++ (b'\n' ∷ rest)
      → (s' : S) × (net_recv_line net buf_size s ≡ (some line, s'))
        × (incoming s' ≡ rest)
        × (outgoing s' ≡ outgoing s)
  net_recv_line-crlf zero line rest s h one e = absurd (omega arith)
  net_recv_line-crlf (suc room) line rest s h one e =
      let (s', ran, left, quiet) =
        line_loop_lem room [] (line ++ b'\r' ∷ []) rest s
          (omega (arith, length-append line (b'\r' ∷ []))) (OneLine-append line one) e in
      (
        s',
        net_recv_line-room room s ∙ ran ∙ ap (λ l. (some l, s')) (strip_cr-append line),
        left,
        quiet,
      )
