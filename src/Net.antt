-- ===== src/Net.antt =====
-- client/src/network/net_platform.c: the loops over `recv` and `send`. The server's WsSubscriber has
-- the same loops under other names.
pub mod Stream
pub mod Exact
pub mod Line
pub mod Loopback
mod Tests
use accel_observer.Prelude.{
  ℕ, zero, suc, ◌+◌, ◌-◌, ◌^◌, Bool, true, false, ◌&&◌, List, [], ◌∷◌, ◌++◌, Option, none, some,
  ltb, ◌==◌, if◌then◌else◌, min, length, take, drop, Bytes, get_or,
}
use accel_observer.Prelude.State.{and_then}
use accel_observer.Net.Stream.{Socket}

-- at most this much is asked of one `recv` or `send`
abbrev pub chunk_max : ℕ
chunk_max = 65536

-- without its last element; `line.pop_back()`
abbrev pub pop_back : Bytes → Bytes
pop_back [] = []
pop_back (x ∷ []) = []
pop_back (x ∷ y ∷ xs) = x ∷ pop_back (y ∷ xs)

abbrev pub ends_in_cr : Bytes → Bool
ends_in_cr [] = false
ends_in_cr (x ∷ []) = x == b'\r'
ends_in_cr (x ∷ y ∷ xs) = ends_in_cr (y ∷ xs)

abbrev pub strip_cr : Bytes → Bytes
strip_cr line = if ends_in_cr line then pop_back line else line

module _ {S : Type 0} (net : Socket S) where
  -- `while (received < len)`; `buf` is what has been received. Each round adds a byte at least, so
  -- fuel above `len` never runs out.
  unfoldable pub recv_loop : ℕ → ℕ → Bytes → S → Option Bytes × S
  recv_loop zero len buf s = (none, s)
  recv_loop (suc fuel) len buf s =
      let more =
        and_then (net.recv (min (len - length buf) chunk_max) s)
          (λ part. recv_loop fuel len (buf ++ part)) in
      if ltb (length buf) len then more else (some buf, s)

  -- `none` where the C function returns false
  unfoldable pub net_recv_exact : ℕ → S → Option Bytes × S
  unfolding recv_loop
  net_recv_exact len s = recv_loop (suc len) len [] s

  -- `while (sent < len)`; the list is `ptr[sent ..]`. A result is there where the C function returns
  -- true.
  pub send_loop : ℕ → Bytes → S → Option (Unit {0}) × S
  send_loop zero left s = (none, s)
  send_loop (suc fuel) [] s = (some tt, s)
  send_loop (suc fuel) (x ∷ xs) s =
      and_then (net.send (take chunk_max (x ∷ xs)) s) (λ n. send_loop fuel (drop n (x ∷ xs)))

  unfoldable pub net_send_exact : Bytes → S → Option (Unit {0}) × S
  unfolding send_loop
  net_send_exact bytes s = send_loop (suc (length bytes)) bytes s

  -- `while (pos < buf_size - 1)`, on the places left in the buffer; a line that fills the buffer is
  -- returned as it is. `none` is the result -1.
  pub line_loop : ℕ → Bytes → S → Option Bytes × S
  line_loop zero line s = (some line, s)
  line_loop (suc room) line s = and_then (net.recv 1 s) (λ part s'.
      let c = get_or part 0 0 in
      let more = line_loop room (line ++ c ∷ []) s' in
      if c == b'\n' then (some (strip_cr line), s') else more)

  unfoldable pub net_recv_line : ℕ → S → Option Bytes × S
  unfolding line_loop
  net_recv_line buf_size s = if buf_size == 0 then (none, s) else line_loop (buf_size - 1) [] s
