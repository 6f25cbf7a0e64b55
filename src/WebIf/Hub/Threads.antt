-- ===== src/WebIf/Hub/Threads.antt =====
-- The threads of the browser interface: one for each accepted connection (`handle_client`), and the
-- one that broadcasts. Each step is what a thread does under a mutex, or one call.
pub mod Owned
pub mod Safe
use accel_observer.Prelude.{
  ℕ, ◌≡◌, Bool, true, false, List, [], ◌∷◌, ◌++◌, Option, none, some, Bytes,
}
use accel_observer.Net.Stream.{Socket}
use accel_observer.WebIf.{ws_encode_frame}
use accel_observer.WebIf.Send.{is_ok, send_raw}
use accel_observer.WebIf.Discard.{ws_discard_frame}
use accel_observer.WebIf.Hub.{
  FdCall, accepted, WebInterface, put, dead_if, bury, register_fd, unregister_fd, close_fd,
  shut_all,
}

-- Where the thread of a descriptor stands: before it registers, in its read loop, behind it.
pub data Phase : Type 0 where
  no_thread starting reading leaving : Phase

-- Where the broadcast stands: the frame, what is left of the snapshot, and `dead`.
pub data Caster : Type 0 where
  idle : Caster
  sending : Bytes → List ℕ → List ℕ → Caster

pub record WebServer (S D : Type 0) : Type 0 where
  pub web : WebInterface S D
  pub running : Bool
  pub threads : ℕ → Phase
  pub caster : Caster

module _ {S D : Type 0} (net : Socket S) where
  -- `t` with the state of one connection changed
  abbrev pub with_wire : ℕ → S → WebInterface S D → WebInterface S D
  with_wire fd s w = record w { wires = put fd s w.wires }

  pub data Step (t : WebServer S D) : WebServer S D → Type 0 where
    -- `accept` gives a descriptor that is not open.
    accepts :
        (fd : ℕ) (s : S)
        → t.running ≡ true
        → t.threads fd ≡ no_thread
        → Step t (record t {
          web = record (with_wire fd s t.web) { calls = t.web.calls ++ accepted fd ∷ [] };
          threads = put fd starting t.threads;
        })
    -- An answer is sent, or a request read, before the thread registers.
    talks :
        (fd : ℕ) (s : S)
        → t.threads fd ≡ starting
        → Step t (record t { web = with_wire fd s t.web })
    -- The request is not for an upgrade, or the upgrade fails.
    ends :
        (fd : ℕ)
        → t.threads fd ≡ starting
        → Step t (record t { web = close_fd fd t.web; threads = put fd no_thread t.threads })
    registers :
        (fd : ℕ)
        → t.threads fd ≡ starting
        → Step t (record t { web = register_fd fd t.web; threads = put fd reading t.threads })
    reads :
        (fd : ℕ)
        → t.threads fd ≡ reading
        → t.running ≡ true
        → is_ok (ws_discard_frame net (t.web.wires fd)).0 ≡ true
        → Step t (record t { web = with_wire fd (ws_discard_frame net (t.web.wires fd)).1 t.web })
    breaks :
        (fd : ℕ)
        → t.threads fd ≡ reading
        → is_ok (ws_discard_frame net (t.web.wires fd)).0 ≡ false
        → Step t (record t {
          web = unregister_fd fd (with_wire fd (ws_discard_frame net (t.web.wires fd)).1 t.web);
          threads = put fd leaving t.threads;
        })
    halts :
        (fd : ℕ)
        → t.threads fd ≡ reading
        → t.running ≡ false
        → Step t (record t { web = unregister_fd fd t.web; threads = put fd leaving t.threads })
    closes :
        (fd : ℕ)
        → t.threads fd ≡ leaving
        → Step t (record t { web = close_fd fd t.web; threads = put fd no_thread t.threads })
    -- `ws_broadcast`: the snapshot, one send, and the removal of the dead
    begins :
        (json : Bytes)
        → t.caster ≡ idle
        → Step t (record t { caster = sending (ws_encode_frame json) t.web.client_fds [] })
    sends :
        (frame : Bytes) (fd : ℕ) (left dead : List ℕ)
        → t.caster ≡ sending frame (fd ∷ left) dead
        → Step t (record t {
          web = with_wire fd (send_raw net frame (t.web.wires fd)).1 t.web;
          caster =
              sending frame left
                (dead ++ dead_if (is_ok (send_raw net frame (t.web.wires fd)).0) fd []);
        })
    buries :
        (frame : Bytes) (dead : List ℕ)
        → t.caster ≡ sending frame [] dead
        → Step t (record t { web = bury dead t.web; caster = idle })
    stops : t.running ≡ true → Step t (record t { running = false })
    clears : t.running ≡ false → Step t (record t { web = shut_all t.web })

  pub data Reach (t : WebServer S D) : WebServer S D → Type 0 where
    here : Reach t t
    later : {u v : WebServer S D} → Reach t u → Step u v → Reach t v
