-- ===== src/WebIf/Hub/Threads/Safe.antt =====
-- Every step of every thread keeps the descriptors in order.
use accel_observer.Prelude.{
  ℕ, ◌+◌, ◌≡◌, refl, sym, ap, ◌∙◌, subst, true, false, not, inl, inr, List, [], ◌∷◌, ◌++◌, arith,
  ◌==◌, if_true, if_false, Bool-cases,
}
use accel_observer.Net.Stream.{Socket}
use accel_observer.WebIf.Hub.{
  accepted, closed, mem, put, bury, register_fd, unregister_fd, shut_all,
}
use accel_observer.WebIf.Hub.Broadcast.{Distinct, mem-those, bury_lem}
use accel_observer.WebIf.Hub.Threads.{
  Phase, no_thread, starting, reading, leaving, Caster, idle, WebServer, Step, accepts, talks, ends,
  registers, reads, breaks, halts, closes, begins, sends, buries, stops, clears, Reach, here, later,
}
use accel_observer.WebIf.Hub.Threads.Owned.{
  IsOwned, Ledger, open_of, accepts_of, closes_of, mem-append, Distinct-append, Distinct-those,
  Distinct-erase, mem-erase, Ledger-moves, Ledger-stays, Ledger-shuts, registered_moves,
  not_registered,
}

-- a call on one descriptor does not touch the account of another
other_accept :
    (fd n : ℕ)
    → (n == fd) ≡ false
    → accepts_of n (accepted fd ∷ []) ≡ closes_of n (accepted fd ∷ [])
other_accept fd n h = ground arith

other_close :
    (fd n : ℕ) → (n == fd) ≡ false → accepts_of n (closed fd ∷ []) ≡ closes_of n (closed fd ∷ [])
other_close fd n h = ground arith

own_accept :
    (fd : ℕ) (p : Phase)
    → p ≡ no_thread
    → accepts_of fd (accepted fd ∷ []) + open_of p
      ≡ closes_of fd (accepted fd ∷ []) + open_of starting
own_accept fd p h = let e = ap open_of h in ground arith

own_close :
    (fd : ℕ) (p : Phase)
    → open_of p ≡ 1
    → accepts_of fd (closed fd ∷ []) + open_of p ≡ closes_of fd (closed fd ∷ []) + open_of no_thread
own_close fd p h = ground arith

module _ {S D : Type 0} where
  -- A thread that is not in its loop ends.
  ends-IsOwned :
      (t : WebServer S D) (fd : ℕ) (phase : Phase)
      → IsOwned t
      → t.threads fd ≡ phase
      → (phase ≡ reading → ⊥)
      → open_of phase ≡ 1
      → IsOwned (record t {
        web = record t.web { calls = t.web.calls ++ closed fd ∷ [] };
        threads = put fd no_thread t.threads;
      })
  ends-IsOwned t fd phase o at other is_open = record {
    distinct = o.distinct;
    registered =
        registered_moves fd no_thread t.web.client_fds t.threads
          (not_registered t fd phase o at other) o.registered;
    ledger =
        Ledger-moves fd (closed fd) no_thread t.web.calls t.threads (other_close fd)
          (own_close fd (t.threads fd) (ap open_of at ∙ is_open)) o.ledger;
  }

  -- A thread leaves its loop, whatever the connections are.
  leaves-IsOwned :
      (t : WebServer S D) (fd : ℕ) (wires : ℕ → S)
      → IsOwned t
      → t.threads fd ≡ reading
      → IsOwned (record t {
        web = unregister_fd fd (record t.web { wires = wires });
        threads = put fd leaving t.threads;
      })
  unfolding unregister_fd
  leaves-IsOwned t fd wires o at = record {
    distinct = Distinct-erase fd t.web.client_fds o.distinct;
    registered = λ n h.
        let e = mem-erase n fd t.web.client_fds in
        let other : (n == fd) ≡ false = ground arith in
        let was : mem n t.web.client_fds ≡ true = ground arith in
        if_false leaving (t.threads n) other ∙ o.registered n was;
    ledger = Ledger-stays fd leaving t.web.calls t.threads (ap open_of at) o.ledger;
  }

  registers-IsOwned :
      (t : WebServer S D) (fd : ℕ)
      → IsOwned t
      → t.threads fd ≡ starting
      → IsOwned (record t { web = register_fd fd t.web; threads = put fd reading t.threads })
  unfolding register_fd
  registers-IsOwned t fd o at = record {
    distinct =
        Distinct-append fd t.web.client_fds o.distinct
          (not_registered t fd starting o at (λ e. ground arith));
    registered = λ n h. elim (Bool-cases (n == fd)) [
      | inl self ↦ if_true reading (t.threads n) self
      | inr other ↦
          let e = mem-append n fd t.web.client_fds in
          let was : mem n t.web.client_fds ≡ true = ground arith in
          if_false reading (t.threads n) other ∙ o.registered n was
    ];
    ledger = Ledger-stays fd reading t.web.calls t.threads (ap open_of at) o.ledger;
  }

  accepts-IsOwned :
      (t : WebServer S D) (fd : ℕ) (wires : ℕ → S)
      → IsOwned t
      → t.threads fd ≡ no_thread
      → IsOwned (record t {
        web = record t.web { wires = wires; calls = t.web.calls ++ accepted fd ∷ [] };
        threads = put fd starting t.threads;
      })
  accepts-IsOwned t fd wires o at = record {
    distinct = o.distinct;
    registered =
        registered_moves fd starting t.web.client_fds t.threads
          (not_registered t fd no_thread o at (λ e. ground arith)) o.registered;
    ledger =
        Ledger-moves fd (accepted fd) starting t.web.calls t.threads (other_accept fd)
          (own_accept fd (t.threads fd) at) o.ledger;
  }

  buries-IsOwned :
      (t : WebServer S D) (dead : List ℕ)
      → IsOwned t
      → IsOwned (record t { web = bury dead t.web; caster = idle })
  buries-IsOwned t dead o =
      let (fds, log, wires) = bury_lem dead t.web in
      let kept = λ (n : ℕ). not (mem n dead) in
      record {
        distinct = subst Distinct (sym fds) (Distinct-those kept t.web.client_fds o.distinct);
        registered = λ n h.
            let e = ap (mem n) fds ∙ mem-those kept n t.web.client_fds in
            o.registered n (ground arith);
        ledger =
            subst (λ c. Ledger c t.threads) (sym log)
              (Ledger-shuts dead t.web.calls t.threads o.ledger);
      }

module _ {S D : Type 0} (net : Socket S) where
  with_wires :
      (t : WebServer S D) (wires : ℕ → S) (caster : Caster)
      → IsOwned t
      → IsOwned (record t { web = record t.web { wires = wires }; caster = caster })
  with_wires t wires caster o = record {
    distinct = o.distinct;
    registered = o.registered;
    ledger = o.ledger;
  }

  Step-IsOwned : {t u : WebServer S D} → Step net t u → IsOwned t → IsOwned u
  unfolding shut_all
  Step-IsOwned {t} (accepts fd s r free) o = accepts-IsOwned t fd (put fd s t.web.wires) o free
  Step-IsOwned {t} (talks fd s at) o = with_wires t _ t.caster o
  Step-IsOwned {t} (ends fd at) o = ends-IsOwned t fd starting o at (λ e. ground arith) refl
  Step-IsOwned {t} (registers fd at) o = registers-IsOwned t fd o at
  Step-IsOwned {t} (reads fd at r ok) o = with_wires t _ t.caster o
  Step-IsOwned {t} (breaks fd at bad) o = leaves-IsOwned t fd _ o at
  Step-IsOwned {t} (halts fd at r) o = leaves-IsOwned t fd t.web.wires o at
  Step-IsOwned {t} (closes fd at) o = ends-IsOwned t fd leaving o at (λ e. ground arith) refl
  Step-IsOwned {t} (begins json at) o = record {
    distinct = o.distinct;
    registered = o.registered;
    ledger = o.ledger;
  }
  Step-IsOwned {t} (sends frame fd left dead at) o = with_wires t _ _ o
  Step-IsOwned {t} (buries frame dead at) o = buries-IsOwned t dead o
  Step-IsOwned {t} (stops r) o = record {
    distinct = o.distinct;
    registered = o.registered;
    ledger = o.ledger;
  }
  Step-IsOwned {t} (clears r) o = record {
    distinct = tt;
    registered = λ n h. absurd (ground arith);
    ledger = Ledger-shuts t.web.client_fds t.web.calls t.threads o.ledger;
  }

  -- In every state that the threads reach from a server with no connection, in whatever order their steps
  -- come: the registered descriptors are different ones whose threads are in their read loops, so none of
  -- them is closed; and each descriptor has been closed as often as it was accepted, but for one time
  -- less while its thread has not ended. So none is closed twice, none by a broadcast, and none is left
  -- open by a thread that has ended.
  pub Reach-IsOwned :
      (t u : WebServer S D)
      → t.web.client_fds ≡ []
      → t.web.calls ≡ []
      → ((n : ℕ) → t.threads n ≡ no_thread)
      → Reach net t u
      → IsOwned u
  Reach-IsOwned t u none_yet no_calls free here = record {
    distinct = subst Distinct (sym none_yet) tt;
    registered = λ n h. let e = ap (mem n) none_yet in absurd (ground arith);
    ledger = λ n.
        let a = ap (accepts_of n) no_calls in
        let c = ap (closes_of n) no_calls in let p = ap open_of (free n) in omega arith;
  }
  Reach-IsOwned t u none_yet no_calls free (later r step) =
      Step-IsOwned step (Reach-IsOwned t _ none_yet no_calls free r)
