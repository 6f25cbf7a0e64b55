-- ===== src/WebIf/Hub/Threads/Owned.antt =====
-- Each descriptor belongs to its thread.
use accel_observer.Prelude.{
  ℕ, ◌+◌, ◌≡◌, refl, sym, ap, ◌∙◌, subst, Bool, ◌&&◌, if_either, true, false, not, inl, inr, List,
  [], ◌∷◌, ◌++◌, arith, ◌==◌, if◌then◌else◌, if_true, if_false, Bool-cases, map,
}
use accel_observer.WebIf.Hub.{FdCall, accepted, shut, closed, mem, erase, put}
use accel_observer.WebIf.Hub.Broadcast.{Distinct, those, mem-those, erase-those}
use accel_observer.WebIf.Hub.Threads.{Phase, no_thread, starting, reading, leaving, WebServer}

-- how often a descriptor has been accepted, and closed
abbrev pub accepts_of : ℕ → List FdCall → ℕ
accepts_of n [] = 0
accepts_of n (accepted fd ∷ calls) = (if fd == n then 1 else 0) + accepts_of n calls
accepts_of n (shut fd ∷ calls) = accepts_of n calls
accepts_of n (closed fd ∷ calls) = accepts_of n calls

abbrev pub closes_of : ℕ → List FdCall → ℕ
closes_of n [] = 0
closes_of n (accepted fd ∷ calls) = closes_of n calls
closes_of n (shut fd ∷ calls) = closes_of n calls
closes_of n (closed fd ∷ calls) = (if fd == n then 1 else 0) + closes_of n calls

-- one for a descriptor whose thread has not ended
abbrev pub open_of : Phase → ℕ
open_of no_thread = 0
open_of starting = 1
open_of reading = 1
open_of leaving = 1

pub record IsOwned {S D : Type 0} (t : WebServer S D) : Type 0 where
  pub distinct : Distinct t.web.client_fds
  pub registered : (n : ℕ) → mem n t.web.client_fds ≡ true → t.threads n ≡ reading
  pub ledger : (n : ℕ) → accepts_of n t.web.calls ≡ closes_of n t.web.calls + open_of (t.threads n)

accepts_of-append :
    (n : ℕ) (xs ys : List FdCall) → accepts_of n (xs ++ ys) ≡ accepts_of n xs + accepts_of n ys
accepts_of-append n [] ys = omega arith
accepts_of-append n (accepted fd ∷ xs) ys = let ih = accepts_of-append n xs ys in omega arith
accepts_of-append n (shut fd ∷ xs) ys = accepts_of-append n xs ys
accepts_of-append n (closed fd ∷ xs) ys = accepts_of-append n xs ys

closes_of-append :
    (n : ℕ) (xs ys : List FdCall) → closes_of n (xs ++ ys) ≡ closes_of n xs + closes_of n ys
closes_of-append n [] ys = omega arith
closes_of-append n (accepted fd ∷ xs) ys = closes_of-append n xs ys
closes_of-append n (shut fd ∷ xs) ys = closes_of-append n xs ys
closes_of-append n (closed fd ∷ xs) ys = let ih = closes_of-append n xs ys in omega arith

no_accepts : (n : ℕ) (fds : List ℕ) → accepts_of n (map shut fds) ≡ 0
no_accepts n [] = refl
no_accepts n (fd ∷ fds) = no_accepts n fds

no_closes : (n : ℕ) (fds : List ℕ) → closes_of n (map shut fds) ≡ 0
no_closes n [] = refl
no_closes n (fd ∷ fds) = no_closes n fds

-- The list of the registered, after an insertion and after a removal.
pub mem-append :
    (n fd : ℕ) (xs : List ℕ) → mem n (xs ++ fd ∷ []) ≡ (if mem n xs then true else fd == n)
mem-append n fd [] = ground arith
mem-append n fd (x ∷ xs) = let ih = mem-append n fd xs in ground arith

pub Distinct-append :
    (fd : ℕ) (xs : List ℕ) → Distinct xs → mem fd xs ≡ false → Distinct (xs ++ fd ∷ [])
Distinct-append fd [] d new = (refl, tt)
Distinct-append fd (x ∷ xs) (fresh, d) new =
    let e = mem-append x fd xs in
    let other : (fd == x) ≡ false = ground arith in
    (ground arith, Distinct-append fd xs d (ground arith))

pub Distinct-those : (p : ℕ → Bool) (xs : List ℕ) → Distinct xs → Distinct (those p xs)
Distinct-those p [] d = tt
Distinct-those p (x ∷ xs) (fresh, d) =
    let ih = Distinct-those p xs d in
    let e = mem-those p x xs in
    if_either Distinct (p x) (x ∷ those p xs) (those p xs) (ground arith, ih) ih

pub Distinct-erase : (fd : ℕ) (xs : List ℕ) → Distinct xs → Distinct (erase fd xs)
Distinct-erase fd xs d =
    subst Distinct (sym (erase-those fd xs)) (Distinct-those (λ n. not (n == fd)) xs d)

pub mem-erase : (n fd : ℕ) (xs : List ℕ) → mem n (erase fd xs) ≡ (mem n xs && not (n == fd))
mem-erase n fd xs = ap (mem n) (erase-those fd xs) ∙ mem-those (λ m. not (m == fd)) n xs

-- the account of one descriptor
abbrev pub Ledger : List FdCall → (ℕ → Phase) → Type 0
Ledger calls threads = (n : ℕ) → accepts_of n calls ≡ closes_of n calls + open_of (threads n)

-- A thread that moves from one phase to another, with a call that it makes.
pub Ledger-moves :
    (fd : ℕ) (call : FdCall) (phase : Phase) (calls : List FdCall) (threads : ℕ → Phase)
    → ((n : ℕ) → (n == fd) ≡ false → accepts_of n (call ∷ []) ≡ closes_of n (call ∷ []))
    → accepts_of fd (call ∷ []) + open_of (threads fd) ≡ closes_of fd (call ∷ []) + open_of phase
    → Ledger calls threads
    → Ledger (calls ++ call ∷ []) (put fd phase threads)
Ledger-moves fd call phase calls threads others ours ledger n =
    let a = accepts_of-append n calls (call ∷ []) in
    let c = closes_of-append n calls (call ∷ []) in
    let l = ledger n in
    elim (Bool-cases (n == fd)) [
      | inl self ↦
          let e : n ≡ fd = ground arith in
          let o : accepts_of n (call ∷ []) + open_of (threads n)
              ≡ closes_of n (call ∷ []) + open_of phase =
            subst
              (λ m.
                accepts_of m (call ∷ []) + open_of (threads m)
                ≡ closes_of m (call ∷ []) + open_of phase)
              (sym e) ours in
          let p : open_of (put fd phase threads n) ≡ open_of phase =
            ap open_of (if_true phase (threads n) self) in
          omega arith
      | inr other ↦
          let o = others n other in
          let p : open_of (put fd phase threads n) ≡ open_of (threads n) =
            ap open_of (if_false phase (threads n) other) in
          omega arith
    ]

-- A thread that moves without ending.
pub Ledger-stays :
    (fd : ℕ) (phase : Phase) (calls : List FdCall) (threads : ℕ → Phase)
    → open_of (threads fd) ≡ open_of phase
    → Ledger calls threads
    → Ledger calls (put fd phase threads)
Ledger-stays fd phase calls threads same ledger n =
    let l = ledger n in
    elim (Bool-cases (n == fd)) [
      | inl self ↦
          let e : n ≡ fd = ground arith in
          let o : open_of (threads n) ≡ open_of phase = ap (λ m. open_of (threads m)) e ∙ same in
          let p = ap open_of (if_true phase (threads n) self) in omega arith
      | inr other ↦ let p = ap open_of (if_false phase (threads n) other) in omega arith
    ]

-- Shutting descriptors down is not in the account.
pub Ledger-shuts :
    (fds : List ℕ) (calls : List FdCall) (threads : ℕ → Phase)
    → Ledger calls threads
    → Ledger (calls ++ map shut fds) threads
Ledger-shuts fds calls threads ledger n = omega (
  arith,
  ledger n,
  accepts_of-append n calls (map shut fds),
  closes_of-append n calls (map shut fds),
  no_accepts n fds,
  no_closes n fds,
)

-- The registered threads, when one that is not registered moves.
pub registered_moves :
    (fd : ℕ) (phase : Phase) (fds : List ℕ) (threads : ℕ → Phase)
    → mem fd fds ≡ false
    → ((n : ℕ) → mem n fds ≡ true → threads n ≡ reading)
    → (n : ℕ) → mem n fds ≡ true
    → put fd phase threads n ≡ reading
registered_moves fd phase fds threads out inside n h = elim (Bool-cases (n == fd)) [
  | inl self ↦ let e : n ≡ fd = ground arith in absurd (ground arith)
  | inr other ↦ if_false phase (threads n) other ∙ inside n h
]

-- A descriptor whose thread is not in its loop is not registered.
pub not_registered :
    {S D : Type 0} (t : WebServer S D) (fd : ℕ) (phase : Phase)
    → IsOwned t
    → t.threads fd ≡ phase
    → (phase ≡ reading → ⊥)
    → mem fd t.web.client_fds ≡ false
not_registered t fd phase o at other = elim (Bool-cases (mem fd t.web.client_fds)) [
  | inl h ↦ absurd (other (sym at ∙ o.registered fd h))
  | inr h ↦ h
]
