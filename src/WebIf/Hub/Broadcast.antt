-- ===== src/WebIf/Hub/Broadcast.antt =====
-- Who gets a broadcast, and who is dropped.
use accel_observer.Prelude.{
  ℕ, ◌≡◌, refl, sym, ap, ◌∙◌, Bool, true, false, not, ◌&&◌, inl, inr, List, [], ◌∷◌, ◌++◌,
  append_assoc, append-nil, arith, ◌==◌, if◌then◌else◌, if_true, if_false, Bool-cases, Bytes, map,
}
use accel_observer.Net.Stream.{Socket, Accepts, Refuses}
use accel_observer.WebIf.{ws_encode_frame}
use accel_observer.WebIf.Send.{is_ok, send_raw, send_raw-Sending, send_raw-message}
use accel_observer.WebIf.Hub.{
  shut, WebInterface, mem, erase, put, dead_if, bury, send_each, ws_broadcast,
}

-- No descriptor stands twice in the list.
abbrev pub Distinct : List ℕ → Type 0
Distinct [] = Unit
Distinct (x ∷ xs) = (mem x xs ≡ false) × Distinct xs

-- the descriptors that pass a test
abbrev pub those : (ℕ → Bool) → List ℕ → List ℕ
those keep [] = []
those keep (x ∷ xs) = if keep x then x ∷ those keep xs else those keep xs

put-other :
    {S : Type 0} (n fd : ℕ) (s : S) (wires : ℕ → S) → (n == fd) ≡ false → put fd s wires n ≡ wires n
put-other n fd s wires h = rw h

mem-other : (fd x : ℕ) (xs : List ℕ) → mem fd xs ≡ true → mem x xs ≡ false → (fd == x) ≡ false
mem-other fd x xs h k = elim (Bool-cases (fd == x)) [
  | inl same ↦ let e : fd ≡ x = ground arith in ground arith
  | inr other ↦ other
]

-- Membership after the test.
pub mem-those : (p : ℕ → Bool) (n : ℕ) (xs : List ℕ) → mem n (those p xs) ≡ (mem n xs && p n)
mem-those p n [] = refl
mem-those p n (x ∷ xs) = elim (Bool-cases (x == n)) [
  | inl same ↦ let e : x ≡ n = ground arith in let ih = mem-those p n xs in ground arith
  | inr other ↦ let ih = mem-those p n xs in ground arith
]

those-ext :
    (p q : ℕ → Bool) (xs : List ℕ)
    → ((n : ℕ) → mem n xs ≡ true → p n ≡ q n)
    → those p xs ≡ those q xs
those-ext p q [] h = refl
those-ext p q (x ∷ xs) h =
    let here : mem x (x ∷ xs) ≡ true = ground arith in
    let e = h x here in
    let more : (n : ℕ) → mem n xs ≡ true → mem n (x ∷ xs) ≡ true = λ n k. ground arith in
    let ih = those-ext p q xs (λ n k. h n (more n k)) in ground arith

those-those : (p q : ℕ → Bool) (xs : List ℕ) → those p (those q xs) ≡ those (λ n. q n && p n) xs
those-those p q [] = refl
those-those p q (x ∷ xs) = let ih = those-those p q xs in ground arith

pub erase-those : (fd : ℕ) (xs : List ℕ) → erase fd xs ≡ those (λ n. not (n == fd)) xs
unfolding erase
erase-those fd [] = refl
erase-those fd (x ∷ xs) = let ih = erase-those fd xs in ground arith

module _ {S : Type 0} (net : Socket S) where
  -- whether the whole frame is sent to a descriptor
  abbrev pub reached : Bytes → (ℕ → S) → ℕ → Bool
  reached frame wires n = is_ok (send_raw net frame (wires n)).0

  -- what the sends to a list of descriptors do
  record Sends (snapshot : List ℕ) (frame : Bytes) (wires : ℕ → S) (r : List ℕ × (ℕ → S))
      : Type 0 where
    dead : r.0 ≡ those (λ n. not (reached frame wires n)) snapshot
    others : (n : ℕ) → mem n snapshot ≡ false → r.1 n ≡ wires n
    ours : (n : ℕ) → mem n snapshot ≡ true → r.1 n ≡ (send_raw net frame (wires n)).1

  dead_step :
      (b : Bool) (fd : ℕ) (rest : List ℕ) → dead_if b fd rest ≡ (if not b then fd ∷ rest else rest)
  dead_step true fd rest = refl
  dead_step false fd rest = refl

  send_each-Sends :
      (snapshot : List ℕ) (frame : Bytes) (wires : ℕ → S)
      → Distinct snapshot
      → Sends snapshot frame wires (send_each net snapshot frame wires)
  unfolding send_each
  send_each-Sends [] frame wires d = record {
    dead = refl;
    others = λ n h. refl;
    ours = λ n h. absurd (ground arith);
  }
  send_each-Sends (fd ∷ rest) frame wires (new, d) =
      let s = (send_raw net frame (wires fd)).1 in
      let wires1 = put fd s wires in
      let ih = send_each-Sends rest frame wires1 d in
      let same : (n : ℕ) → mem n rest ≡ true → wires1 n ≡ wires n =
        λ n h. put-other n fd s wires (mem-other n fd rest h new) in
      record {
        dead =
            dead_step (reached frame wires fd) fd _
            ∙ ap (λ l. if not (reached frame wires fd) then fd ∷ l else l)
                (ih.dead
                  ∙ those-ext (λ n. not (reached frame wires1 n)) (λ n. not (reached frame wires n))
                      rest (λ n h. ap (λ u. not (is_ok (send_raw net frame u).0)) (same n h)));
        others = λ n h. ih.others n (ground arith) ∙ put-other n fd s wires (ground arith);
        ours = λ n h. elim (Bool-cases (fd == n)) [
          | inl here ↦
              let e : fd ≡ n = ground arith in
              let self : (n == fd) ≡ true = ground arith in
              ih.others n (ap (λ m. mem m rest) (sym e) ∙ new)
              ∙ if_true s (wires n) self
              ∙ ap (λ m. (send_raw net frame (wires m)).1) e
          | inr there ↦
              let k : mem n rest ≡ true = ground arith in
              ih.ours n k ∙ ap (λ u. (send_raw net frame u).1) (same n k)
        ];
      }

those-all : (xs : List ℕ) → those (λ n. true) xs ≡ xs
those-all [] = refl
those-all (x ∷ xs) = ap (◌∷◌ x) (those-all xs)

those-none : (xs : List ℕ) → those (λ n. false) xs ≡ []
those-none [] = refl
those-none (x ∷ xs) = those-none xs

module _ {S D : Type 0} where
  -- What `bury` leaves of a list, and the calls that it makes.
  pub bury_lem :
      (dead : List ℕ) (w : WebInterface S D)
      → ((bury dead w).client_fds ≡ those (λ n. not (mem n dead)) w.client_fds)
        × ((bury dead w).calls ≡ w.calls ++ map shut dead)
        × ((bury dead w).wires ≡ w.wires)
  unfolding bury
  bury_lem [] w = (sym (those-all w.client_fds), sym (append-nil w.calls), refl)
  bury_lem (fd ∷ dead) w =
      let (fds, log, wires) =
        bury_lem dead
          (record w { client_fds = erase fd w.client_fds; calls = w.calls ++ shut fd ∷ [] }) in
      (
        fds
            ∙ ap (those (λ n. not (mem n dead))) (erase-those fd w.client_fds)
            ∙ those-those (λ n. not (mem n dead)) (λ n. not (n == fd)) w.client_fds
            ∙ those-ext _ (λ n. not (mem n (fd ∷ dead))) w.client_fds (λ n h. ground arith),
        log ∙ append_assoc w.calls (shut fd ∷ []) (map shut dead),
        wires,
      )

-- The list without those that a test sorts out.
those-left :
    (p : ℕ → Bool) (xs : List ℕ)
    → those (λ n. not (mem n (those (λ m. not (p m)) xs))) xs ≡ those p xs
those-left p xs = those-ext _ p xs (λ n h. let e = mem-those (λ m. not (p m)) n xs in ground arith)

module _ {S D : Type 0} (net : Socket S) where
  open net use {incoming, outgoing}

  -- What a broadcast of the frame does to one registered descriptor.
  abbrev pub GetsPiece : Bytes → WebInterface S D → WebInterface S D → ℕ → Type 0
  GetsPiece frame w w' n =
      (piece : Bytes) × (left : Bytes) × (frame ≡ piece ++ left)
      × (outgoing (w'.wires n) ≡ outgoing (w.wires n) ++ piece)
      × (incoming (w'.wires n) ≡ incoming (w.wires n))
      × (mem n w'.client_fds ≡ true → left ≡ [])

  pub record Broadcasts (frame : Bytes) (w w' : WebInterface S D) : Type 0 where
    pub kept : w'.client_fds ≡ those (reached net frame w.wires) w.client_fds
    pub shut_down :
        w'.calls ≡ w.calls ++ map shut (those (λ n. not (reached net frame w.wires n)) w.client_fds)
    pub untouched : (n : ℕ) → mem n w.client_fds ≡ false → w'.wires n ≡ w.wires n
    pub sent : (n : ℕ) → mem n w.client_fds ≡ true → GetsPiece frame w w' n

  -- Whatever the connections do, if a `send` that fails sends nothing and the registered descriptors
  -- are different ones: a broadcast keeps, in order,
  -- exactly the registered browsers to which `send_raw` has succeeded, and shuts down, once and in order,
  -- exactly the others, closing none. Each registered browser is sent a piece of the frame from its
  -- beginning, and those that are kept the whole frame; nothing is taken from any connection, and the
  -- descriptors that are not registered are not touched.
  pub ws_broadcast-Broadcasts :
      Refuses net
      → (json : Bytes) (w : WebInterface S D) → Distinct w.client_fds
      → Broadcasts (ws_encode_frame json) w (ws_broadcast net json w)
  unfolding ws_broadcast
  ws_broadcast-Broadcasts refuses json w d =
      let frame = ws_encode_frame json in
      let r = send_each-Sends net w.client_fds frame w.wires d in
      let (dead, wires) = send_each net w.client_fds frame w.wires in
      let (fds, log, same) = bury_lem dead (record w { wires = wires }) in
      let keeps : (ws_broadcast net json w).client_fds
          ≡ those (reached net frame w.wires) w.client_fds =
        fds
        ∙ ap (λ l. those (λ n. not (mem n l)) w.client_fds) r.dead
        ∙ those-left (reached net frame w.wires) w.client_fds in
      record {
        kept = keeps;
        shut_down = log ∙ ap (λ l. w.calls ++ map shut l) r.dead;
        untouched = λ n h. ap (λ f. f n) same ∙ r.others n h;
        sent = λ n h.
            let t = send_raw-Sending net refuses frame (w.wires n) in
            let after = ap (λ f. f n) same ∙ r.ours n h in
            (
              t.piece,
              t.left,
              t.split,
              ap outgoing after ∙ t.stream,
              ap incoming after ∙ t.quiet,
              λ k.
                  let e = mem-those (reached net frame w.wires) n w.client_fds in
                  let m = ap (mem n) keeps in t.whole (ground arith),
            );
      }

  -- While the kernel takes what is sent, a broadcast sends the whole frame once to each registered
  -- browser, nothing to any other descriptor, and neither drops nor shuts down any.
  pub ws_broadcast-all :
      Refuses net
      → Accepts net
      → (json : Bytes) (w : WebInterface S D) → Distinct w.client_fds
      → ((ws_broadcast net json w).client_fds ≡ w.client_fds)
        × ((ws_broadcast net json w).calls ≡ w.calls)
        × ((n : ℕ)
            → outgoing ((ws_broadcast net json w).wires n)
              ≡ outgoing (w.wires n) ++ (if mem n w.client_fds then ws_encode_frame json else []))
  ws_broadcast-all refuses takes json w d =
      let frame = ws_encode_frame json in
      let b = ws_broadcast-Broadcasts refuses json w d in
      let reaches = reached net frame w.wires in
      let all : (n : ℕ) → reaches n ≡ true = λ n.
        let (s, ran, wire, quiet) = send_raw-message net takes frame (w.wires n) in
        ap (λ r. is_ok r.0) ran in
      let keeps =
        b.kept
        ∙ those-ext reaches (λ n. true) w.client_fds (λ n h. all n)
        ∙ those-all w.client_fds in
      let dies : those (λ n. not (reaches n)) w.client_fds ≡ [] =
        those-ext (λ n. not (reaches n)) (λ n. false) w.client_fds (λ n h. ap not (all n))
        ∙ those-none w.client_fds in
      (
        keeps,
        b.shut_down ∙ ap (λ l. w.calls ++ map shut l) dies ∙ append-nil w.calls,
        λ n. elim (Bool-cases (mem n w.client_fds)) [
          | inl h ↦
              let (piece, left, split, wire, quiet, whole) = b.sent n h in
              let none_left = whole (ap (mem n) keeps ∙ h) in
              wire
              ∙ ap (◌++◌ (outgoing (w.wires n))) (
                  sym (append-nil piece)
                  ∙ ap (◌++◌ piece) (sym none_left)
                  ∙ sym split
                  ∙ sym (if_true frame [] h))
          | inr h ↦
              ap outgoing (b.untouched n h)
              ∙ sym (append-nil (outgoing (w.wires n)))
              ∙ ap (◌++◌ (outgoing (w.wires n))) (sym (if_false frame [] h))
        ],
      )
