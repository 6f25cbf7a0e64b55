-- ===== src/WebIf/Http/Request.antt =====
-- A request is read whole, however it comes.
use accel_observer.Prelude.{
  ℕ, zero, suc, ◌-◌, ◌<◌, ◌≡◌, refl, sym, ap, ◌∙◌, Bool, true, false, not, inl, inr, [], ◌∷◌, ◌++◌,
  append_assoc, append-nil, some, arith, ltb, lt→ltb, if◌then◌else◌, if_true, Bool-cases, length,
  length-append, take, Bytes, all_below, all_below_sound,
}
use accel_observer.Net.Stream.{Socket, Delivers}
use accel_observer.WebIf.Http.{has_blank, at_part, request_loop, read_request}

-- The blank line ends the request, and is not in any part of it from the beginning.
pub record IsRequest (request : Bytes) : Type 0 where
  pub ends : has_blank request ≡ true
  pub not_before : all_below (length request) (λ n. not (has_blank (take n request))) ≡ true
  pub fits : length request < 4096

take-front : (front back : Bytes) → take (length front) (front ++ back) ≡ front
take-front [] back = refl
take-front (x ∷ xs) back = ap (◌∷◌ x) (take-front xs back)

-- A part that is not the whole has no blank line.
part_lem :
    (request front back : Bytes)
    → IsRequest request
    → request ≡ front ++ back
    → 0 < length back
    → has_blank front ≡ false
part_lem request front back r e some_left =
    let short : length front < length request =
      omega (arith, ap length e, length-append front back) in
    let h =
      all_below_sound (length request) (λ n. not (has_blank (take n request))) (length front)
        r.not_before short in
    let same : take (length front) request ≡ front =
      ap (take (length front)) e ∙ take-front front back in
    let k : not (has_blank front) ≡ true = ap (λ t. not (has_blank t)) (sym same) ∙ h in
    ground arith

nil_of_length : (xs : Bytes) → length xs ≡ 0 → xs ≡ []
nil_of_length [] h = refl
nil_of_length (x ∷ xs) h = absurd (omega arith)

module _ {S : Type 0} (net : Socket S) (up : Delivers net) where
  open net use {incoming, outgoing, recv_some}

  request_step :
      (fuel : ℕ) (buf part : Bytes) (s s1 : S) (b : Bool)
      → length buf < 4095
      → net.recv (4095 - length buf) s ≡ (some part, s1)
      → has_blank (buf ++ part) ≡ b
      → request_loop net (suc fuel) buf s
        ≡ (if b then (buf ++ part, s1) else request_loop net fuel (buf ++ part) s1)
  unfolding request_loop
  request_step fuel buf part s s1 b room got test =
      if_true _ _ (lt→ltb (length buf) 4095 room)
      ∙ ap
          (λ r.
            at_part net buf r
              (λ buf' s'. if has_blank buf' then (buf', s') else request_loop net fuel buf' s'))
          got
      ∙ ap (λ t. if t then (buf ++ part, s1) else request_loop net fuel (buf ++ part) s1) test

  request_loop-whole :
      (fuel : ℕ) (buf request : Bytes) (s : S)
      → IsRequest request
      → request ≡ buf ++ incoming s
      → 0 < length (incoming s)
      → length (incoming s) < fuel
      → (s' : S) × (request_loop net fuel buf s ≡ (request, s'))
        × (incoming s' ≡ [])
        × (outgoing s' ≡ outgoing s)
  request_loop-whole zero buf request s r e left f = absurd (omega arith)
  request_loop-whole (suc fuel) buf request s r e left f =
      let room : length buf < 4095 =
        omega (arith, ap length e, length-append buf (incoming s), r.fits) in
      let (part, s1, got) = up (4095 - length buf) s (omega arith) left in
      let (pos, fits, stream, quiet) = recv_some _ s s1 part (omega arith) got in
      let e1 : request ≡ (buf ++ part) ++ incoming s1 =
        e ∙ ap (◌++◌ buf) stream ∙ sym (append_assoc buf part (incoming s1)) in
      let shorter : length (incoming s1) < length (incoming s) =
        omega (arith, ap length stream, length-append part (incoming s1)) in
      elim (Bool-cases (ltb 0 (length (incoming s1)))) [
        | inl more ↦
            let some_left : 0 < length (incoming s1) = ground arith in
            let step =
              request_step fuel buf part s s1 false room got
                (part_lem request (buf ++ part) (incoming s1) r e1 some_left) in
            let (s', ran, empty, same) =
              request_loop-whole fuel (buf ++ part) request s1 r e1 some_left (omega arith) in
            (s', step ∙ ran, empty, same ∙ quiet)
        | inr no_more ↦
            let empty = nil_of_length (incoming s1) (ground arith) in
            let all : request ≡ buf ++ part =
              e1 ∙ ap (◌++◌ (buf ++ part)) empty ∙ append-nil (buf ++ part) in
            (
              s1,
              request_step fuel buf part s s1 true room got (ap has_blank (sym all) ∙ r.ends)
                  ∙ ap (λ t. (t, s1)) (sym all),
              empty,
              quiet,
            )
      ]

  pub read_request-whole :
      (request : Bytes) (s : S)
      → IsRequest request
      → incoming s ≡ request
      → 0 < length request
      → (s' : S) × (read_request net s ≡ (request, s'))
        × (incoming s' ≡ [])
        × (outgoing s' ≡ outgoing s)
  unfolding read_request
  read_request-whole request s r e some_text =
      request_loop-whole 4096 [] request s r (sym e) (omega (arith, ap length e))
        (omega (arith, ap length e, r.fits))
