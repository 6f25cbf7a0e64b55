-- ===== src/Stats/Latency.antt =====
-- The extreme latencies and the history of the statistics.
use accel_observer.Prelude.{
  ℕ, zero, suc, ◌+◌, ◌-◌, ◌≤◌, ◌≡◌, refl, sym, ap, ◌∙◌, true, false, List, [], ◌∷◌, ◌++◌, arith,
  ltb, ltb→lt, ltb_false→le, if◌then◌else◌, if_either, Bool-cases, inl, inr, length, length-append,
  drop, length-drop,
}
use accel_observer.Stats.{
  Doubles, StatsAnalyzer, init, record_packet, record_rate, record_latency, record_jitter,
  record_loss, push_history, reset,
}

-- the last `limit` elements
abbrev pub last_n : {A : Type 0} → ℕ → List A → List A
last_n limit xs = drop (length xs - limit) xs

drop-append :
    {A : Type 0} (k : ℕ) (xs ys : List A) → k ≤ length xs → drop k (xs ++ ys) ≡ drop k xs ++ ys
drop-append zero xs ys h = refl
drop-append (suc k) [] ys h = absurd (omega arith)
drop-append (suc k) (x ∷ xs) ys h = drop-append k xs ys (omega arith)

drop-drop : {A : Type 0} (k : ℕ) (xs : List A) → drop 1 (drop k xs) ≡ drop (suc k) xs
drop-drop zero xs = refl
drop-drop (suc k) [] = refl
drop-drop (suc k) (x ∷ xs) = drop-drop k xs

module _ {D : Type 0} (fp : Doubles D) where
  abbrev pub latency : ℕ → ℕ → D
  latency t ts = fp.sub (fp.of_u64 t) (fp.of_u64 ts)

  -- Resetting gives the state of a new analyzer with the same history size and report interval.
  pub reset-init : (a : StatsAnalyzer D) → reset fp a ≡ init fp a.history_size a.report_interval_ms
  unfolding reset init
  reset-init a = refl

  push_history-last_n :
      (limit : ℕ) (lat : D) (lats : List D)
      → push_history fp limit lat (last_n limit lats) ≡ last_n limit (lats ++ lat ∷ [])
  unfolding push_history
  push_history-last_n limit lat lats =
      let n = length lats in
      let back = last_n limit lats ++ lat ∷ [] in
      let grown : length (lats ++ lat ∷ []) ≡ n + 1 = length-append lats (lat ∷ []) in
      let size_of : length back ≡ (n - (n - limit)) + 1 =
        omega (arith, length-append (last_n limit lats) (lat ∷ []), length-drop (n - limit) lats) in
      let whole : drop (n - limit) (lats ++ lat ∷ []) ≡ back =
        drop-append (n - limit) lats (lat ∷ []) (omega arith) in
      elim (Bool-cases (ltb limit (length back))) [
        | inl e ↦
            let over = ltb→lt limit (length back) e in
            let more : suc (n - limit) ≡ length (lats ++ lat ∷ []) - limit = omega arith in
            ap (λ t. if t then drop 1 back else back) e
            ∙ ap (drop 1) (sym whole)
            ∙ drop-drop (n - limit) (lats ++ lat ∷ [])
            ∙ ap (λ k. drop k (lats ++ lat ∷ [])) more
        | inr e ↦
            let under = ltb_false→le limit (length back) e in
            let same : n - limit ≡ length (lats ++ lat ∷ []) - limit = omega arith in
            ap (λ t. if t then drop 1 back else back) e
            ∙ sym whole
            ∙ ap (λ k. drop k (lats ++ lat ∷ [])) same
      ]

  -- `<` on doubles, NaN included, is a strict order.
  pub record Strict : Type 0 where
    pub irrefl : (x : D) → fp.less x x ≡ false
    pub trans : (x y z : D) → fp.less x y ≡ true → fp.less y z ≡ true → fp.less x z ≡ true

  -- No latency of the list is below `lo`, and none is above `hi`.
  abbrev pub Within : D → D → List D → Type 0
  Within lo hi [] = Unit
  Within lo hi (l ∷ ls) = (fp.less l lo ≡ false) × (fp.less hi l ≡ false) × Within lo hi ls

  lower :
      (order : Strict) (x lo lat : D)
      → fp.less x lo ≡ false
      → fp.less x (if fp.less lat lo then lat else lo) ≡ false
  lower order x lo lat h = ground (arith, order.trans x lat lo)

  upper :
      (order : Strict) (x hi lat : D)
      → fp.less hi x ≡ false
      → fp.less (if fp.less hi lat then lat else hi) x ≡ false
  upper order x hi lat h = ground (arith, order.trans hi lat x)

  Within-widen :
      (order : Strict) (lo hi lat : D) (lats : List D)
      → Within lo hi lats
      → Within
          (if fp.less lat lo then lat else lo)
          (if fp.less hi lat then lat else hi)
          (lats ++ lat ∷ [])
  Within-widen order lo hi lat [] h =
      (ground (arith, order.irrefl lat), ground (arith, order.irrefl lat), tt)
  Within-widen order lo hi lat (x ∷ xs) (above, below, h) =
      (lower order x lo lat above, upper order x hi lat below, Within-widen order lo hi lat xs h)

  -- What the analyzer keeps of the latencies `lats`, oldest first: the last of them, up to the limit,
  -- and bounds that they are all within.
  pub record Tracks (lats : List D) (a : StatsAnalyzer D) : Type 0 where
    pub history_is : a.latency_history ≡ last_n a.history_size lats
    pub within : Within a.min_latency a.max_latency lats

  pub init-Tracks : (size interval : ℕ) → Tracks [] (init fp size interval)
  unfolding init
  init-Tracks size interval =
      let none_dropped : 0 - size ≡ 0 = omega arith in
      record { history_is = sym (ap (λ k. drop {A = D} k []) none_dropped); within = tt }

  rate-Tracks :
      (t : ℕ) (lats : List D) (a : StatsAnalyzer D)
      → Tracks lats a
      → Tracks lats (record_rate fp t a)
  unfolding record_rate
  rate-Tracks t lats a h =
      if_either (Tracks lats) _ _ _ (record { history_is = h.history_is; within = h.within })
        (record { history_is = h.history_is; within = h.within })

  latency-Tracks :
      (order : Strict) (seq : ℕ) (lat : D) (lats : List D) (a : StatsAnalyzer D)
      → Tracks lats a
      → Tracks
          (lats ++ lat ∷ [])
          (record_loss fp seq (record_latency fp lat (record_jitter fp lat a)))
  unfolding record_latency record_jitter record_loss
  latency-Tracks order seq lat lats a h = record {
    history_is =
        ap (push_history fp a.history_size lat) h.history_is
        ∙ push_history-last_n a.history_size lat lats;
    within = Within-widen order a.min_latency a.max_latency lat lats h.within;
  }

  -- If `<` is a strict order, recording a packet keeps the history equal to the last latencies, up to
  -- the limit, and no latency recorded so far is below the minimum or above the maximum.
  pub record_packet-Tracks :
      (order : Strict) (t ts seq : ℕ) (lats : List D) (a : StatsAnalyzer D)
      → Tracks lats a
      → Tracks (lats ++ latency t ts ∷ []) (record_packet fp t ts seq a)
  unfolding record_packet
  record_packet-Tracks order t ts seq lats a h =
      rate-Tracks t (lats ++ latency t ts ∷ [])
        (record_loss fp seq (record_latency fp (latency t ts) (record_jitter fp (latency t ts) a)))
        (latency-Tracks order seq (latency t ts) lats a h)
