-- ===== src/Settings/Numbers.antt =====
-- The options of the command line that take a number.
use accel_observer.Prelude.{
  ℕ, zero, suc, ◌^◌, ◌<◌, ◌≤◌, ◌≡◌, refl, ap, ◌∙◌, false, List, ◌∷◌, arith, Bytes, codes,
}
use accel_observer.Prelude.Text.{show_decimal}
use accel_observer.Prelude.Number.{long_value, ulong_value, read_number-show_decimal}
use accel_observer.Settings.{Config, Doubles}
use accel_observer.Settings.Arguments.{
  parse_port, parse_size, port_of, whole, number_or_old, set_buffer, parse_args,
}

pub parse_port-show_decimal : (n : ℕ) → n ≤ 65535 → parse_port (show_decimal n) ≡ n
unfolding parse_port long_value
parse_port-show_decimal n h =
    ap (whole (λ r. port_of (long_value r))) (read_number-show_decimal n) ∙ ground arith

pub parse_size-show_decimal : (n : ℕ) → n < 2 ^ 64 → parse_size (show_decimal n) ≡ n
unfolding parse_size ulong_value
parse_size-show_decimal n h = ap (whole ulong_value) (read_number-show_decimal n) ∙ ground arith

number_or_old-new : (old n : ℕ) → 0 < n → number_or_old old n ≡ n
number_or_old-new old zero h = absurd (omega arith)
number_or_old-new old (suc n) h = refl

set_buffer-new :
    {D : Type 0} (n : ℕ) (cfg : Config D)
    → 0 < n
    → set_buffer n cfg ≡ record cfg { buffer_capacity = n; auto_buffer = false }
set_buffer-new zero cfg h = absurd (omega arith)
set_buffer-new (suc n) cfg h = refl

-- The options with numbers read back what is printed in decimal: `--port` and `--webport` every number
-- from 1 to 65535, `--buf` and `--flush-ms` every positive number of 64 bits. Each replaces the
-- setting of before by exactly that number, changes nothing else (`--buf` also turns off the sizing by the
-- server), and leaves the arguments behind it to be parsed.
pub parse_args-numbers :
    {D : Type 0} (doubles : Doubles D) (p n : ℕ) (rest : List Bytes) (cfg : Config D)
    → 0 < p
    → p ≤ 65535
    → 0 < n
    → n < 2 ^ 64
    → (parse_args doubles (codes "--port" ∷ show_decimal p ∷ rest) cfg
        ≡ parse_args doubles rest (record cfg { port = p }))
      × (parse_args doubles (codes "--webport" ∷ show_decimal p ∷ rest) cfg
          ≡ parse_args doubles rest (record cfg { web_port = p }))
      × (parse_args doubles (codes "--flush-ms" ∷ show_decimal n ∷ rest) cfg
          ≡ parse_args doubles rest (record cfg { flush_interval_ms = n }))
      × (parse_args doubles (codes "--buf" ∷ show_decimal n ∷ rest) cfg
          ≡ parse_args doubles rest (record cfg { buffer_capacity = n; auto_buffer = false }))
unfolding parse_args
parse_args-numbers doubles p n rest cfg p0 p1 n0 n1 =
    let port = parse_port-show_decimal p p1 in
    let size = parse_size-show_decimal n n1 in
    (
      ap (λ v. parse_args doubles rest (record cfg { port = v }))
          (ap (number_or_old cfg.port) port ∙ number_or_old-new cfg.port p p0),
      ap (λ v. parse_args doubles rest (record cfg { web_port = v }))
          (ap (number_or_old cfg.web_port) port ∙ number_or_old-new cfg.web_port p p0),
      ap (λ v. parse_args doubles rest (record cfg { flush_interval_ms = v }))
          (ap (number_or_old cfg.flush_interval_ms) size
            ∙ number_or_old-new cfg.flush_interval_ms n n0),
      ap (parse_args doubles rest) (ap (λ v. set_buffer v cfg) size ∙ set_buffer-new n cfg n0),
    )
