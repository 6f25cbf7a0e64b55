-- ===== src/WebIf/Http.antt =====
-- server/src/webif/web_interface.cpp: the request of a browser, and the first part of `handle_client`.
pub mod Request
pub mod Texts
pub mod Words
pub mod Answers
mod Tests
use accel_observer.Prelude.{
  ℕ, zero, suc, ◌+◌, ◌-◌, Bool, true, false, ◌||◌, List, [], ◌∷◌, ◌++◌, Option, none, some, ltb,
  ◌==◌, if◌then◌else◌, length, map, take, drop, Bytes, codes,
}
use accel_observer.Prelude.Text.{show_decimal, strip_prefix, same_text}
use accel_observer.Conf.Strings.{to_lower, split_at, before_first}
use accel_observer.Crypto.Base64.{base64_encode}
use accel_observer.Crypto.Sha1.{sha1_compute}
use accel_observer.Net.Stream.{Socket}
use accel_observer.Stats.Json.{joined}
use accel_observer.WebIf.Send.{is_ok, send_raw}
use accel_observer.WebIf.Hub.{
  WebInterface, put, client_count, device_json, ws_send_one, register_fd, close_fd,
}

-- the first place of a pattern; `none` is `npos`
abbrev pub further : Option ℕ → Option ℕ
further none = none
further (some n) = some (suc n)

abbrev pub at_front : Option Bytes → Option ℕ → Option ℕ
at_front none later = later
at_front (some rest) later = some 0

abbrev pub find_at : Bytes → Bytes → Option ℕ
find_at pattern [] = at_front (strip_prefix pattern []) none
find_at pattern (c ∷ cs) = at_front (strip_prefix pattern (c ∷ cs)) (further (find_at pattern cs))

abbrev pub is_there : Option ℕ → Bool
is_there none = false
is_there (some n) = true

-- `strstr(buf, "\r\n\r\n")`, on a C string
abbrev pub has_blank : Bytes → Bool
has_blank buf = is_there (find_at (codes "\r\n\r\n") (before_first (λ c. c == 0) buf))

abbrev pub second_space : Option (Bytes × Bytes) → Bytes
second_space none = codes "/"
second_space (some (path, rest)) = path

abbrev pub first_space : Option (Bytes × Bytes) → Bytes
first_space none = codes "/"
first_space (some (method, rest)) = second_space (split_at (λ c. c == b' ') rest)

unfoldable pub extract_path : Bytes → Bytes
extract_path request = first_space (split_at (λ c. c == b' ') request)

-- `body`, in `char buf[256]` but for the path `/health`
abbrev pub host_or_localhost : Bytes → Bytes
host_or_localhost [] = codes "localhost"
host_or_localhost (c ∷ cs) = c ∷ cs

unfoldable pub http_body : Bytes → ℕ → ℕ → Bytes → Bytes
http_body host port clients path =
    if same_text path (codes "/health")
    then codes "{\"status\":\"ok\"}"
    else take 255 (
        joined (
          codes "{\"server\":\"data_subscriber\",\"version\":\"3\",\"ws\":\"ws://"
          ∷ host_or_localhost host
          ∷ codes ":"
          ∷ show_decimal port
          ∷ codes "/\",\"clients\":"
          ∷ show_decimal clients
          ∷ codes "}"
          ∷ []))

unfoldable pub http_response : Bytes → Bytes
http_response body = joined (
    codes "HTTP/1.1 200 OK\r\nContent-Type: application/json\r\nContent-Length: "
    ∷ show_decimal (length body)
    ∷ codes "\r\nAccess-Control-Allow-Origin: *\r\nAccess-Control-Allow-Methods: GET\r\n"
    ∷ codes "Connection: close\r\n\r\n"
    ∷ body
    ∷ [])

-- `req.substr(0, req.find("\r\n\r\n") + 4)`, where `npos + 4` is 3
abbrev pub head_size : Option ℕ → ℕ
head_size none = 3
head_size (some n) = n + 4

abbrev pub lower : Bytes → Bytes
lower text = map to_lower text

abbrev pub is_padding : ℕ → Bool
is_padding c = (c == b' ') || (c == b'\r')

abbrev pub trim_front : Bytes → Bytes
trim_front [] = []
trim_front (c ∷ cs) = if is_padding c then trim_front cs else c ∷ cs

abbrev pub keep_front : ℕ → Bytes → Bytes
keep_front c [] = if is_padding c then [] else c ∷ []
keep_front c (d ∷ ds) = c ∷ d ∷ ds

abbrev pub trim_back : Bytes → Bytes
trim_back [] = []
trim_back (c ∷ cs) = keep_front c (trim_back cs)

abbrev pub up_to : Bytes → Option ℕ → Bytes
up_to rest none = []
up_to rest (some end_pos) = trim_back (trim_front (take end_pos rest))

abbrev pub value_at : Bytes → ℕ → Option ℕ → Bytes
value_at req size none = []
value_at req size (some pos) =
    let rest = drop (pos + size) req in up_to rest (find_at (codes "\r\n") rest)

abbrev pub or_lower : Option ℕ → Option ℕ → Option ℕ
or_lower none other = other
or_lower (some pos) other = some pos

unfoldable pub find_header_value : Bytes → Bytes → Bytes
find_header_value req canonical =
    let lower_req = lower (take (head_size (find_at (codes "\r\n\r\n") req)) req) in
    value_at req (length canonical)
      (or_lower (find_at canonical req) (find_at (lower canonical) lower_req))

unfoldable pub ws_accept_key : Bytes → Bytes
ws_accept_key client_key =
    base64_encode (sha1_compute (client_key ++ codes "258EAFA5-E914-47DA-95CA-C5AB0DC85B11"))

unfoldable pub upgrade_response : Bytes → Bytes
unfolding ws_accept_key
upgrade_response client_key = joined (
    codes "HTTP/1.1 101 Switching Protocols\r\nUpgrade: websocket\r\nConnection: Upgrade\r\n"
    ∷ codes "Sec-WebSocket-Accept: "
    ∷ ws_accept_key client_key
    ∷ codes "\r\n\r\n"
    ∷ [])

module _ {S : Type 0} (net : Socket S) where
  abbrev pub at_part : Bytes → Option Bytes × S → (Bytes → S → Bytes × S) → Bytes × S
  at_part buf (none, s) next = (buf, s)
  at_part buf (some part, s) next = next (buf ++ part) s

  -- `while (total < 4095)`; each round adds a byte at least
  unfoldable pub request_loop : ℕ → Bytes → S → Bytes × S
  request_loop zero buf s = (buf, s)
  request_loop (suc fuel) buf s =
      let after = at_part buf (net.recv (4095 - length buf) s) (λ buf' s'.
        let more = request_loop fuel buf' s' in if has_blank buf' then (buf', s') else more) in
      if ltb (length buf) 4095 then after else (buf, s)

  unfoldable pub read_request : S → Bytes × S
  unfolding request_loop
  read_request s = request_loop 4096 [] s

  abbrev pub send_upgrade : Bytes → S → Option (Unit {0}) × S
  send_upgrade [] s = (none, s)
  send_upgrade (k ∷ ks) s = send_raw net (upgrade_response (k ∷ ks)) s

  unfoldable pub do_ws_upgrade : Bytes → S → Option (Unit {0}) × S
  unfolding find_header_value upgrade_response
  do_ws_upgrade request s = send_upgrade (find_header_value request (codes "Sec-WebSocket-Key: ")) s

abbrev pub asks_for_upgrade : Bytes → Bool
asks_for_upgrade req =
    is_there (find_at (codes "Upgrade: websocket") req)
    || is_there (find_at (codes "Upgrade: WebSocket") req)

-- `host_` and `port_`, and the printing of doubles
module _ {S D : Type 0} (net : Socket S) (host : Bytes) (port : ℕ)
    (show_fixed : ℕ → D → Bytes) where
  unfoldable pub do_http_response : Bytes → ℕ → S → Option (Unit {0}) × S
  unfolding http_body http_response
  do_http_response path clients s =
      send_raw net (http_response (http_body host port clients path)) s

  abbrev pub greet : ℕ → Bytes → WebInterface S D → WebInterface S D
  greet fd [] w = w
  greet fd (c ∷ cs) w = ws_send_one net fd (device_json show_fixed (c ∷ cs) w.device_range_g) w

  -- The upgrade has been tried: the device is sent and the descriptor registered, or it is closed.
  abbrev pub upgraded : ℕ → Option (Unit {0}) × S → WebInterface S D → Bool × WebInterface S D
  upgraded fd (none, s) w = (false, close_fd fd (record w { wires = put fd s w.wires }))
  upgraded fd (some done, s) w =
      (true, register_fd fd (greet fd w.device_model (record w { wires = put fd s w.wires })))

  abbrev pub with_request : ℕ → Bytes × S → WebInterface S D → Bool × WebInterface S D
  with_request fd ([], s) w = (false, close_fd fd (record w { wires = put fd s w.wires }))
  with_request fd (c ∷ cs, s) w =
      if asks_for_upgrade (c ∷ cs) then upgraded fd (do_ws_upgrade net (c ∷ cs) s) w else (
        false,
        close_fd fd (record w {
          wires = put fd (do_http_response (extract_path (c ∷ cs)) (client_count w) s).1 w.wires;
        }),
      )

  -- `handle_client` up to its read loop; the result is whether it comes there.
  unfoldable pub open_client : ℕ → WebInterface S D → Bool × WebInterface S D
  unfolding read_request do_ws_upgrade do_http_response
  open_client fd w = with_request fd (read_request net (w.wires fd)) w
