-- ===== src/WebIf/Messages.antt =====
-- server/src/webif/web_interface.cpp: the messages for browsers, by the grammars of JSON and HTTP.
use accel_observer.Prelude.{List, [], ◌∷◌, ◌++◌, length, Bytes, codes}
use accel_observer.Prelude.Text.{show_decimal}

-- a JSON object, given by the names of its members and their values as texts
abbrev pub member : Bytes × Bytes → Bytes
member (name, value) = codes "\"" ++ (name ++ (codes "\":" ++ value))

abbrev pub more_members : List (Bytes × Bytes) → Bytes
more_members [] = codes "}"
more_members (m ∷ ms) = codes "," ++ (member m ++ more_members ms)

abbrev pub object : List (Bytes × Bytes) → Bytes
object [] = codes "{}"
object (m ∷ ms) = codes "{" ++ (member m ++ more_members ms)

-- a JSON string with nothing to escape
abbrev pub in_quotes : Bytes → Bytes
in_quotes text = codes "\"" ++ (text ++ codes "\"")

-- an HTTP answer: the status line, the header lines, the blank line and the body
abbrev pub headed : List (Bytes × Bytes) → Bytes → Bytes
headed [] body = codes "\r\n" ++ body
headed ((name, value) ∷ headers) body =
    name ++ (codes ": " ++ (value ++ (codes "\r\n" ++ headed headers body)))

abbrev pub http_message : Bytes → List (Bytes × Bytes) → Bytes → Bytes
http_message status headers body =
    codes "HTTP/1.1 " ++ (status ++ (codes "\r\n" ++ headed headers body))

-- JSON, with its length
abbrev pub json_answer : Bytes → Bytes
json_answer body =
    http_message (codes "200 OK")
      ((codes "Content-Type", codes "application/json")
        ∷ (codes "Content-Length", show_decimal (length body))
        ∷ (codes "Access-Control-Allow-Origin", codes "*")
        ∷ (codes "Access-Control-Allow-Methods", codes "GET")
        ∷ (codes "Connection", codes "close")
        ∷ [])
      body

-- the upgrade to a WebSocket, with the accept key
abbrev pub upgrade_answer : Bytes → Bytes
upgrade_answer accept_key =
    http_message (codes "101 Switching Protocols")
      ((codes "Upgrade", codes "websocket")
        ∷ (codes "Connection", codes "Upgrade")
        ∷ (codes "Sec-WebSocket-Accept", accept_key)
        ∷ [])
      []
