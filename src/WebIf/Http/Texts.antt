-- ===== src/WebIf/Http/Texts.antt =====
-- What the texts for a new connection are meant to be.
use accel_observer.Prelude.{
  ℕ, ◌≡◌, sym, ap, [], ◌∷◌, ◌++◌, append_assoc, append-nil, if◌then◌else◌, take, Bytes, codes,
}
use accel_observer.Prelude.Text.{show_decimal, same_text}
use accel_observer.WebIf.{ws_encode_frame}
use accel_observer.WebIf.Hub.{device_json}
use accel_observer.WebIf.Http.{host_or_localhost, http_body, http_response}
use accel_observer.WebIf.Messages.{object, in_quotes, json_answer}

module _ {D : Type 0} (show_fixed : ℕ → D → Bytes) where
  -- the message about the device, cut at 127 bytes, and its frame if a device is set
  abbrev pub device_text : Bytes → D → Bytes
  device_text model range_g = take 127 (
      object (
        (codes "type", in_quotes (codes "device"))
        ∷ (codes "model", in_quotes model)
        ∷ (codes "range_g", show_fixed 1 range_g)
        ∷ []))

  abbrev pub greeting : Bytes → D → Bytes
  greeting [] range_g = []
  greeting (c ∷ cs) range_g = ws_encode_frame (device_text (c ∷ cs) range_g)

  pub device_json_lem :
      (model : Bytes) (range_g : D)
      → device_json show_fixed model range_g ≡ device_text model range_g
  unfolding device_json
  device_json_lem model range_g =
      ap (λ t. take 127 (codes "{\"type\":\"device\",\"model\":\"" ++ t))
        (sym (
          append_assoc model (codes "\"")
            (codes ",\"range_g\":" ++ (show_fixed 1 range_g ++ codes "}"))))

module _ (host : Bytes) (port : ℕ) where
  -- the status of the server, cut at 255 bytes
  abbrev pub status_object : Bytes → ℕ → Bytes
  status_object path clients =
      if same_text path (codes "/health")
      then object ((codes "status", in_quotes (codes "ok")) ∷ [])
      else take 255 (
          object (
            (codes "server", in_quotes (codes "data_subscriber"))
            ∷ (codes "version", in_quotes (codes "3"))
            ∷ (
              codes "ws",
              codes "\"ws://"
                  ++ (host_or_localhost host ++ (codes ":" ++ (show_decimal port ++ codes "/\""))),
            )
            ∷ (codes "clients", show_decimal clients)
            ∷ []))

  pub http_body_lem :
      (path : Bytes) (clients : ℕ) → http_body host port clients path ≡ status_object path clients
  unfolding http_body
  http_body_lem path clients =
      ap
        (λ t.
          if same_text path (codes "/health")
          then codes "{\"status\":\"ok\"}"
          else take 255
              (codes "{\"server\":\"data_subscriber\",\"version\":\"3\",\"ws\":\"ws://" ++ t))
        (simp append_assoc)

pub http_response_lem : (body : Bytes) → http_response body ≡ json_answer body
unfolding http_response
http_response_lem body = simp append-nil
