-- ===== src/WebIf/Http/Answers.antt =====
-- What a new connection is answered, and what becomes of its descriptor.
use accel_observer.Prelude.{
  ℕ, ◌<◌, ◌≡◌, refl, sym, ap, ap₂, ◌∙◌, subst, Bool, true, false, [], ◌∷◌, ◌++◌, append_assoc,
  append-nil, arith, ◌==◌, if◌then◌else◌, if_true, if_false, length, Bytes, codes,
}
use accel_observer.Net.Stream.{Socket, Delivers, Accepts}
use accel_observer.WebIf.{ws_encode_frame}
use accel_observer.WebIf.Send.{send_raw, send_raw-message}
use accel_observer.WebIf.Hub.{
  closed, WebInterface, put, client_count, device_json, ws_send_one, register_fd, close_fd,
}
use accel_observer.WebIf.Messages.{json_answer, upgrade_answer}
use accel_observer.WebIf.Http.Words.{
  words, path_in, wants_upgrade, extract_path-words, asks_for_upgrade-wants_upgrade,
}
use accel_observer.WebIf.Http.Texts.{
  greeting, device_json_lem, status_object, http_body_lem, http_response_lem,
}
use accel_observer.WebSocket.Handshake.{compute_accept_key}
use accel_observer.WebIf.Http.{
  extract_path, ws_accept_key, http_body, http_response, find_header_value, upgrade_response,
  send_upgrade, do_ws_upgrade, asks_for_upgrade, do_http_response, greet, upgraded, with_request,
  open_client,
}
use accel_observer.WebIf.Http.Request.{IsRequest, read_request-whole}

put_self : {S : Type 0} (fd : ℕ) (s : S) (wires : ℕ → S) → put fd s wires fd ≡ s
put_self fd s wires = let self : (fd == fd) ≡ true = ground arith in if_true s (wires fd) self

put_twice :
    {S : Type 0} (fd n : ℕ) (s s' : S) (wires : ℕ → S)
    → (n == fd) ≡ false
    → put fd s' (put fd s wires) n ≡ wires n
put_twice fd n s s' wires h = if_false s' _ h ∙ if_false s (wires n) h

module _ {S D : Type 0} (net : Socket S) where
  open net use {outgoing}

  -- The connection has been sent `bytes`; its descriptor is registered, or closed, and the others are as
  -- they were.
  pub record Outcome (fd : ℕ) (joins : Bool) (bytes : Bytes) (w : WebInterface S D)
      (r : Bool × WebInterface S D) : Type 0 where
    pub result : r.0 ≡ joins
    pub fds : r.1.client_fds ≡ (if joins then w.client_fds ++ fd ∷ [] else w.client_fds)
    pub log : r.1.calls ≡ (if joins then w.calls else w.calls ++ closed fd ∷ [])
    pub wire : outgoing (r.1.wires fd) ≡ outgoing (w.wires fd) ++ bytes
    pub others : (n : ℕ) → (n == fd) ≡ false → r.1.wires n ≡ w.wires n

  closes_with :
      (fd : ℕ) (bytes : Bytes) (s : S) (w : WebInterface S D)
      → outgoing s ≡ outgoing (w.wires fd) ++ bytes
      → Outcome fd false bytes w (false, close_fd fd (record w { wires = put fd s w.wires }))
  closes_with fd bytes s w e = record {
    result = refl;
    fds = refl;
    log = refl;
    wire = ap outgoing (put_self fd s w.wires) ∙ e;
    others = λ n h. if_false s (w.wires n) h;
  }

  either_outcome :
      (fd : ℕ) (w : WebInterface S D) (b : Bool) (x y : Bool × Bytes)
      (p q : Bool × WebInterface S D)
      → Outcome fd x.0 x.1 w p
      → Outcome fd y.0 y.1 w q
      → Outcome fd (if b then x else y).0 (if b then x else y).1 w (if b then p else q)
  either_outcome fd w true x y p q o1 o2 = o1
  either_outcome fd w false x y p q o1 o2 = o2

  module _ (host : Bytes) (port : ℕ) (show_fixed : ℕ → D → Bytes) where
    -- Whether the descriptor is to be registered, and what the connection is to be sent: by the key, and by the
    -- request. The accept key is the one that the WebSocket server of the repository computes.
    abbrev pub for_key : Bytes → WebInterface S D → Bool × Bytes
    for_key [] w = (false, [])
    for_key (k ∷ ks) w = (
      true,
      upgrade_answer (compute_accept_key (k ∷ ks))
          ++ greeting show_fixed w.device_model w.device_range_g,
    )

    abbrev by_words : Bool → Bytes → Bytes → WebInterface S D → Bool × Bytes
    by_words upgrade path request w =
        if upgrade
        then for_key (find_header_value request (codes "Sec-WebSocket-Key: ")) w
        else (false, json_answer (status_object host port path (length w.client_fds)))

    abbrev pub answer_to : Bytes → WebInterface S D → Bool × Bytes
    answer_to request w = by_words (wants_upgrade request) (path_in (words request)) request w

    answer_to_lem :
        (request : Bytes) (w : WebInterface S D)
        → by_words (asks_for_upgrade request) (extract_path request) request w ≡ answer_to request w
    answer_to_lem request w =
        ap₂ (λ upgrade path. by_words upgrade path request w)
          (asks_for_upgrade-wants_upgrade request) (extract_path-words request)

    same_bytes :
        {fd : ℕ} {joins : Bool} {bytes bytes' : Bytes} {w : WebInterface S D}
        {r : Bool × WebInterface S D}
        → bytes ≡ bytes'
        → Outcome fd joins bytes w r
        → Outcome fd joins bytes' w r
    same_bytes {fd} {joins} {bytes} {bytes'} {w} {r} e o = subst (λ b. Outcome fd joins b w r) e o

    module _ (takes : Accepts net) where
      joins_with :
          (fd : ℕ) (bytes : Bytes) (s : S) (w : WebInterface S D) (model : Bytes)
          → outgoing s ≡ outgoing (w.wires fd) ++ bytes
          → Outcome fd true (bytes ++ greeting show_fixed model w.device_range_g) w (
            true,
            register_fd fd
                (greet net host port show_fixed fd model (record w { wires = put fd s w.wires })),
          )
      unfolding register_fd ws_send_one
      joins_with fd bytes s w [] e = record {
        result = refl;
        fds = refl;
        log = refl;
        wire =
            ap outgoing (put_self fd s w.wires)
            ∙ e
            ∙ ap (◌++◌ (outgoing (w.wires fd))) (sym (append-nil bytes));
        others = λ n h. if_false s (w.wires n) h;
      }
      joins_with fd bytes s w (c ∷ cs) e =
          let frame = ws_encode_frame (device_json show_fixed (c ∷ cs) w.device_range_g) in
          let (s', ran, sent, quiet) = send_raw-message net takes frame s in
          record {
            result = refl;
            fds = refl;
            log = refl;
            wire =
                ap outgoing (put_self fd _ (put fd s w.wires))
                ∙ ap (λ u. outgoing (send_raw net frame u).1) (put_self fd s w.wires)
                ∙ ap (λ r. outgoing r.1) ran
                ∙ sent
                ∙ ap (λ o. o ++ frame) e
                ∙ append_assoc (outgoing (w.wires fd)) bytes frame
                ∙ ap (λ t. outgoing (w.wires fd) ++ (bytes ++ ws_encode_frame t))
                    (device_json_lem show_fixed (c ∷ cs) w.device_range_g);
            others = λ n h. put_twice fd n s _ w.wires h;
          }

      key_outcome :
          (fd : ℕ) (key : Bytes) (s : S) (w : WebInterface S D)
          → outgoing s ≡ outgoing (w.wires fd)
          → Outcome fd
              (for_key key w).0
              (for_key key w).1
              w
              (upgraded net host port show_fixed fd (send_upgrade net key s) w)
      unfolding upgrade_response ws_accept_key compute_accept_key
      key_outcome fd [] s w e = closes_with fd [] s w (e ∙ sym (append-nil (outgoing (w.wires fd))))
      key_outcome fd (k ∷ ks) s w e =
          let (s', ran, sent, quiet) = send_raw-message net takes (upgrade_response (k ∷ ks)) s in
          subst
            (λ r.
              Outcome fd true (for_key (k ∷ ks) w).1 w (upgraded net host port show_fixed fd r w))
            (sym ran)
            (joins_with fd (upgrade_response (k ∷ ks)) s' w w.device_model
              (sent ∙ ap (λ o. o ++ upgrade_response (k ∷ ks)) e))

      request_outcome :
          (fd c : ℕ) (cs : Bytes) (s : S) (w : WebInterface S D)
          → outgoing s ≡ outgoing (w.wires fd)
          → Outcome fd
              (by_words (asks_for_upgrade (c ∷ cs)) (extract_path (c ∷ cs)) (c ∷ cs) w).0
              (by_words (asks_for_upgrade (c ∷ cs)) (extract_path (c ∷ cs)) (c ∷ cs) w).1
              w
              (with_request net host port show_fixed fd (c ∷ cs, s) w)
      unfolding do_ws_upgrade do_http_response client_count
      request_outcome fd c cs s w e =
          let text = http_response (http_body host port (client_count w) (extract_path (c ∷ cs))) in
          let (s', ran, sent, quiet) = send_raw-message net takes text s in
          either_outcome fd w (asks_for_upgrade (c ∷ cs)) _ _ _ _
            (key_outcome fd (find_header_value (c ∷ cs) (codes "Sec-WebSocket-Key: ")) s w e)
            (same_bytes
              (http_response_lem _
                ∙ ap json_answer (http_body_lem host port (extract_path (c ∷ cs)) (client_count w)))
              (subst
                (λ r.
                  Outcome fd false text w
                    (false, close_fd fd (record w { wires = put fd r.1 w.wires })))
                (sym ran) (closes_with fd text s' w (sent ∙ ap (λ o. o ++ text) e))))

      -- While the connection is up and takes what is sent, a new connection that has sent a request with at
      -- most 4095 bytes, which ends with its first blank line, however it is cut, is answered and its
      -- descriptor kept by what the request says. It asks for an upgrade if "Upgrade: websocket" or
      -- "Upgrade: WebSocket" stands in it; its path is the second of three words or more, and "/" if it
      -- has fewer; its key is what `find_header_value` reads. A request that asks for no upgrade gets the
      -- HTTP answer that `json_answer` writes out, which gives the length of its body, and the body is the
      -- JSON object that `status_object` writes out for the path; the descriptor is closed. An upgrade
      -- with a key gets the answer that `upgrade_answer` writes out, with the accept key of that key, and
      -- the message about the device if one is set, and the descriptor is registered; one without a key
      -- gets nothing and the descriptor is closed. No other connection is touched.
      pub open_client-Outcome :
          Delivers net
          → (fd : ℕ) (request : Bytes) (w : WebInterface S D) → IsRequest request
          → net.incoming (w.wires fd) ≡ request
          → 0 < length request
          → Outcome fd
              (answer_to request w).0
              (answer_to request w).1
              w
              (open_client net host port show_fixed fd w)
      unfolding open_client
      open_client-Outcome up fd [] w r e some_text = absurd (omega arith)
      open_client-Outcome up fd (c ∷ cs) w r e some_text =
          let (s, ran, empty, quiet) =
            read_request-whole net up (c ∷ cs) (w.wires fd) r e some_text in
          subst
            (λ t.
              Outcome fd (answer_to (c ∷ cs) w).0 (answer_to (c ∷ cs) w).1 w
                (with_request net host port show_fixed fd t w))
            (sym ran)
            (subst
              (λ a. Outcome fd a.0 a.1 w (with_request net host port show_fixed fd (c ∷ cs, s) w))
              (answer_to_lem (c ∷ cs) w) (request_outcome fd c cs s w quiet))
