-- ===== src/Mqtt/Subscriber/Loop.antt =====
-- What reaches the server over a run of the library's loop, and what is asked of the library.
use accel_observer.Prelude.{
  ℕ, ◌≡◌, refl, sym, ap, ap₂, ◌∙◌, subst, Bool, true, false, List, [], ◌∷◌, ◌++◌, Option, none,
  some, if◌then◌else◌, if_false, ◌==◌, arith, Bool-cases, if_cases, inl, inr, Bytes, length, take,
}
use accel_observer.Prelude.Int.{ℤ, pos, negsuc, is_int, in_range}
use accel_observer.Mqtt.Subscriber.{
  SubCall, new, will_set, reconnect_delay_set, subscribe, MqttWill, MqttSubscriber, validate_qos,
  or_null, user_calls, will_calls, init_mosquitto, subscriber, set_callback, on_connect,
  on_disconnect, Message, text_of, if_callback, on_message, Event, connacks, disconnects, delivers,
  with_text, run_loop,
}

-- the messages as their texts, where there is one
abbrev pub message_text : Option Message → Option Bytes
message_text none = none
message_text (some msg) = text_of msg.payloadlen msg.payload

abbrev pub texts_of : List Event → List Bytes
texts_of [] = []
texts_of (delivers msg ∷ es) = with_text (message_text msg) (texts_of es)
texts_of (_ ∷ es) = texts_of es

-- one subscription for each connection that the broker accepts
abbrev pub if_accepted : Bool → SubCall → List SubCall → List SubCall
if_accepted true call calls = call ∷ calls
if_accepted false call calls = calls

abbrev pub subscriptions : Bytes → ℤ → List Event → List SubCall
subscriptions topic qos [] = []
subscriptions topic qos (connacks rc ∷ es) =
    if_accepted (is_int 0 rc) (subscribe topic qos) (subscriptions topic qos es)
subscriptions topic qos (_ ∷ es) = subscriptions topic qos es

-- whether the last of the connections is up
abbrev pub link_after : Bool → List Event → Bool
link_after up [] = up
link_after up (connacks rc ∷ es) = link_after (if is_int 0 rc then true else up) es
link_after up (disconnects ∷ es) = link_after false es
link_after up (delivers msg ∷ es) = link_after up es

pub run_loop-texts_of :
    (es : List Event) (s : MqttSubscriber)
    → s.has_callback ≡ true
    → let (texts, calls, last) = run_loop es s in
      (texts ≡ texts_of es)
      × (calls ≡ subscriptions s.topic s.qos es)
      × (last.connected ≡ link_after s.connected es)
unfolding run_loop on_connect on_disconnect on_message
run_loop-texts_of [] s h = (refl, refl, refl)
run_loop-texts_of (disconnects ∷ es) s h = run_loop-texts_of es (record s { connected = false }) h
run_loop-texts_of (delivers none ∷ es) s h = run_loop-texts_of es s h
run_loop-texts_of (delivers (some msg) ∷ es) s h =
    let (texts, calls, last) = run_loop-texts_of es s h in
    (
      ap (λ b. with_text (if_callback b (text_of msg.payloadlen msg.payload)) (run_loop es s).0) h
          ∙ ap (with_text (text_of msg.payloadlen msg.payload)) texts,
      calls,
      last,
    )
run_loop-texts_of (connacks rc ∷ es) s h = elim (Bool-cases (is_int 0 rc)) [
  | inl e ↦
      let ih = run_loop-texts_of es (record s { connected = true }) h in
      rw e (ih.0, ap (◌∷◌ (subscribe s.topic s.qos)) ih.1, ih.2)
  | inr e ↦ let ih = run_loop-texts_of es s h in rw e ih
]

-- What the broker and the network do, and what the library gives for it. A message that is carried is a
-- text of one byte at least, in memory that may go on behind it; the other messages carry none.
pub data Incoming : Type 0 where
  connack : ℤ → Incoming
  lost : Incoming
  carried : ℕ → Bytes → Bytes → Incoming
  no_message : Incoming
  no_payload : ℤ → Incoming
  no_bytes : Bytes → Incoming
  negative_length : ℕ → Bytes → Incoming

abbrev pub given : Incoming → Event
given (connack rc) = connacks rc
given lost = disconnects
given (carried c cs more) =
    delivers (some (record { payload = some (c ∷ cs ++ more); payloadlen = pos (length (c ∷ cs)) }))
given no_message = delivers none
given (no_payload len) = delivers (some (record { payload = none; payloadlen = len }))
given (no_bytes memory) = delivers (some (record { payload = some memory; payloadlen = pos 0 }))
given (negative_length n memory) =
    delivers (some (record { payload = some memory; payloadlen = negsuc n }))

abbrev pub all_given : List Incoming → List Event
all_given [] = []
all_given (i ∷ is) = given i ∷ all_given is

-- the texts that are carried, in order
abbrev pub carried_texts : List Incoming → List Bytes
carried_texts [] = []
carried_texts (carried c cs more ∷ is) = (c ∷ cs) ∷ carried_texts is
carried_texts (_ ∷ is) = carried_texts is

take-length : (text more : Bytes) → take (length text) (text ++ more) ≡ text
take-length [] more = refl
take-length (c ∷ cs) more = ap (◌∷◌ c) (take-length cs more)

texts_of-all_given : (is : List Incoming) → texts_of (all_given is) ≡ carried_texts is
texts_of-all_given [] = refl
texts_of-all_given (connack rc ∷ is) = texts_of-all_given is
texts_of-all_given (lost ∷ is) = texts_of-all_given is
texts_of-all_given (carried c cs more ∷ is) =
    let some_bytes : (length (c ∷ cs) == 0) ≡ false = ground arith in
    ap (λ text. with_text text (texts_of (all_given is)))
      (if_false none (some (take (length (c ∷ cs)) (c ∷ cs ++ more))) some_bytes)
    ∙ ap₂ ◌∷◌ (take-length (c ∷ cs) more) (texts_of-all_given is)
texts_of-all_given (no_message ∷ is) = texts_of-all_given is
texts_of-all_given (no_payload len ∷ is) = texts_of-all_given is
texts_of-all_given (no_bytes memory ∷ is) = texts_of-all_given is
texts_of-all_given (negative_length n memory ∷ is) = texts_of-all_given is

-- Once a callback is set, a run of the library's loop hands the callback exactly the texts that the
-- messages carry, whole and in order, and nothing for a null message, a null payload or a length of 0
-- or less; it subscribes again, with the topic and the QoS of the subscriber, after each CONNACK that
-- accepts, and makes no other call; and `connected_` is set exactly if the last connection that the
-- broker accepted has not been lost.
pub run_loop-texts :
    (is : List Incoming) (s : MqttSubscriber)
    → s.has_callback ≡ true
    → let (texts, calls, last) = run_loop (all_given is) s in
      (texts ≡ carried_texts is)
      × (calls ≡ subscriptions s.topic s.qos (all_given is))
      × (last.connected ≡ link_after s.connected (all_given is))
run_loop-texts is s h =
    let (texts, calls, last) = run_loop-texts_of (all_given is) s h in
    (texts ∙ texts_of-all_given is, calls, last)

-- the QoS in the calls that have one is from 0 to 2
abbrev pub QosOk : SubCall → Type 0
QosOk (subscribe topic qos) = in_range 2 qos ≡ true
QosOk (will_set topic len payload qos retain) = in_range 2 qos ≡ true
QosOk _ = Unit

abbrev pub AllQosOk : List SubCall → Type 0
AllQosOk [] = Unit
AllQosOk (call ∷ calls) = QosOk call × AllQosOk calls

AllQosOk-append : (xs ys : List SubCall) → AllQosOk xs → AllQosOk ys → AllQosOk (xs ++ ys)
AllQosOk-append [] ys h k = k
AllQosOk-append (x ∷ xs) ys h k = (h.0, AllQosOk-append xs ys h.1 k)

validate_qos-in_range : (qos : ℤ) → in_range 2 (validate_qos qos) ≡ true
unfolding validate_qos
validate_qos-in_range qos =
    if_cases (λ q. in_range 2 q ≡ true) (in_range 2 qos) qos (pos 0) (λ e. e) (λ e. refl)

user_calls-AllQosOk : (username password : Bytes) → AllQosOk (user_calls username password)
unfolding user_calls
user_calls-AllQosOk [] password = tt
user_calls-AllQosOk (c ∷ cs) password = (tt, tt)

will_calls-AllQosOk : (topic : Bytes) (will : MqttWill) → AllQosOk (will_calls topic will)
unfolding will_calls
will_calls-AllQosOk [] will = tt
will_calls-AllQosOk (c ∷ cs) will = (validate_qos-in_range will.qos, tt)

subscriptions-AllQosOk :
    (topic : Bytes) (qos : ℤ) (es : List Event)
    → in_range 2 qos ≡ true
    → AllQosOk (subscriptions topic qos es)
subscriptions-AllQosOk topic qos [] h = tt
subscriptions-AllQosOk topic qos (disconnects ∷ es) h = subscriptions-AllQosOk topic qos es h
subscriptions-AllQosOk topic qos (delivers msg ∷ es) h = subscriptions-AllQosOk topic qos es h
subscriptions-AllQosOk topic qos (connacks rc ∷ es) h = elim (Bool-cases (is_int 0 rc)) [
  | inl e ↦ rw e (h, subscriptions-AllQosOk topic qos es h)
  | inr e ↦ rw e (subscriptions-AllQosOk topic qos es h)
]

-- Whatever QoS values the configuration gives, a subscriber that is constructed hands the library only
-- values from 0 to 2: for the last will, and for every subscription of any run of the loop after the
-- callback is set.
pub subscriber-AllQosOk :
    (client_id topic : Bytes) (qos : ℤ) (username password : Bytes) (will : MqttWill)
    (keepalive : ℤ) (es : List Event) (s : MqttSubscriber) (calls : List SubCall)
    → subscriber client_id topic qos username password will keepalive true ≡ some (s, calls)
    → AllQosOk calls × AllQosOk (run_loop es (set_callback s)).1
unfolding subscriber init_mosquitto set_callback
subscriber-AllQosOk client_id topic qos username password will keepalive es s calls e =
    let made : List SubCall =
      new (or_null client_id)
      ∷ (user_calls username password
          ++ (will_calls will.topic will ++ reconnect_delay_set 1 30 ∷ [])) in
    let same : made ≡ calls = cc in
    let kept : validate_qos qos ≡ s.qos = cc in
    let run = (run_loop-texts_of es (record s { has_callback = true }) refl).1 in
    (
      subst AllQosOk same (
        tt,
        AllQosOk-append (user_calls username password) _ (user_calls-AllQosOk username password) (
            AllQosOk-append (will_calls will.topic will) _ (will_calls-AllQosOk will.topic will)
              (tt, tt)),
      ),
      subst AllQosOk (sym run) (
          subscriptions-AllQosOk s.topic s.qos es
            (ap (in_range 2) (sym kept) ∙ validate_qos-in_range qos)),
    )
