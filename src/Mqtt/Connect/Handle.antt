-- ===== src/Mqtt/Connect/Handle.antt =====
-- The library's client through `mqtt_connect`: created once, its thread stopped before it is destroyed,
-- and destroyed on every failure.
use accel_observer.Prelude.{
  ℕ, ◌≡◌, refl, ap, ◌∙◌, Bool, true, false, not, List, [], ◌∷◌, ◌++◌, Option, none, some, arith,
  ◌==◌, if◌then◌else◌, Option-cases, inl, inr, Bytes, if_either, subst,
}
use accel_observer.Mqtt.Client.{MqttError, ok, MqttClient, fresh_client, MosqCode, success}
use accel_observer.Mqtt.Connect.{
  MqttConfig, TlsConfig, WillConfig, Call, new, loop_start, loop_stop, disconnect, destroy, Answers,
  Round, Part, ◌>>◌, authenticate, set_tls, set_will, start_session, set_up, after_wait, Outcome,
  finish, waited, then_wait, wait_connack, deadline_of, chosen_id, connect_host, mqtt_connect,
  mqtt_disconnect, mqtt_destroy,
}

-- no client of the library, a client, and a client whose thread runs
pub data Handle : Type 0 where
  absent present looping : Handle

-- What a call makes of it; `none` is a call that is not allowed there.
abbrev pub set_only : Handle → Option Handle
set_only present = some present
set_only _ = none

abbrev pub after_new : Bool → Handle → Option Handle
after_new created absent = some (if created then present else absent)
after_new created _ = none

abbrev pub after_start : MosqCode → Handle → Option Handle
after_start success present = some looping
after_start _ present = some present
after_start _ _ = none

abbrev pub after_call : Call → Handle → Option Handle
after_call (new cid clean created) h = after_new created h
after_call (loop_start rc) h = after_start rc h
after_call (loop_stop force) looping = some present
after_call (loop_stop force) _ = none
after_call disconnect absent = none
after_call disconnect h = some h
after_call destroy present = some absent
after_call destroy _ = none
after_call _ h = set_only h

abbrev pub then_calls : (Handle → Option Handle) → Option Handle → Option Handle
then_calls rest none = none
then_calls rest (some h) = rest h

abbrev pub after_calls : List Call → Handle → Option Handle
after_calls [] h = some h
after_calls (call ∷ calls) h = then_calls (after_calls calls) (after_call call h)

after_calls-append :
    (xs ys : List Call) (h : Handle)
    → after_calls (xs ++ ys) h ≡ then_calls (after_calls ys) (after_calls xs h)
after_calls-append [] ys h = refl
after_calls-append (call ∷ xs) ys h = elim (Option-cases (after_call call h)) [
  | inl e ↦ rw e refl
  | inr (h', e) ↦ rw e (after_calls-append xs ys h')
]

-- A part that succeeds leaves the handle as said; one that fails leaves a client without a thread.
abbrev left_at : MqttError → Handle → Handle
left_at ok h = h
left_at _ h = present

abbrev Leaves : Handle → Handle → Part → Type 0
Leaves h h' p = after_calls p.1 h ≡ some (left_at p.0 h')

>>-Leaves :
    (h h' h'' : Handle) (p q : Part) → Leaves h h' p → Leaves h' h'' q → Leaves h h'' (p >> q)
>>-Leaves h h' h'' (ok, calls) q e f =
    after_calls-append calls q.1 h ∙ ap (then_calls (after_calls q.1)) e ∙ f
>>-Leaves h h' h'' (_, calls) q e f = e

authenticate-Leaves :
    (cfg : MqttConfig) (ans : Answers) → Leaves present present (authenticate cfg ans)
unfolding authenticate
authenticate-Leaves cfg ans = ground arith

set_tls-Leaves : (t : TlsConfig) (ans : Answers) → Leaves present present (set_tls t ans)
unfolding set_tls
set_tls-Leaves t ans = ground arith

set_will-Leaves : (w : WillConfig) → Leaves present present (set_will w)
unfolding set_will
set_will-Leaves w = ground arith

start_session-Leaves :
    (cfg : MqttConfig) (host : Bytes) (ans : Answers)
    → Leaves present looping (start_session cfg host ans)
unfolding start_session
start_session-Leaves cfg host ans = ground arith

set_up-Leaves :
    (cfg : MqttConfig) (host cid : Bytes) (ans : Answers)
    → Leaves absent looping (set_up cfg host cid ans)
unfolding set_up
set_up-Leaves cfg host cid ans =
    let created : Part = (ok, new cid cfg.clean_session true ∷ []) in
    let p1 = authenticate cfg ans in
    let p2 = set_tls cfg.tls ans in
    let p3 = set_will cfg.will in
    let l1 = >>-Leaves absent present present created p1 refl (authenticate-Leaves cfg ans) in
    let l2 = >>-Leaves absent present present (created >> p1) p2 l1 (set_tls-Leaves cfg.tls ans) in
    let l3 =
      >>-Leaves absent present present (created >> p1 >> p2) p3 l2 (set_will-Leaves cfg.will) in
    >>-Leaves absent present looping (created >> p1 >> p2 >> p3) (start_session cfg host ans) l3
      (start_session-Leaves cfg host ans)

after_wait-Leaves : (r : Bool × MqttClient) → Leaves looping looping (after_wait r)
unfolding after_wait
after_wait-Leaves (received, c) = ground arith

-- The caller holds a client whose thread runs, or nothing.
abbrev pub held : Option MqttClient → Handle
held none = absent
held (some c) = looping

abbrev pub is_ok : MqttError → Bool
is_ok ok = true
is_ok _ = false

abbrev pub has_client : Option MqttClient → Bool
has_client none = false
has_client (some c) = true

-- An outcome without a leak: the calls are in order, and the caller holds a client exactly when the
-- code is `ok`.
abbrev pub IsKept : Outcome → Type 0
IsKept (code, client, calls) =
    (after_calls calls absent ≡ some (held client)) × (has_client client ≡ is_ok code)

abbrev IfKept : Option Outcome → Type 0
IfKept none = Unit
IfKept (some outcome) = IsKept outcome

finish-IsKept : (p : Part) (c : MqttClient) → Leaves absent looping p → IsKept (finish p c)
finish-IsKept (ok, calls) c e = (e, refl)
finish-IsKept (_, calls) c e = (
  after_calls-append calls (destroy ∷ []) absent ∙ ap (then_calls (after_calls (destroy ∷ []))) e,
  refl,
)

waited-IfKept :
    (p : Part) (o : Option (Bool × MqttClient)) → Leaves absent looping p → IfKept (waited p o)
waited-IfKept p none e = tt
waited-IfKept p (some (received, c)) e = finish-IsKept (p >> after_wait (received, c)) c (
    >>-Leaves absent looping looping p (after_wait (received, c)) e
      (after_wait-Leaves (received, c)))

then_wait-IfKept :
    (deadline : ℕ) (rounds : List Round) (p : Part)
    → Leaves absent looping p
    → IfKept (then_wait deadline rounds p)
then_wait-IfKept deadline rounds (ok, calls) e =
    waited-IfKept (ok, calls) (wait_connack deadline rounds fresh_client) e
then_wait-IfKept deadline rounds (code, calls) e = finish-IsKept (code, calls) fresh_client e

connect_host-IfKept :
    (cfg : MqttConfig) (ans : Answers) (rounds : List Round) (host : Option Bytes)
    → IfKept (connect_host cfg ans rounds host)
connect_host-IfKept cfg ans rounds none = (refl, refl)
connect_host-IfKept cfg ans rounds (some host) =
    if_either IfKept (cfg.port == 0) _ _ (refl, refl)
      (if_either IfKept (not ans.allocated) _ _ (refl, refl)
        (if_either IfKept (not ans.created) _ _ (refl, refl)
          (then_wait-IfKept (deadline_of cfg ans) rounds (set_up cfg host (chosen_id cfg ans) ans)
            (set_up-Leaves cfg host (chosen_id cfg ans) ans))))

-- Whatever the library, the broker and the clock do: when `mqtt_connect` returns, it has made its calls
-- of the library in an allowed order (the client is created once, set up before its thread starts,
-- and destroyed only once the thread is stopped); with the code `MQTT_OK` it returns a client, which
-- the library still has with its thread running, and with any other code it returns none and has
-- destroyed what it created.
pub mqtt_connect-IsKept :
    (cfg : MqttConfig) (ans : Answers) (rounds : List Round) (outcome : Outcome)
    → mqtt_connect cfg ans rounds ≡ some outcome
    → IsKept outcome
unfolding mqtt_connect
mqtt_connect-IsKept cfg ans rounds outcome e =
    subst IfKept e (connect_host-IfKept cfg ans rounds cfg.host)

-- After `mqtt_connect` has returned a client, `mqtt_disconnect` and `mqtt_destroy` both stop its thread
-- and destroy it: no call of the whole sequence is out of order, and nothing of the library is left.
pub mqtt_connect-release :
    (cfg : MqttConfig) (ans : Answers) (rounds : List Round) (c : MqttClient) (code : MqttError)
    (calls : List Call)
    → mqtt_connect cfg ans rounds ≡ some (code, some c, calls)
    → (after_calls (calls ++ mqtt_disconnect) absent ≡ some absent)
      × (after_calls (calls ++ mqtt_destroy) absent ≡ some absent)
unfolding mqtt_disconnect mqtt_destroy
mqtt_connect-release cfg ans rounds c code calls e =
    let (kept, _) = mqtt_connect-IsKept cfg ans rounds (code, some c, calls) e in
    (
      after_calls-append calls mqtt_disconnect absent
          ∙ ap (then_calls (after_calls mqtt_disconnect)) kept,
      after_calls-append calls mqtt_destroy absent
          ∙ ap (then_calls (after_calls mqtt_destroy)) kept,
    )
