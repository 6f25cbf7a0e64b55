-- ===== src/Pipeline/Accepts.antt =====
-- Every packet that passes the validator is counted once, and is kept or counted as dropped.
use accel_observer.Prelude.{
  ℕ, ◌+◌, ◌≤◌, ◌<◌, ◌^◌, ◌≡◌, refl, sym, ap, ap₂, ◌∙◌, subst, List, [], ◌∷◌, ◌++◌, arith, ltb,
  if◌then◌else◌, length, length-append,
}
use accel_observer.RingBuffer.{try_push}
use accel_observer.RingBuffer.Queue
use accel_observer.RingBuffer.Refine.{contents, length-gather, try_push_refines}
use accel_observer.RingBuffer.Inv.{IsValid, try_push-IsValid, pushed_tail}
use accel_observer.Storage.Packet.{DataPacket}
use accel_observer.Storage.{StorageManager, push}
use accel_observer.Stats.{Doubles}
use accel_observer.Stats.Loss.{packet_counts}
use accel_observer.Validator.{
  Reals, ParseResult, ok, invalid_format, missing_fields, out_of_range, parse,
}
use accel_observer.Pipeline.{Server, Call, on_parsed, callback, callbacks}

module _ {T : Type 0} where
  -- What a buffer of `capacity` items holds when packets come, one after the other: each goes behind
  -- the others while there is room, and is left out while there is none.
  abbrev pub held_after : ℕ → List T → List T → List T
  held_after capacity held [] = held
  held_after capacity held (p ∷ ps) =
      held_after capacity (if ltb (length held) capacity then held ++ p ∷ [] else held) ps

  held_after-append :
      (capacity : ℕ) (held ps qs : List T)
      → held_after capacity held (ps ++ qs) ≡ held_after capacity (held_after capacity held ps) qs
  held_after-append capacity held [] qs = refl
  held_after-append capacity held (p ∷ ps) qs =
      held_after-append capacity (if ltb (length held) capacity then held ++ p ∷ [] else held) ps qs

  queue_push :
      (capacity : ℕ) (p : T) (held : List T)
      → length held ≤ capacity
      → (Queue.push capacity p held).1 ≡ held_after capacity held (p ∷ [])
  unfolding Queue.push
  queue_push capacity p held fits = ground arith

module _ {T F : Type 0} where
  -- A push keeps the item, or counts it as dropped.
  push_accounts :
      (p : T) (m : StorageManager T F)
      → IsValid m.buffer
      → m.dropped_packets + 1 < 2 ^ 64
      → (push p m).1.dropped_packets + (push p m).1.buffer.count
        ≡ m.dropped_packets + m.buffer.count + 1
  unfolding push try_push
  push_accounts p m v room = ground (arith, pushed_tail v)

  push_holds :
      (fill p : T) (m : StorageManager T F)
      → IsValid m.buffer
      → contents fill (push p m).1.buffer
        ≡ held_after m.buffer.capacity (contents fill m.buffer) (p ∷ [])
  unfolding push
  push_holds fill p m v =
      let size =
        length-gather fill m.buffer.buffer m.buffer.capacity m.buffer.head 0 m.buffer.count in
      ap (λ r. r.1) (try_push_refines fill p m.buffer v)
      ∙ queue_push m.buffer.capacity p (contents fill m.buffer) (omega (arith, v.fits))

  push_room : (p : T) (m : StorageManager T F) → (push p m).1.buffer.capacity ≡ m.buffer.capacity
  unfolding push try_push
  push_room p m = ground arith

  push-IsValid : (p : T) (m : StorageManager T F) → IsValid m.buffer → IsValid (push p m).1.buffer
  unfolding push
  push-IsValid p m v = try_push-IsValid p v

module _ {D : Type 0} where
  abbrev if_ok : ParseResult → DataPacket D → List (DataPacket D)
  if_ok ok pkt = pkt ∷ []
  if_ok invalid_format pkt = []
  if_ok missing_fields pkt = []
  if_ok out_of_range pkt = []

  -- the packets that the validator accepts, from the counter on
  unfoldable pub valid_packets : Reals D → List (Call D) → ℕ → List (DataPacket D)
  valid_packets reals [] counter = []
  valid_packets reals (call ∷ calls) counter =
      let (parsed, counter') = parse reals call.cfg call.payload counter in
      if_ok parsed.result parsed.packet ++ valid_packets reals calls counter'

  few_ok : (r : ParseResult) (pkt : DataPacket D) → length (if_ok r pkt) ≤ 1
  few_ok ok pkt = omega arith
  few_ok invalid_format pkt = omega arith
  few_ok missing_fields pkt = omega arith
  few_ok out_of_range pkt = omega arith

module _ {D F : Type 0} (fp : Doubles D) (reals : Reals D) (fill : DataPacket D) where
  -- Between two states, these packets have come, and have been counted and stored.
  pub record Accounts (s s' : Server D F) (packets : List (DataPacket D)) : Type 0 where
    pub valid : IsValid s'.storage.buffer
    pub room_is : s'.storage.buffer.capacity ≡ s.storage.buffer.capacity
    pub received_is : s'.stats.packets_received ≡ s.stats.packets_received + length packets
    pub holds :
        contents fill s'.storage.buffer
        ≡ held_after s.storage.buffer.capacity (contents fill s.storage.buffer) packets
    pub stored_is :
        s'.storage.dropped_packets + s'.storage.buffer.count
        ≡ s.storage.dropped_packets + s.storage.buffer.count + length packets

  none_came : (s : Server D F) → IsValid s.storage.buffer → Accounts s s []
  none_came s v = record {
    valid = v;
    room_is = refl;
    received_is = omega arith;
    holds = refl;
    stored_is = omega arith;
  }

  Accounts-append :
      (s t u : Server D F) (ps qs : List (DataPacket D))
      → Accounts s t ps
      → Accounts t u qs
      → Accounts s u (ps ++ qs)
  Accounts-append s t u ps qs a b = record {
    valid = b.valid;
    room_is = b.room_is ∙ a.room_is;
    received_is = omega (arith, a.received_is, b.received_is, length-append ps qs);
    holds =
        b.holds
        ∙ ap₂ (λ c held. held_after c held qs) a.room_is a.holds
        ∙ sym (held_after-append s.storage.buffer.capacity (contents fill s.storage.buffer) ps qs);
    stored_is = omega (arith, a.stored_is, b.stored_is, length-append ps qs);
  }

  one_call :
      (recv_ms : ℕ) (r : ParseResult) (pkt : DataPacket D) (s : Server D F)
      → IsValid s.storage.buffer
      → s.stats.packets_received + 1 < 2 ^ 64
      → s.storage.dropped_packets + 1 < 2 ^ 64
      → Accounts s (on_parsed fp reals recv_ms r pkt s) (if_ok r pkt)
  unfolding on_parsed
  one_call recv_ms ok pkt s v room1 room2 =
      let (got, lost, last) = packet_counts fp recv_ms pkt.timestamp_ms pkt.sequence_id s.stats in
      record {
        valid = push-IsValid pkt s.storage v;
        room_is = push_room pkt s.storage;
        received_is = got ∙ omega arith;
        holds = push_holds fill pkt s.storage v;
        stored_is = push_accounts pkt s.storage v room2 ∙ omega arith;
      }
  one_call recv_ms invalid_format pkt s v room1 room2 = none_came s v
  one_call recv_ms missing_fields pkt s v room1 room2 = none_came s v
  one_call recv_ms out_of_range pkt s v room1 room2 = none_came s v

  same_counter :
      (recv_ms : ℕ) (r : ParseResult) (pkt : DataPacket D) (s : Server D F)
      → (on_parsed fp reals recv_ms r pkt s).counter ≡ s.counter
  unfolding on_parsed
  same_counter recv_ms ok pkt s = refl
  same_counter recv_ms invalid_format pkt s = refl
  same_counter recv_ms missing_fields pkt s = refl
  same_counter recv_ms out_of_range pkt s = refl

  -- Over any sequence of payloads, valid or not, from a valid buffer: the statistics count as
  -- received exactly the packets that the validator accepts. The buffer, which stays valid, holds what
  -- it held and behind it, in order and unchanged, each accepted packet that came while there was
  -- room; the others are counted as dropped. A payload that is refused changes none of this. No count
  -- may pass 2^64.
  pub callbacks-Accounts :
      (calls : List (Call D)) (s : Server D F)
      → IsValid s.storage.buffer
      → s.stats.packets_received + length calls < 2 ^ 64
      → s.storage.dropped_packets + s.storage.buffer.count + length calls < 2 ^ 64
      → Accounts s (callbacks fp reals calls s) (valid_packets reals calls s.counter)
  unfolding callbacks callback valid_packets
  callbacks-Accounts [] s v room1 room2 = none_came s v
  callbacks-Accounts (call ∷ calls) s v room1 room2 =
      let (parsed, counter) = parse reals call.cfg call.payload s.counter in
      let s0 : Server D F = record s { counter = counter } in
      let first =
        one_call call.recv_ms parsed.result parsed.packet s0 v (omega arith) (omega arith) in
      let s1 = on_parsed fp reals call.recv_ms parsed.result parsed.packet s0 in
      let few = few_ok parsed.result parsed.packet in
      let rest =
        callbacks-Accounts calls s1 first.valid (omega (arith, first.received_is, few))
          (omega (arith, first.stored_is, few)) in
      let all =
        Accounts-append s0 s1 _ (if_ok parsed.result parsed.packet)
          (valid_packets reals calls s1.counter) first rest in
      let packets =
        ap (λ c. if_ok parsed.result parsed.packet ++ valid_packets reals calls c)
          (same_counter call.recv_ms parsed.result parsed.packet s0) in
      let kept = subst (Accounts s0 (callbacks fp reals calls s1)) packets all in
      record {
        valid = kept.valid;
        room_is = kept.room_is;
        received_is = kept.received_is;
        holds = kept.holds;
        stored_is = kept.stored_is;
      }
