-- ===== src/Providers/OpenaiWire/Completeness.antt =====
-- When internal/providers/openaiwire/stream.go says that a stream is whole.
use pen_stock.Base.{
  ℕ, zero, suc, ◌+◌, ◌<◌, ◌≡◌, refl, sym, ap, subst, ◌∙◌, inl, inr, Bool, true, false, Option, none,
  some, arith, Bool-cases, ◌⊎◌, ◌∷◌, [],
}
use pen_stock.Providers.Types.{Bytes, Usage}
use pen_stock.Providers.Sse.{
  ReadError, end_of_body, event_too_large, read_deadline, read_canceled, read_failed, Body,
  SseEvent, Scanned, event, failed, next_event,
}
use pen_stock.Providers.Sse.Progress.{Progress, next_event-Progress}
use pen_stock.Providers.OpenaiWire.{
  StreamEnd, finished, ContextState, live, past_deadline, given_up, Received, chunk, ended_with,
  WireReader, new_wire_reader, recv_error, same_bytes, sse_done_sentinel, on_data, on_scanned,
  recv_loop, size_of, recv_open, recv_from, recv_chunk,
}

-- What is left of a body after some of its events.
pub data Later (b : Body) : Body → Type 0 where
  unread : Later b b
  after_event :
      {b' : Body} (ev : SseEvent)
      → Later b b'
      → (next_event b').0 ≡ event ev
      → Later b (next_event b').1

-- An event of a body that has data, and which data.
pub record HasData (b : Body) (payload : Bytes) : Type 0 where
  pub before : Body
  pub ev : SseEvent
  pub reached : Later b before
  pub scanned : (next_event before).0 ≡ event ev
  pub no_keepalive : ev.keepalive ≡ false
  pub has_data : ev.has_data ≡ true
  pub same_payload : ev.payload ≡ payload

-- A reader of the body `b`: while it has no end it stands after some of the events; it has come to a
-- whole end only if the end marker is an event of the body.
pub record Honest (b : Body) (r : WireReader) : Type 0 where
  pub reads : r.terminal ≡ none → Later b r.body
  pub whole_only : r.terminal ≡ some finished → HasData b sse_done_sentinel
  pub latched : r.saw_done ≡ true → r.terminal ≡ some finished

-- What a call leaves and answers: an honest reader; a keepalive, or the data of an event of the body that
-- is not the end marker; or how the stream ended, which the reader repeats.
pub Answered : Body → WireReader → Received → Type 0
Answered b r (chunk c) =
    Honest b r
    × ((c.keepalive ≡ true)
        ⊎ (HasData b c.payload × (same_bytes c.payload sse_done_sentinel ≡ false)))
Answered b r (ended_with end) =
    Honest b r × (r.terminal ≡ some end) × (end ≡ finished → HasData b sse_done_sentinel)

pub Answers : Body → Option (WireReader × Received) → Type 0
unfolding Answered
Answers b o = (r : WireReader) × (x : Received) × (o ≡ some (r, x)) × Answered b r x

same_bytes→eq : (xs ys : Bytes) → same_bytes xs ys ≡ true → xs ≡ ys
same_bytes→eq [] [] h = refl
same_bytes→eq (x ∷ xs) [] h = ground arith
same_bytes→eq [] (y ∷ ys) h = ground arith
same_bytes→eq (x ∷ xs) (y ∷ ys) h =
    let rest : same_bytes xs ys ≡ true = ground (arith, h) in
    let first : x ≡ y = ground (arith, h) in
    ap (λ z. z ∷ xs) first ∙ ap (λ zs. y ∷ zs) (same_bytes→eq xs ys rest)

recv_error-whole :
    (saw_done : Bool) (ctx : ContextState) (user_closed : Bool) (e : ReadError)
    → recv_error saw_done ctx user_closed e ≡ finished
    → saw_done ≡ true
unfolding recv_error
recv_error-whole saw_done ctx user_closed end_of_body h = ground (arith, h)
recv_error-whole saw_done ctx user_closed event_too_large h = cc h
recv_error-whole saw_done ctx user_closed read_deadline h = cc h
recv_error-whole saw_done past_deadline user_closed read_canceled h = cc h
recv_error-whole saw_done live user_closed read_canceled h = cc h
recv_error-whole saw_done given_up user_closed read_canceled h = cc h
recv_error-whole saw_done past_deadline user_closed read_failed h = cc h
recv_error-whole saw_done given_up user_closed read_failed h = cc h
recv_error-whole saw_done live user_closed read_failed h = ground (arith, h)

some-injective : {x y : StreamEnd} → some x ≡ some y → x ≡ y
some-injective {x} h = ap (λ o. elim o [ none ↦ x | some z ↦ z ]) h

-- A reader that goes on is honest.
going_on :
    (b : Body) (r : WireReader)
    → Later b r.body
    → r.terminal ≡ none
    → r.saw_done ≡ false
    → Honest b r
going_on b r later going running = record {
  reads = λ h. later;
  whole_only = λ h. absurd (cc (sym going ∙ h));
  latched = λ h. absurd (cc (sym running ∙ h));
}

module _ (usage_in : Bytes → Option Usage) (ctx : ContextState) (user_closed : Bool) where
  on_data-Answers :
      (b : Body) (r : WireReader) (payload : Bytes)
      → HasData b payload
      → Later b r.body
      → r.terminal ≡ none
      → r.saw_done ≡ false
      → Answers b (some (on_data usage_in ctx user_closed r payload))
  unfolding on_data Answers Answered
  on_data-Answers b r payload got later going running =
      elim (Bool-cases (same_bytes payload sse_done_sentinel)) [
        | inl h ↦
            let marked = subst (HasData b) (same_bytes→eq payload sse_done_sentinel h) got in
            rw h (
              _,
              _,
              refl,
              (
                record { reads = λ e. cc e; whole_only = λ e. marked; latched = λ e. refl },
                refl,
                λ e. marked,
              ),
            )
        | inr h ↦ rw h (_, _, refl, (going_on b r later going running, inr (got, h)))
      ]

  on_scanned-Answers :
      (b b' : Body) (r : WireReader) (scanned : Scanned) (again : Option (WireReader × Received))
      → Later b b'
      → (next_event b').0 ≡ scanned
      → r.body ≡ (next_event b').1
      → r.terminal ≡ none
      → r.saw_done ≡ false
      → ((ev : SseEvent) → scanned ≡ event ev → Answers b again)
      → Answers b (on_scanned usage_in ctx user_closed r scanned again)
  unfolding on_scanned Answers Answered
  on_scanned-Answers b b' r (failed e) again later at left going running next =
      let never = λ (h : recv_error r.saw_done ctx user_closed e ≡ finished).
        recv_error-whole r.saw_done ctx user_closed e h in
      (
        _,
        _,
        refl,
        (
          record {
            reads = λ h. cc h;
            whole_only = λ h. absurd (cc (sym running ∙ never (some-injective h)));
            latched = λ h. absurd (cc (sym running ∙ h));
          },
          refl,
          λ h. absurd (cc (sym running ∙ never h)),
        ),
      )
  on_scanned-Answers b b' r (event ev) again later at left going running next =
      let later' = subst (Later b) (sym left) (after_event ev later at) in
      elim (Bool-cases ev.keepalive) [
        | inl k ↦ rw k (_, _, refl, (going_on b r later' going running, inl refl))
        | inr k ↦ elim (Bool-cases ev.has_data) [
          | inl d ↦
              rw (k, d)
                (on_data-Answers b r ev.payload
                  (record {
                    before = b';
                    ev = ev;
                    reached = later;
                    scanned = at;
                    no_keepalive = k;
                    has_data = d;
                    same_payload = refl;
                  })
                  later' going running)
          | inr d ↦ rw (k, d) (next ev refl)
        ]
      ]

  recv_loop-Answers :
      (fuel : ℕ) (b : Body) (r : WireReader)
      → size_of r.body < fuel
      → Later b r.body
      → r.terminal ≡ none
      → r.saw_done ≡ false
      → Answers b (recv_loop usage_in ctx user_closed fuel r)
  unfolding recv_loop Progress
  recv_loop-Answers zero b r enough later going running = absurd (omega arith)
  recv_loop-Answers (suc fuel) b r enough later going running =
      let (scanned, body) = next_event r.body in
      let r' = record r { body = body } in
      on_scanned-Answers b r.body r' scanned (recv_loop usage_in ctx user_closed fuel r') later refl
        refl going running
        (λ ev h.
          recv_loop-Answers fuel b r'
            (smaller ev (
              subst (λ z. Progress (size_of r.body) (z, body.lines, body.rest)) h
                (next_event-Progress r.body)))
            (after_event ev later h) going running)
    where
      smaller :
          (ev : SseEvent)
          → Progress
              (size_of r.body)
              (event ev, (next_event r.body).1.lines, (next_event r.body).1.rest)
          → size_of (next_event r.body).1 < fuel
      smaller ev p = omega (arith, enough)

-- Every call of `Recv` comes to an end, however the body `b` is cut, whatever the context and whoever
-- closes the reader: with a keepalive, with the data of an event of the body that is not the end marker,
-- or with the end of the stream, which is then repeated. The stream is reported whole only if the end
-- marker is the data of an event that was read from the body, so that a body that is cut off, at a line
-- or within one, is never taken for a finished answer; and a reader keeps to this from one call to the
-- next.
pub recv_chunk-Answers :
    (usage_in : Bytes → Option Usage) (ctx : ContextState) (user_closed : Bool) (b : Body)
    (r : WireReader)
    → Honest b r
    → Answers b (recv_chunk usage_in ctx user_closed r)
unfolding recv_chunk recv_from recv_open Answers Answered
recv_chunk-Answers usage_in ctx user_closed b r honest = go r.terminal refl
  where
    unmarked : r.terminal ≡ none → r.saw_done ≡ false
    unmarked h = elim (Bool-cases r.saw_done) [
      | inl marked ↦ cc (sym h ∙ honest.latched marked)
      | inr e ↦ e
    ]

    opened :
        (closed : Bool)
        → r.terminal ≡ none
        → Answers b (recv_open usage_in ctx user_closed closed r)
    opened true going = (
      _,
      _,
      refl,
      (
        record {
          reads = λ h. cc h;
          whole_only = λ h. absurd (cc h);
          latched = λ h. absurd (cc (sym (unmarked going) ∙ h));
        },
        refl,
        λ h. absurd (cc h),
      ),
    )
    opened false going =
        recv_loop-Answers usage_in ctx user_closed (size_of r.body + 1) b r (omega arith)
          (honest.reads going) going (unmarked going)

    go :
        (o : Option StreamEnd) → r.terminal ≡ o → Answers b (recv_from usage_in ctx user_closed o r)
    go (some end) h = (r, ended_with end, refl, (honest, h, λ e. honest.whole_only (h ∙ ap some e)))
    go none h = opened r.closed h

-- A new reader is honest.
pub new_wire_reader-Honest : (body : Body) → Honest body (new_wire_reader body)
new_wire_reader-Honest body = record {
  reads = λ h. unread;
  whole_only = λ h. absurd (cc h);
  latched = λ h. absurd (cc h);
}
