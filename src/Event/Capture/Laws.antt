-- ===== src/Event/Capture/Laws.antt =====
-- How the capture of a dead letter ends, whatever fails on the way.
use text.Mathlib.Text.{◌==◌ as str_eq}
use nestjs_jetstream.Prelude.{
  ◌-◌, ◌≡◌, refl, ap, Bool, true, false, not, ◌&&◌, ◌||◌, ◌⊎◌, inl, inr, Option, none, some, List,
  [], ◌∷◌, ◌++◌, if◌then◌else◌, Bool-cases,
}
use nestjs_jetstream.Event.Actions.{
  Thrown, Settle, term, HeaderCall, set, DeadLetterInfo, logs, emits_dead_letter, Act, ◌>>◌, catch,
  call,
}
use nestjs_jetstream.Event.Headers.{build_dlq_headers, diagnostic_headers, extract_error_reason}
use nestjs_jetstream.Event.Capture.{
  Options, Capture, Oracle, JsMsg, is_dlq_enabled, notify_dead_letter_callback,
  fallback_to_on_dead_letter_callback, publish_to_dlq, capture, dlq_publish_attempts,
}
use nestjs_jetstream.Event.Capture.Verdict.{
  stored, fallback_verdict, captured, Settles, Throws, Published, >>-Settles, >>-Throws_left,
  catch-Settles, catch-Throws, fallback-Settles, notify-Settles, publish_with_retry-Published,
  header_calls-cases, header_calls-refused, Refused, Ends,
}

module _ (c : Capture) (o : Oracle) where
  abbrev after_publish : Bool → Settle
  after_publish b = if b then term (some "Moved to DLQ stream") else fallback_verdict c o

  -- the dead letter can be stored
  abbrev was_stored : Bool
  was_stored = stored o 1 (dlq_publish_attempts - 1)

abbrev headers_of : Oracle → JsMsg → Thrown → List HeaderCall
headers_of o msg e =
    build_dlq_headers msg.headers
    ++ diagnostic_headers e msg.subject msg.stream o.failed_at o.count_text

module _ {D : Type 0} (c : Capture) (o : Oracle) where
  logged : (a : Act D) {s : List Settle} → Settles a s → Settles (call logs >> a) s
  logged a p = record { made = p.made; normal = p.normal }

  published :
      (b : Bool) (p : Act D) (info : DeadLetterInfo D)
      → Published b p
      → Settles
          (catch
            (p >> call logs >> notify_dead_letter_callback c o info)
            (λ _. call logs >> fallback_to_on_dead_letter_callback c o info))
          (after_publish c o b ∷ [])
  published b p info (inl (done, s)) = rw done (
      catch-Settles _ _ (
        >>-Settles (p >> call logs) (notify_dead_letter_callback c o info)
          (>>-Settles p (call logs) s (record { made = refl; normal = refl }))
          (notify-Settles c o info)))
  published b p info (inr (lost, t)) = rw lost (
      catch-Throws (p >> call logs >> notify_dead_letter_callback c o info) _
        (>>-Throws_left (p >> call logs) _ (>>-Throws_left p _ t))
        (λ e. logged _ (fallback-Settles c o info)))

  with_headers :
      (hdrs rest : Act D) (s : Settle)
      → Settles hdrs [] ⊎ (Throws hdrs [] × Refused o)
      → Settles rest (s ∷ [])
      → Ends o (hdrs >> rest) s
  with_headers hdrs rest s (inl p) q = inl (>>-Settles hdrs rest p q)
  with_headers hdrs rest s (inr (p, r)) q = inr (>>-Throws_left hdrs rest p, r)

  choose :
      (k n w : Bool) (a b : Act D)
      → Ends o a (fallback_verdict c o)
      → Ends o b (after_publish c o w)
      → Ends o (if not k || n then a else b) (after_publish c o ((k && not n) && w))
  choose true true w a b p q = p
  choose true false w a b p q = q
  choose false n w a b p q = p

  publish_to_dlq-Ends :
      (opts : Options) (msg : JsMsg) (info : DeadLetterInfo D)
      → Ends o
          (publish_to_dlq c o opts msg info)
          (after_publish c o ((c.connected && not (str_eq opts.name "")) && was_stored c o))
  unfolding publish_to_dlq
  publish_to_dlq-Ends opts msg info =
      choose c.connected (str_eq opts.name "") (was_stored c o) _ _
        (inl (logged _ (fallback-Settles c o info)))
        (with_headers _ _ _ (header_calls-cases o (headers_of o msg info.thrown))
          (published (was_stored c o) _ info (publish_with_retry-Published o _ _)))

  emitted :
      (i : DeadLetterInfo D) (a : Act D) (s : Settle)
      → Ends o a s
      → Ends o (call (emits_dead_letter i) >> a) s
  emitted i a s (inl p) = inl (record { made = p.made; normal = p.normal })
  emitted i a s (inr (p, r)) = inr (record { made = p.made; thrown = p.thrown }, r)

  choose_dlq :
      (opts : Option Options) (a : Act D) (b : Options → Act D) (k : Options → Bool) (w : Bool)
      → Ends o a (fallback_verdict c o)
      → ((x : Options) → Ends o (b x) (after_publish c o (k x && w)))
      → Ends o
          (elim opts [ none ↦ a | some x ↦ if is_dlq_enabled x then b x else a ])
          (after_publish c o ((elim opts [ none ↦ false | some x ↦ is_dlq_enabled x && k x ]) && w))
  choose_dlq none a b k w p q = p
  choose_dlq (some x) a b k w p q = elim (Bool-cases (is_dlq_enabled x)) [
    | inl on ↦ rw on (q x)
    | inr off ↦ rw off p
  ]

  -- Whatever fails on the way, the capture of a dead letter settles the message once, as `captured`
  -- says: it is termed if one of the three publishes succeeded, or else if the callback took it, and
  -- naked if not. The one other way is that a header is refused: then the capture throws, and it has
  -- settled nothing.
  pub capture-Ends :
      (msg : JsMsg) (data_of : Option D) (e : Thrown)
      → Ends o (capture c o msg data_of e) (captured c o)
  unfolding capture
  capture-Ends msg data_of e = emitted _ _ _ (
      choose_dlq c.options _ _ _ (was_stored c o) (inl (fallback-Settles c o _))
        (λ opts. publish_to_dlq-Ends opts msg _))

  stopped :
      (a b : Act D) (y : Thrown)
      → a.calls ≡ []
      → a.failure ≡ some y
      → ((a >> b).calls ≡ []) × ((a >> b).failure ≡ some y)
  stopped a b y p q = rw q (p, refl)

  publish_to_dlq_refused :
      (opts : Options) (msg : JsMsg) (info : DeadLetterInfo D) (x : Thrown)
      → c.connected ≡ true
      → str_eq opts.name "" ≡ false
      → o.header_fails (set "x-dead-letter-reason" (extract_error_reason info.thrown)) ≡ some x
      → ((publish_to_dlq c o opts msg info).calls ≡ [])
        × ((y : Thrown) × ((publish_to_dlq c o opts msg info).failure ≡ some y))
  unfolding publish_to_dlq diagnostic_headers
  publish_to_dlq_refused opts msg info x linked named refused =
      let (empty, (y, thrown)) =
        header_calls-refused {D = D} o (build_dlq_headers msg.headers)
          (set "x-original-subject" msg.subject
            ∷ set "x-original-stream" msg.stream
            ∷ set "x-failed-at" o.failed_at
            ∷ set "x-delivery-count" o.count_text
            ∷ [])
          (set "x-dead-letter-reason" (extract_error_reason info.thrown)) x refused in
      let (none_made, fails) = stopped _ _ y empty thrown in
      rw (linked, named) (none_made, (y, fails))

  -- If the client refuses the header that carries the error's text, as it does for a text with a
  -- line break, a dead letter that can be published is emitted and then given up: the capture
  -- throws, and nothing is published, handed to the callback, or settled.
  pub capture_refused :
      (opts : Options) (msg : JsMsg) (data_of : Option D) (e x : Thrown)
      → c.options ≡ some opts
      → is_dlq_enabled opts ≡ true
      → c.connected ≡ true
      → str_eq opts.name "" ≡ false
      → o.header_fails (set "x-dead-letter-reason" (extract_error_reason e)) ≡ some x
      → let a = capture c o msg data_of e in
        ((i : DeadLetterInfo D) × (a.calls ≡ emits_dead_letter i ∷ []))
        × ((y : Thrown) × (a.failure ≡ some y))
  unfolding capture
  capture_refused opts msg data_of e x has on linked named refused =
      let info : DeadLetterInfo D = record {
        subject = msg.subject;
        data_of = data_of;
        thrown = e;
        delivery_count = msg.delivery_count;
        stream = msg.stream;
      } in
      let (empty, (y, fails)) = publish_to_dlq_refused opts msg info x linked named refused in
      rw (has, on) ((info, ap (λ t. emits_dead_letter info ∷ t) empty), (y, fails))
