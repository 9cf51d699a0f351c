-- ===== src/ToolGateway/Steps.antt =====
-- One call or model call, recorded and replayed.
use murmur_ai_harness.Prelude.{
  ℕ, zero, suc, ◌+◌, String, ◌≡◌, refl, sym, ap, ◌∙◌, true, Option, none, some, List, [], ◌∷◌, ◌++◌,
  arith, ◌==◌, eq_refl, if◌then◌else◌, drop, lookup, ℤ,
}
use mathlib.Core.List.{append_assoc, map-append}
use mathlib.Core.Path.{subst}
use murmur_ai_harness.Core.Events.{
  Payload, model_call, tool_call, tool_result, tool_error, EventRecorder, write, kind_of,
}
use murmur_ai_harness.ToolGateway.{
  Hashes, GatewayMode, recording, replaying, Reply, returned, ToolRun, gives, throws, Tool,
  ToolGateway, call, model, record_call, record_model, emit, next_replay_event, replay_call,
  replay_model, run_tool, finish_run, answer_of, first_of, need_recorder, find_tool, add_latency,
  count_model, count_tool_call,
}
use murmur_ai_harness.ToolGateway.Session.{Seen, result, error, observe, Writes, Waits}

drop-suc : {A : Type 0} (i : ℕ) (xs ys : List A) (x : A) → drop i xs ≡ x ∷ ys → drop (suc i) xs ≡ ys
drop-suc zero xs ys x h = ap (λ l. drop 1 l) h
drop-suc (suc i) [] ys x h = absurd (ground arith)
drop-suc (suc i) (y ∷ xs) ys x h = drop-suc i xs ys x h

drop-next :
    {A : Type 0} (i : ℕ) (xs ys : List A) (x : A) → drop i xs ≡ x ∷ ys → drop (i + 1) xs ≡ ys
drop-next i xs ys x h =
    let e : i + 1 ≡ suc i = omega arith in ap (λ n. drop n xs) e ∙ drop-suc i xs ys x h

module _ {J : Type 0} where
  -- The next event, of the type that is asked for, is given and passed.
  next-Waits :
      (kind : String) (e : Payload J) (es : List (Payload J)) (g : ToolGateway J)
      → Waits g (e ∷ es)
      → (kind_of e == kind) ≡ true
      → ((next_replay_event kind g).0 ≡ returned e) × Waits (next_replay_event kind g).1 es
  unfolding next_replay_event
  next-Waits kind e es g w same =
      let first = ap first_of w.ahead in
      rw (first, next_replay_event, same)
        (
          refl,
          record {
            replays = w.replays;
            ahead = drop-next g.replay_index g.replay_events es e w.ahead;
          },
        )

  emit-Writes :
      (p : Payload J) (ps : List (Payload J)) (g : ToolGateway J)
      → Writes g ps
      → Writes (emit p g) (ps ++ p ∷ [])
  unfolding emit write
  emit-Writes p ps g w = record {
    recorder = write p w.recorder;
    records = w.records;
    kept = rw w.kept refl;
    written = map-append _ w.recorder.stored _ ∙ ap (λ l. l ++ p ∷ []) w.written;
  }

  model-replaying :
      (name : String) (input output : ℤ) (reason : String) (ms : ℤ) (content : Option String)
      (g : ToolGateway J)
      → g.mode ≡ replaying
      → model name input output reason ms content g ≡ replay_model name g
  unfolding model
  model-replaying name input output reason ms content g e =
      ap
        (λ (m : GatewayMode). elim m [
          | recording ↦ record_model name input output reason ms content g
          | replaying ↦ replay_model name g
        ])
        e

  model-recording :
      (name : String) (input output : ℤ) (reason : String) (ms : ℤ) (content : Option String)
      (g : ToolGateway J)
      → g.mode ≡ recording
      → model name input output reason ms content g
        ≡ record_model name input output reason ms content g
  unfolding model
  model-recording name input output reason ms content g e =
      ap
        (λ (m : GatewayMode). elim m [
          | recording ↦ record_model name input output reason ms content g
          | replaying ↦ replay_model name g
        ])
        e

  pub model-Waits :
      (name : String) (input output : ℤ) (reason : String) (ms : ℤ)
      (content recorded : Option String) (es : List (Payload J)) (g : ToolGateway J)
      → Waits g (model_call name input output reason ms recorded ∷ es)
      → ((model name input output reason ms content g).0 ≡ returned tt)
        × Waits (model name input output reason ms content g).1 es
  unfolding replay_model kind_of
  model-Waits name input output reason ms content recorded es g w =
      let (first, w') = next-Waits "model_call" _ es g w refl in
      rw (model-replaying name input output reason ms content g w.replays, first, eq_refl name)
        (refl, w')

  pub model-Writes :
      (name : String) (input output : ℤ) (reason : String) (ms : ℤ) (content : Option String)
      (ps : List (Payload J)) (g : ToolGateway J)
      → Writes g ps
      → ((model name input output reason ms content g).0 ≡ returned tt)
        × Writes (model name input output reason ms content g).1 (
            ps
            ++ model_call name input output reason ms (if g.capture_content then content else none)
              ∷ [])
  unfolding record_model
  model-Writes name input output reason ms content ps g w =
      rw (model-recording name input output reason ms content g w.records) (
        subst
          (λ (q : Reply (Unit {0}) × ToolGateway J).
            (q.0 ≡ returned tt)
            × Writes q.1 (
                ps
                ++ model_call name input output reason ms
                    (if g.capture_content then content else none)
                  ∷ []))
          (sym (
            ap
              (λ (o : Option (EventRecorder J)). need_recorder o g (
                returned tt,
                emit
                    (model_call name input output reason ms
                      (if g.capture_content then content else none))
                    (count_model input output ms g),
              ))
              w.kept))
          (
            refl,
            emit-Writes _ ps (count_model input output ms g) (record {
              recorder = w.recorder;
              records = w.records;
              kept = w.kept;
              written = w.written;
            }),
          ))

  module _ (hash : Hashes J) where
    call-replaying :
        (name : String) (args : J) (g : ToolGateway J)
        → g.mode ≡ replaying
        → call hash name args g ≡ replay_call hash name args g
    unfolding call
    call-replaying name args g e =
        ap
          (λ (m : GatewayMode). elim m [
            | recording ↦ record_call hash name args g
            | replaying ↦ replay_call hash name args g
          ])
          e

    call-Waits :
        (name : String) (args : J) (e : Payload J) (es : List (Payload J)) (g : ToolGateway J)
        → Waits g (tool_call name args (hash.command_hash name args) ∷ e ∷ es)
        → (kind_of e == "tool_result") ≡ true
        → ((call hash name args g).0 ≡ answer_of hash name e) × Waits (call hash name args g).1 es
    unfolding replay_call kind_of
    call-Waits name args e es g w last =
        let (first, w') = next-Waits "tool_call" _ (e ∷ es) g w refl in
        let (second, w'') = next-Waits "tool_result" e es _ w' last in
        rw
          (
            call-replaying name args g w.replays,
            first,
            eq_refl name,
            eq_refl (hash.command_hash name args),
            second,
          )
          (refl, w'')

    -- What a run writes behind its call.
    unfoldable pub outcome : String → ToolRun J → Payload J
    outcome name (gives r ms) = tool_result name r (hash.result_hash r) ms
    outcome name (throws e t ms) = tool_error name e t ms

    pub seen_of : ToolRun J → Seen J
    seen_of (gives r ms) = result r
    seen_of (throws e t ms) = error e

    need-recorded :
        {A : Type 0} (g : ToolGateway J) (ps : List (Payload J)) (out : Reply A × ToolGateway J)
        → Writes g ps
        → need_recorder g.recorder g out ≡ out
    need-recorded g ps out w = ap (λ (o : Option (EventRecorder J)). need_recorder o g out) w.kept

    pub call-recording :
        (name : String) (args : J) (ps : List (Payload J)) (g : ToolGateway J)
        → Writes g ps
        → call hash name args g ≡ find_tool hash name (lookup name g.tools) args g
    unfolding call record_call
    call-recording name args ps g w =
        ap
          (λ (m : GatewayMode). elim m [
            | recording ↦ record_call hash name args g
            | replaying ↦ replay_call hash name args g
          ])
          w.records
        ∙ need-recorded g ps _ w

    finish-Writes :
        (name : String) (r : ToolRun J) (ps : List (Payload J)) (g : ToolGateway J)
        → Writes g ps
        → (observe (finish_run hash name r g).0 ≡ returned (seen_of r))
          × Writes (finish_run hash name r g).1 (ps ++ outcome name r ∷ [])
    unfolding seen_of outcome
    finish-Writes name (gives r ms) ps g w = (
      refl,
      emit-Writes _ ps (add_latency ms g) (record {
        recorder = w.recorder;
        records = w.records;
        kept = w.kept;
        written = w.written;
      }),
    )
    finish-Writes name (throws e t ms) ps g w = (
      refl,
      emit-Writes _ ps (add_latency ms g) (record {
        recorder = w.recorder;
        records = w.records;
        kept = w.kept;
        written = w.written;
      }),
    )

    pub call-Writes :
        (name : String) (args : J) (tool : Tool J) (ps : List (Payload J)) (g : ToolGateway J)
        → Writes g ps
        → lookup name g.tools ≡ some tool
        → (observe (call hash name args g).0 ≡ returned (seen_of (tool g.runs args)))
          × Writes (call hash name args g).1 (
              ps
              ++ tool_call name args (hash.command_hash name args)
                ∷ outcome name (tool g.runs args)
                ∷ [])
    call-Writes name args tool ps g w found =
        let e =
          call-recording name args ps g w
          ∙ ap (λ (t : Option (Tool J)). find_tool hash name t args g) found in
        let started =
          emit-Writes (tool_call name args (hash.command_hash name args)) ps
            (record (count_tool_call g) { runs = g.runs + 1 })
            (record {
              recorder = w.recorder;
              records = w.records;
              kept = w.kept;
              written = w.written;
            }) in
        let (seen, ended) =
          finish-Writes name (tool g.runs args) _
            (emit (tool_call name args (hash.command_hash name args))
              (record (count_tool_call g) { runs = g.runs + 1 }))
            started in
        rw e (
          seen,
          subst (λ l. Writes (run_tool hash name tool args g).1 l) (append_assoc ps _ _) ended,
        )

    pub outcome-Waits :
        (name : String) (args : J) (r : ToolRun J) (es : List (Payload J)) (g : ToolGateway J)
        → Waits g (tool_call name args (hash.command_hash name args) ∷ outcome name r ∷ es)
        → (observe (call hash name args g).0 ≡ returned (seen_of r))
          × Waits (call hash name args g).1 es
    unfolding kind_of seen_of outcome
    outcome-Waits name args (gives r ms) es g w =
        let (e, w') = call-Waits name args _ es g w refl in
        (ap observe e ∙ rw (eq_refl name) refl, w')
    outcome-Waits name args (throws e t ms) es g w =
        let (e', w') = call-Waits name args _ es g w refl in
        (ap observe e' ∙ rw (eq_refl name) refl, w')
