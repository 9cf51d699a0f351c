-- ===== src/ToolGateway.antt =====
-- murmur/gateway/tool_gateway.py: a gateway that records each tool and model call, and in replay
-- mode answers from the record. `J` is the type of the JSON values that tools take and give.
pub mod Session
pub mod Steps
pub mod Replay
pub mod StepContracts
use mathlib.Core.Option
use murmur_ai_harness.Core.Events.{
  Payload, model_call, tool_call, tool_result, tool_error, kind_of, Event, EventRecorder, write,
}
use murmur_ai_harness.Prelude.{
  ℕ, zero, suc, ◌+◌, ◌-◌, ◌*◌, ◌/◌, ◌%◌, ◌≤◌, ◌<◌, min, max, String, ◌≡◌, refl, sym, ap, ◌∙◌, ◌≢◌,
  ◌↔◌, ◌⊎◌, inl, inr, Bool, true, false, not, ◌&&◌, ◌||◌, Option, none, some, List, [], ◌∷◌, ◌++◌,
  map, arith, ◌==◌, eq_iff, eq_refl, ltb, leb, nat_eq, str_le, if◌then◌else◌, leb→le, le→leb,
  nat_eq_iff, &&_iff, Bool-cases, Option-cases, concat, has_text, join, length, take, drop,
  length-append, take-append-drop, length-take, select, All, all, any, contains, IsUnique, count,
  count-append, contains-append, contains→count, count→contains, length-map, Has, Zip, All-map,
  All-intro, map-cong, All-Has, Has-map, length-select-cons, length-select, Has-select, Has-last,
  Has→contains, append-eq-nil, place, sort, length-sort, sorted, count-sort, count-sorted,
  length-sorted, place-perm, sort-perm, IsSorted, sort-IsSorted, All-sort, Has-sort, Dict, lookup,
  insert, update, keys, lookup-insert, lookup-update, pos_part, is_nonpos, neg_part, sub_ℕ, ◌+ℤ◌,
  leb_ℤ, ℤ, pos, negsuc,
}

-- What a tool does when it runs: it gives a result or throws, after some time.
pub data ToolRun (J : Type 0) : Type 0 where
  gives : J → (latency_ms : ℤ) → ToolRun J
  throws : (error error_type : String) (latency_ms : ℤ) → ToolRun J

-- A tool that runs as the n-th of all: the world outside may answer each time otherwise.
abbrev pub Tool : Type 0 → Type 0
Tool J = ℕ → J → ToolRun J

-- `hash_payload` of a call and of a result
pub record Hashes (J : Type 0) : Type 0 where
  pub command_hash : String → J → String
  pub result_hash : J → String

pub data GatewayMode : Type 0 where
  recording replaying : GatewayMode

-- The exceptions of the gateway. The first four of a replay are `ReplayDivergenceError`s.
pub data GatewayFault : Type 0 where
  replay_exhausted : (expected : String) → GatewayFault
  wrong_event : (expected got : String) → GatewayFault
  call_diverged : (tool : String) → GatewayFault
  model_diverged : (model : String) → GatewayFault
  replayed_tool_error : (error : String) → GatewayFault
  no_recorder : GatewayFault
  not_registered : (tool : String) → GatewayFault
  tool_failed : (error error_type : String) → GatewayFault

pub data Reply (A : Type 0) : Type 0 where
  returned : A → Reply A
  raised : GatewayFault → Reply A

-- `ToolGateway`; `runs` counts the tools that ran.
pub record ToolGateway (J : Type 0) : Type 0 where
  pub mode : GatewayMode
  pub recorder : Option (EventRecorder J)
  pub tools : Dict (Tool J)
  pub capture_content : Bool
  pub replay_events : List (Payload J)
  pub replay_index : ℕ
  pub tool_call_count : ℕ
  pub model_call_count : ℕ
  pub input_tokens : ℤ
  pub output_tokens : ℤ
  pub latency_ms : ℤ
  pub runs : ℕ

-- The events that a replay reads.
unfoldable pub is_replayed : {J : Type 0} → Payload J → Bool
unfolding kind_of
is_replayed p = kind_of p == "model_call" || kind_of p == "tool_call" || kind_of p == "tool_result"

abbrev pub first_of {ℓ} : {A : Type ℓ} → List A → Option A
first_of [] = none
first_of (x ∷ xs) = some x

module _ {J : Type 0} where
  unfoldable pub new_gateway :
      GatewayMode
      → Option (EventRecorder J)
      → Dict (Tool J)
      → Bool
      → List (Payload J)
      → ToolGateway J
  new_gateway mode recorder tools capture events = record {
    mode = mode;
    recorder = recorder;
    tools = tools;
    capture_content = capture;
    replay_events = select is_replayed events;
    replay_index = 0;
    tool_call_count = 0;
    model_call_count = 0;
    input_tokens = pos 0;
    output_tokens = pos 0;
    latency_ms = pos 0;
    runs = 0;
  }

  -- `ToolGateway.record`
  unfoldable pub record_gateway : EventRecorder J → Dict (Tool J) → Bool → ToolGateway J
  unfolding new_gateway
  record_gateway recorder tools capture = new_gateway recording (some recorder) tools capture []

  -- `ToolGateway.replay`
  unfoldable pub replay_gateway : List (Payload J) → ToolGateway J
  unfolding new_gateway
  replay_gateway events = new_gateway replaying none [] false events

  -- `self._recorder.emit`
  unfoldable pub emit : Payload J → ToolGateway J → ToolGateway J
  unfolding write
  emit p g = record g { recorder = Option.map (write p) g.recorder }

  abbrev pub add_latency : ℤ → ToolGateway J → ToolGateway J
  add_latency ms g = record g { latency_ms = g.latency_ms +ℤ ms }

  abbrev pub count_tool_call : ToolGateway J → ToolGateway J
  count_tool_call g = record g { tool_call_count = g.tool_call_count + 1 }

  infixl 5 ◌>>=◌
  abbrev pub go_on :
      {A B : Type 0}
      → Reply A
      → (A → ToolGateway J → Reply B × ToolGateway J)
      → ToolGateway J
      → Reply B × ToolGateway J
  go_on (returned a) f g = f a g
  go_on (raised e) f g = (raised e, g)

  abbrev pub ◌>>=◌ :
      {A B : Type 0}
      → (ToolGateway J → Reply A × ToolGateway J)
      → (A → ToolGateway J → Reply B × ToolGateway J)
      → ToolGateway J
      → Reply B × ToolGateway J
  ◌>>=◌ x f g = let (r, g') = x g in go_on r f g'

  -- if self._recorder is None: raise RuntimeError(…)
  abbrev pub need_recorder :
      {A : Type 0}
      → Option (EventRecorder J)
      → ToolGateway J
      → Reply A × ToolGateway J
      → Reply A × ToolGateway J
  need_recorder none g out = (raised no_recorder, g)
  need_recorder (some r) g out = out

  abbrev pub count_model : ℤ → ℤ → ℤ → ToolGateway J → ToolGateway J
  count_model input output ms g = record g {
    model_call_count = g.model_call_count + 1;
    input_tokens = g.input_tokens +ℤ input;
    output_tokens = g.output_tokens +ℤ output;
    latency_ms = g.latency_ms +ℤ ms;
  }

  unfoldable pub record_model :
      (model : String) (input_tokens output_tokens : ℤ) (finish_reason : String) (latency_ms : ℤ)
      (content : Option String)
      → ToolGateway J
      → Reply (Unit {0}) × ToolGateway J
  unfolding emit
  record_model model input output reason ms content g = need_recorder g.recorder g (
    returned tt,
    emit (model_call model input output reason ms (if g.capture_content then content else none))
        (count_model input output ms g),
  )

  unfoldable pub next_replay_event : String → ToolGateway J → Reply (Payload J) × ToolGateway J
  unfolding kind_of
  next_replay_event kind g = elim (first_of (drop g.replay_index g.replay_events)) [
    | none ↦ (raised (replay_exhausted kind), g)
    | some e ↦
        let g' : ToolGateway J = record g { replay_index = g.replay_index + 1 } in
        if kind_of e == kind then (returned e, g') else (raised (wrong_event kind (kind_of e)), g')
  ]

  abbrev pub check_model : String → Payload J → Reply (Unit {0})
  check_model model (model_call m i o f l c) =
      if m == model then returned tt else raised (model_diverged model)
  check_model model e = raised (model_diverged model)

  unfoldable pub replay_model : String → ToolGateway J → Reply (Unit {0}) × ToolGateway J
  unfolding next_replay_event
  replay_model model = next_replay_event "model_call" >>= λ e g. (check_model model e, g)

  -- `ToolGateway.model`
  unfoldable pub model :
      (model : String) (input_tokens output_tokens : ℤ) (finish_reason : String) (latency_ms : ℤ)
      (content : Option String)
      → ToolGateway J
      → Reply (Unit {0}) × ToolGateway J
  unfolding record_model replay_model
  model name input output reason ms content g = elim g.mode [
    | recording ↦ record_model name input output reason ms content g
    | replaying ↦ replay_model name g
  ]

module _ {J : Type 0} (hash : Hashes J) where
  abbrev pub finish_run : String → ToolRun J → ToolGateway J → Reply J × ToolGateway J
  finish_run name (gives result ms) g = (
    returned result,
    emit (tool_result name result (hash.result_hash result) ms) (add_latency ms g),
  )
  finish_run name (throws error error_type ms) g = (
    raised (tool_failed error error_type),
    emit (tool_error name error error_type ms) (add_latency ms g),
  )

  abbrev pub run_tool : String → Tool J → J → ToolGateway J → Reply J × ToolGateway J
  run_tool name tool args g = finish_run name (tool g.runs args) (
      emit (tool_call name args (hash.command_hash name args))
        (record (count_tool_call g) { runs = g.runs + 1 }))

  -- if name not in self._tools: raise KeyError(…)
  abbrev pub find_tool : String → Option (Tool J) → J → ToolGateway J → Reply J × ToolGateway J
  find_tool name none args g = (raised (not_registered name), g)
  find_tool name (some tool) args g = run_tool name tool args g

  unfoldable pub record_call : String → J → ToolGateway J → Reply J × ToolGateway J
  unfolding emit
  record_call name args g = need_recorder g.recorder g (find_tool name (lookup name g.tools) args g)

  abbrev pub check_call : String → J → Payload J → Reply (Unit {0})
  check_call name args (tool_call t a h) =
      if t == name && h == hash.command_hash name args
      then returned tt
      else raised (call_diverged name)
  check_call name args e = raised (call_diverged name)

  abbrev pub answer_of : String → Payload J → Reply J
  answer_of name (tool_result t result h ms) =
      if t == name then returned result else raised (call_diverged name)
  answer_of name (tool_error t error y ms) =
      if t == name then raised (replayed_tool_error error) else raised (call_diverged name)
  answer_of name e = raised (call_diverged name)

  unfoldable pub replay_call : String → J → ToolGateway J → Reply J × ToolGateway J
  unfolding next_replay_event
  replay_call name args =
      next_replay_event "tool_call"
      >>= (λ e g. (check_call name args e, g))
      >>= (λ _. next_replay_event "tool_result")
      >>= λ e g. (answer_of name e, g)

  -- `ToolGateway.call`
  unfoldable pub call : String → J → ToolGateway J → Reply J × ToolGateway J
  unfolding record_call replay_call
  call name args g = elim g.mode [
    | recording ↦ record_call name args g
    | replaying ↦ replay_call name args g
  ]

  abbrev pub error_event : String → J → Option String → Option String → ℤ → Payload J
  error_event name result none error_type ms = tool_result name result (hash.result_hash result) ms
  error_event name result (some e) none ms = tool_error name e "ToolError" ms
  error_event name result (some e) (some t) ms =
      tool_error name e (if t == "" then "ToolError" else t) ms

  -- `ToolGateway.record_tool`, with the error that the outside tool reported, if any.
  unfoldable pub record_tool :
      String
      → J
      → (result : J) (error error_type : Option String) (latency_ms : ℤ) → ToolGateway J
      → Reply (Unit {0}) × ToolGateway J
  unfolding emit
  record_tool name args result error error_type ms g = elim g.mode [
    | replaying ↦ (returned tt, g)
    | recording ↦ need_recorder g.recorder g (
      returned tt,
      emit (error_event name result error error_type ms) (
          emit (tool_call name args (hash.command_hash name args))
            (add_latency ms (count_tool_call g))),
    )
  ]
