-- ===== src/ToolGateway/Replay.antt =====
-- Recording a session and replaying it.
use murmur_ai_harness.Prelude.{
  String, ◌≡◌, refl, sym, ap, ◌∙◌, inl, inr, Bool, Option, none, some, List, [], ◌∷◌, ◌++◌, map,
  arith, if◌then◌else◌, Option-cases, drop, select, Dict, lookup, ℤ,
}
use mathlib.Core.List.{append_assoc, append-nil}
use mathlib.Core.Path.{subst}
use murmur_ai_harness.Core.Events.{Payload, model_call, tool_call, Event, EventRecorder, kind_of}
use murmur_ai_harness.ToolGateway.{
  Hashes, GatewayFault, Reply, returned, raised, not_registered, ToolRun, gives, throws, Tool,
  ToolGateway, call, model, is_replayed, record_gateway, replay_gateway, new_gateway, find_tool,
}
use murmur_ai_harness.ToolGateway.Session.{
  Seen, Agent, finish, calls, asks, observe, Session, seen_first, drive, Writes, Waits,
}
use murmur_ai_harness.ToolGateway.Steps.{
  model-Waits, model-Writes, outcome, seen_of, call-Writes, outcome-Waits, call-recording,
}

module _ {J : Type 0} (hash : Hashes J) where
  -- The replay of what a session wrote.
  record Replayable (a : Agent J) (g : ToolGateway J) (ps : List (Payload J)) : Type 0 where
    pub new : List (Payload J)
    writes : Writes (drive hash a g).gateway (ps ++ new)
    only : select is_replayed new ≡ new
    replays :
        (p : ToolGateway J) (post : List (Payload J))
        → Waits p (new ++ post)
        → ((drive hash a p).answers ≡ (drive hash a g).answers)
          × ((drive hash a p).ended ≡ none)
          × Waits (drive hash a p).gateway post

  after_call :
      (name : String) (args : J) (k : Seen J → Agent J) (o : Seen J) (g : ToolGateway J)
      → observe (call hash name args g).0 ≡ returned o
      → drive hash (calls name args k) g ≡ seen_first o (drive hash (k o) (call hash name args g).1)
  unfolding drive
  after_call name args k o g e = rw (e, drive) refl

  after_fault :
      (name : String) (args : J) (k : Seen J → Agent J) (f : GatewayFault) (g : ToolGateway J)
      → observe (call hash name args g).0 ≡ raised f
      → (drive hash (calls name args k) g).ended ≡ some f
  unfolding drive
  after_fault name args k f g e = rw (e, drive) refl

  after_model :
      (name : String) (input output : ℤ) (reason : String) (ms : ℤ) (content : Option String)
      (k : Agent J) (g : ToolGateway J)
      → (model name input output reason ms content g).0 ≡ returned tt
      → drive hash (asks name input output reason ms content k) g
        ≡ drive hash k (model name input output reason ms content g).1
  unfolding drive
  after_model name input output reason ms content k g e = rw (e, drive) refl

  only_calls :
      (name : String) (args : J) (h : String) (r : ToolRun J) (new : List (Payload J))
      → select is_replayed new ≡ new
      → select is_replayed (tool_call name args h ∷ outcome hash name r ∷ new)
        ≡ tool_call name args h ∷ outcome hash name r ∷ new
  unfolding select is_replayed kind_of outcome
  only_calls name args h (gives x ms) new e =
      ap (λ l. tool_call name args h ∷ outcome hash name (gives x ms) ∷ l) e
  only_calls name args h (throws x y ms) new e =
      ap (λ l. tool_call name args h ∷ outcome hash name (throws x y ms) ∷ l) e

  call-Replayable :
      (name : String) (args : J) (k : Seen J → Agent J) (tool : Tool J) (g : ToolGateway J)
      (ps : List (Payload J))
      → Writes g ps
      → lookup name g.tools ≡ some tool
      → Replayable (k (seen_of hash (tool g.runs args))) (call hash name args g).1 (
          ps
          ++ tool_call name args (hash.command_hash name args)
            ∷ outcome hash name (tool g.runs args)
            ∷ [])
      → Replayable (calls name args k) g ps
  call-Replayable name args k tool g ps w found r =
      let o = seen_of hash (tool g.runs args) in
      let (seen, w') = call-Writes hash name args tool ps g w found in
      let live = after_call name args k o g seen in
      record {
        new =
            tool_call name args (hash.command_hash name args)
            ∷ outcome hash name (tool g.runs args)
            ∷ r.new;
        writes = rw live (
            subst (λ l. Writes (drive hash (k o) (call hash name args g).1).gateway l)
              (append_assoc ps _ _) r.writes);
        only = only_calls name args _ (tool g.runs args) r.new r.only;
        replays = λ p post waits.
            let (seen', w'') = outcome-Waits hash name args (tool g.runs args) _ p waits in
            let again = after_call name args k o p seen' in
            let (same, fine, rest) = r.replays _ post w'' in
            rw (live, again) (ap (λ l. o ∷ l) same, fine, rest);
      }

  model-Replayable :
      (name : String) (input output : ℤ) (reason : String) (ms : ℤ) (content : Option String)
      (k : Agent J) (g : ToolGateway J) (ps : List (Payload J))
      → Writes g ps
      → Replayable k (model name input output reason ms content g).1 (
          ps
          ++ model_call name input output reason ms (if g.capture_content then content else none)
            ∷ [])
      → Replayable (asks name input output reason ms content k) g ps
  unfolding select is_replayed kind_of
  model-Replayable name input output reason ms content k g ps w r =
      let e =
        model_call name input output reason ms (if g.capture_content then content else none) in
      let (ok, w') = model-Writes name input output reason ms content ps g w in
      let live = after_model name input output reason ms content k g ok in
      record {
        new = e ∷ r.new;
        writes = rw live (
            subst
              (λ l. Writes (drive hash k (model name input output reason ms content g).1).gateway l)
              (append_assoc ps _ _) r.writes);
        only = ap (λ l. e ∷ l) r.only;
        replays = λ p post waits.
            let (ok', w'') = model-Waits name input output reason ms content _ _ p waits in
            let again = after_model name input output reason ms content k p ok' in
            rw (live, again) (r.replays _ post w'');
      }

  drive-Replayable :
      (a : Agent J) (g : ToolGateway J) (ps : List (Payload J))
      → Writes g ps
      → (drive hash a g).ended ≡ none
      → Replayable a g ps
  unfolding drive select
  drive-Replayable finish g ps w h = record {
    new = [];
    writes = rw (append-nil ps) w;
    only = refl;
    replays = λ p post waits. (refl, refl, waits);
  }
  drive-Replayable (calls name args k) g ps w h = elim (Option-cases (lookup name g.tools)) [
    | inl none' ↦
        let gone =
          call-recording hash name args ps g w
          ∙ ap (λ (t : Option (Tool J)). find_tool hash name t args g) none' in
        let stuck =
          after_fault name args k (not_registered name) g
            (ap (λ (q : Reply J × ToolGateway J). observe q.0) gone) in
        let bad = sym stuck ∙ h in absurd (ground arith)
    | inr (tool, found) ↦
        let (seen, w') = call-Writes hash name args tool ps g w found in
        call-Replayable name args k tool g ps w found (
          drive-Replayable (k (seen_of hash (tool g.runs args))) _ _ w'
            (sym (ap (λ (s : Session J). s.ended) (after_call name args k _ g seen)) ∙ h))
  ]
  drive-Replayable (asks name input output reason ms content k) g ps w h =
      let (ok, w') = model-Writes name input output reason ms content ps g w in
      let step = after_model name input output reason ms content k g ok in
      model-Replayable name input output reason ms content k g ps w
        (drive-Replayable k _ _ w' (sym (ap (λ (s : Session J). s.ended) step) ∙ h))

-- The payloads that a gateway has written.
abbrev pub written_by : {J : Type 0} → ToolGateway J → List (Payload J)
written_by {J = J} g = elim g.recorder [
  | none ↦ []
  | some r ↦ map (λ (e : Event J). e.payload) r.stored
]

abbrev pub empty_recorder : (J : Type 0) → EventRecorder J
empty_recorder J = record { trajectory_id = none; seq = 0; stored = [] }

abbrev pub recorded : {J : Type 0} → Hashes J → Agent J → Dict (Tool J) → Bool → Session J
recorded {J = J} hash a tools capture =
    drive hash a (record_gateway (empty_recorder J) tools capture)

abbrev pub replayed : {J : Type 0} → Hashes J → Agent J → Session J → Session J
replayed hash a live = drive hash a (replay_gateway (written_by live.gateway))

-- The replay gave the same answers, ended without a fault, and read all its events.
abbrev pub IsReplay : {J : Type 0} → Session J → Session J → Type 0
IsReplay live again =
    (again.answers ≡ live.answers)
    × (again.ended ≡ none)
    × (drop again.gateway.replay_index again.gateway.replay_events ≡ [])

-- An agent whose recorded session ran to its end gets, in the replay of what the gateway wrote,
-- the same answers: each result, and the text of each error. The replay ends without a fault, and
-- every event that it reads is used up.
pub record-IsReplay :
    {J : Type 0} (hash : Hashes J) (a : Agent J) (tools : Dict (Tool J)) (capture : Bool)
    → (recorded hash a tools capture).ended ≡ none
    → IsReplay (recorded hash a tools capture) (replayed hash a (recorded hash a tools capture))
unfolding record_gateway replay_gateway new_gateway
record-IsReplay {J = J} hash a tools capture h =
    let r =
      drive-Replayable hash a (record_gateway (empty_recorder J) tools capture) []
        (record { recorder = empty_recorder J; records = refl; kept = refl; written = refl }) h in
    let e =
      ap
        (λ (o : Option (EventRecorder J)). elim o [
          | none ↦ []
          | some r ↦ map (λ (e : Event J). e.payload) r.stored
        ])
        r.writes.kept
      ∙ r.writes.written in
    let (same, fine, rest) =
      r.replays (replay_gateway (written_by (recorded hash a tools capture).gateway)) [] (record {
        replays = refl;
        ahead = ap (select is_replayed) e ∙ r.only ∙ sym (append-nil r.new);
      }) in
    (same, fine, rest.ahead)
