-- ===== src/ToolGateway/Session.antt =====
-- An agent that makes its next call by what the earlier ones gave: a program against the gateway.
use murmur_ai_harness.Prelude.{String, ◌≡◌, Option, none, some, List, [], ◌∷◌, map, drop, ℤ}
use murmur_ai_harness.Core.Events.{Payload, Event, EventRecorder}
use murmur_ai_harness.ToolGateway.{
  Hashes, recording, replaying, GatewayFault, Reply, returned, raised, tool_failed,
  replayed_tool_error, ToolGateway, call, model,
}

-- What an agent sees of a tool call: its result, or the text of its error.
pub data Seen (J : Type 0) : Type 0 where
  result : J → Seen J
  error : String → Seen J

pub data Agent (J : Type 0) : Type 0 where
  finish : Agent J
  calls : (name : String) (args : J) → (Seen J → Agent J) → Agent J
  asks :
      (name : String) (input output : ℤ) (reason : String) (ms : ℤ) (content : Option String)
      → Agent J
      → Agent J

-- An exception other than that of the tool ends the session.
abbrev pub observe : {J : Type 0} → Reply J → Reply (Seen J)
observe (returned r) = returned (result r)
observe (raised (tool_failed e t)) = returned (error e)
observe (raised (replayed_tool_error e)) = returned (error e)
observe (raised e) = raised e

pub record Session (J : Type 0) : Type 0 where
  pub answers : List (Seen J)
  pub ended : Option GatewayFault
  pub gateway : ToolGateway J

abbrev pub seen_first : {J : Type 0} → Seen J → Session J → Session J
seen_first o s = record s { answers = o ∷ s.answers }

unfoldable pub drive : {J : Type 0} → Hashes J → Agent J → ToolGateway J → Session J
unfolding call model
drive hash finish g = record { answers = []; ended = none; gateway = g }
drive hash (calls name args k) g =
    let (reply, g') = call hash name args g in
    elim (observe reply) [
      | raised e ↦ record { answers = []; ended = some e; gateway = g' }
      | returned o ↦ seen_first o (drive hash (k o) g')
    ]
drive hash (asks name input output reason ms content k) g =
    let (reply, g') = model name input output reason ms content g in
    elim reply [
      | raised e ↦ record { answers = []; ended = some e; gateway = g' }
      | returned _ ↦ drive hash k g'
    ]

-- In record mode, with these payloads written.
pub record Writes {J : Type 0} (g : ToolGateway J) (ps : List (Payload J)) : Type 0 where
  pub recorder : EventRecorder J
  pub records : g.mode ≡ recording
  pub kept : g.recorder ≡ some recorder
  pub written : map (λ (e : Event J). e.payload) recorder.stored ≡ ps

-- In replay mode, with these payloads still to come.
pub record Waits {J : Type 0} (g : ToolGateway J) (ps : List (Payload J)) : Type 0 where
  pub replays : g.mode ≡ replaying
  pub ahead : drop g.replay_index g.replay_events ≡ ps
