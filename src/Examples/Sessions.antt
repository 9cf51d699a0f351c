-- ===== src/Examples/Sessions.antt =====
-- A session with the tool gateway, recorded and replayed.
use murmur_ai_harness.Prelude.{zero, suc, String, refl, true, [], ◌∷◌, Dict, lookup, pos}
use murmur_ai_harness.ToolGateway.{
  Hashes, Tool, gives, throws, call, record_call, emit, new_gateway, record_gateway,
}
use murmur_ai_harness.ToolGateway.Session.{Agent, finish, calls, Seen, result, error, drive}
use murmur_ai_harness.ToolGateway.Replay.{record-IsReplay, recorded, replayed, IsReplay}

-- JSON values are texts here.
abbrev by_text : Hashes String
by_text = record { command_hash = λ name args. args; result_hash = λ r. r }

-- A tool that fails the first time.
abbrev flaky : Tool String
flaky zero args = throws "busy" "IOError" (pos 1)
flaky (suc n) args = gives args (pos 2)

abbrev tools : Dict (Tool String)
tools = ("echo", flaky) ∷ []

-- Calls the tool, and once more if it fails.
abbrev retry : Seen String → Agent String
retry (result r) = finish
retry (error e) = calls "echo" "again" (λ o. finish)

abbrev agent : Agent String
agent = calls "echo" "once" retry

record-IsReplay_example :
    IsReplay
      (recorded by_text agent tools true)
      (replayed by_text agent (recorded by_text agent tools true))
unfolding drive call record_call emit record_gateway new_gateway lookup
record-IsReplay_example = record-IsReplay by_text agent tools true refl
