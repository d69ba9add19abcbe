-- ===== src/Kernel/Chat.antt =====
-- pkg/kernel/kernel.go: the two ways to drive the handler of an agent, over the chunks that it sends and whether it then
-- fails. A send on a channel that nobody reads any more waits for good once the buffer is full.
pub mod Same
mod Tests
use soyaos.Prelude.{
  ℕ, Bool, true, false, List, [], ◌∷◌, ◌++◌, Option, none, some, Bytes, Result, ok, err, ltb,
  length, if◌then◌else◌,
}
use soyaos.Store.{Store}
use soyaos.State.{Codec}
use soyaos.Soyapack.{Unicode}
use soyaos.Kernel.Agents.{Agent, Agents, lookup, model_id}
use soyaos.Kernel.Rows.{Workbook, Identity, KernelError, Done, persist_agent_completion}

pub record Chunk : Type 0 where
  pub delta : Bytes
  pub done : Bool

-- What a handler sends, and whether it returns an error
pub record Answer : Type 0 where
  pub chunks : List Chunk
  pub failed : Bool

abbrev pub Handler : Type 0 → Type 0
Handler R = Identity → R → Answer

pub data ChatError : Type 0 where
  unknown_agent handler_failed : ChatError
  not_persisted : KernelError → ChatError

pub record Response : Type 0 where
  pub model : Bytes
  pub content : Bytes

-- The loop of `ChatCompletion`, which ends at the first chunk that is done, and the chunks that it leaves
unfoldable pub collected : List Chunk → Bytes
collected [] = []
collected (c ∷ cs) = let rest = collected cs in if c.done then [] else c.delta ++ rest

unfoldable pub left_over : List Chunk → List Chunk
left_over [] = []
left_over (c ∷ cs) = let rest = left_over cs in if c.done then cs else rest

-- The loop of `ChatCompletionStream`: what it writes, and the last chunk that is done
unfoldable pub forwarded : List Chunk → List Chunk
forwarded [] = []
forwarded (c ∷ cs) = let rest = forwarded cs in if c.done then rest else c ∷ rest

abbrev pub later_done : Option Chunk → Option Chunk → Option Chunk
later_done (some c) o = some c
later_done none o = o

unfoldable pub last_done : List Chunk → Option Chunk
last_done [] = none
last_done (c ∷ cs) = later_done (last_done cs) (if c.done then some c else none)

-- The texts of chunks, one behind the other
unfoldable pub text_of : List Chunk → Bytes
text_of [] = []
text_of (c ∷ cs) = c.delta ++ text_of cs

abbrev pub with_done : Option Chunk → List Chunk
with_done none = []
with_done (some c) = c ∷ []

-- The capacity of the channel
abbrev pub buffer : ℕ
buffer = 8

module _ (U : Unicode) (S : Store) (J : Codec) (W : Workbook) where
  abbrev pub Completed : Type 0
  Completed = Result ChatError Response × S.Db

  abbrev pub responded : Bytes → Bytes → Done U S J W → Completed
  responded model content (ok _, d) = (ok (record { model = model; content = content }), d)
  responded model content (err e, d) = (err (not_persisted e), d)

  abbrev pub Streamed : Type 0
  Streamed = List Chunk × (Result ChatError (Unit {0}) × S.Db)

  abbrev pub closed : List Chunk → Option Chunk → Done U S J W → Streamed
  closed out ended (ok _, d) = (out ++ with_done ended, (ok tt, d))
  closed out ended (err e, d) = (out, (err (not_persisted e), d))

  module _ {R : Type 0} (now : ℕ) where
    unfoldable pub complete_with : Agent (Handler R) → Identity → Answer → S.Db → Option Completed
    unfolding collected left_over
    complete_with agent id answer d =
        if ltb buffer (length (left_over answer.chunks))
        then none
        else if answer.failed
        then some (err handler_failed, d)
        else some (
            responded (model_id agent) (collected answer.chunks)
              (persist_agent_completion U S J W now agent id (collected answer.chunks) d))

    abbrev pub complete_by : Option (Agent (Handler R)) → Identity → R → S.Db → Option Completed
    complete_by none id req d = some (err unknown_agent, d)
    complete_by (some agent) id req d = complete_with agent id (agent.handler id req) d

    -- `Kernel.ChatCompletion`: `none` where it does not return
    unfoldable pub chat_completion :
        Agents (Handler R) → Bytes → Identity → R → S.Db → Option Completed
    unfolding complete_with
    chat_completion agents model id req d = complete_by (lookup model agents) id req d

    unfoldable pub stream_with : Agent (Handler R) → Identity → Answer → S.Db → Streamed
    unfolding forwarded last_done text_of
    stream_with agent id answer d =
        let out = forwarded answer.chunks in
        if answer.failed
        then (out, (err handler_failed, d))
        else closed out (last_done answer.chunks)
            (persist_agent_completion U S J W now agent id (text_of out) d)

    abbrev pub stream_by : Option (Agent (Handler R)) → Identity → R → S.Db → Streamed
    stream_by none id req d = ([], (err unknown_agent, d))
    stream_by (some agent) id req d = stream_with agent id (agent.handler id req) d

    -- `Kernel.ChatCompletionStream`: what it writes to the caller, its result, and the state after it
    unfoldable pub chat_completion_stream :
        Agents (Handler R) → Bytes → Identity → R → S.Db → Streamed
    unfolding stream_with
    chat_completion_stream agents model id req d = stream_by (lookup model agents) id req d
