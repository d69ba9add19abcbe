-- ===== src/Kernel/Chat/Tests.antt =====
-- The theorem about pkg/kernel/kernel.go on an agent that echoes, and a handler that sends on after it is done.
use soyaos.Prelude.{◌≡◌, refl, true, false, [], ◌∷◌, none, some, Bytes, codes, inr}
use soyaos.Prelude.Dict.{lookup_key, set_key}
use soyaos.Store.Memory.{memory}
use soyaos.State.PlainCodec.{plain_codec}
use soyaos.Soyapack.{Unicode}
use soyaos.Kernel.Agents.{Agent, register, lookup, model_id}
use soyaos.Kernel.Rows.{Identity}
use soyaos.Kernel.Rows.PlainWorkbook.{plain_workbook}
use soyaos.Kernel.Chat.{Chunk, Handler, chat_completion, chat_completion_stream}
use soyaos.Kernel.Chat.Same.{gathered, chat_completion-stream}

abbrev plain : Unicode
plain = record { trim_space = λ s. s; fields = λ s. s ∷ []; to_lower = λ s. s; rune_count = λ s. 0 }

abbrev ended : Chunk
ended = record { delta = []; done = true }

abbrev echo : Agent (Handler Bytes)
echo = record {
  slug = codes "echo";
  handler = λ id req. record {
    chunks =
        record { delta = codes "echo: "; done = false }
        ∷ (record { delta = req; done = false } ∷ (ended ∷ []));
    failed = false;
  };
  manifest = none;
}

abbrev alice : Identity
alice = record { subject = codes "alice"; key_id = [] }

chat_completion-stream_example :
    let s =
      chat_completion_stream plain memory plain_codec
        (plain_workbook (record { original_request = []; sheets = [] }))
        5
        (register echo [])
        (codes "echo")
        alice
        (codes "hi")
        [] in
    chat_completion plain memory plain_codec
      (plain_workbook (record { original_request = []; sheets = [] }))
      5
      (register echo [])
      (codes "echo")
      alice
      (codes "hi")
      []
    ≡ some (gathered (model_id echo) s.0 s.1.0, s.1.1)
unfolding lookup lookup_key register set_key
chat_completion-stream_example =
    chat_completion-stream plain memory plain_codec
      (plain_workbook (record { original_request = []; sheets = [] })) 5 (register echo [])
      (codes "echo") echo alice (codes "hi") [] refl (refl, (refl, inr refl))

abbrev chatty : Agent (Handler Bytes)
chatty = record {
  slug = codes "chatty";
  handler = λ id req. record {
    chunks = ended ∷ ended ∷ ended ∷ ended ∷ ended ∷ ended ∷ ended ∷ ended ∷ ended ∷ ended ∷ [];
    failed = false;
  };
  manifest = none;
}

-- Nine chunks behind the one that is done do not fit into the channel.
chat_completion_blocked :
    chat_completion plain memory plain_codec
      (plain_workbook (record { original_request = []; sheets = [] }))
      5
      (register chatty [])
      (codes "chatty")
      alice
      (codes "hi")
      []
    ≡ none
unfolding chat_completion lookup lookup_key register set_key
chat_completion_blocked = refl
