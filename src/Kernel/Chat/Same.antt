-- ===== src/Kernel/Chat/Same.antt =====
-- `ChatCompletion` and `ChatCompletionStream` of pkg/kernel/kernel.go agree on handlers that are done with their last chunk.
use soyaos.Prelude.{
  ℕ, ◌≡◌, refl, sym, ◌∙◌, ap, ◌⊎◌, inl, inr, false, List, [], ◌∷◌, ◌++◌, Option, none, some, Bytes,
  Result, ok, err, ltb, length, Bool-cases,
}
use soyaos.Store.{Store}
use soyaos.State.{Codec}
use soyaos.Soyapack.{Unicode}
use soyaos.Kernel.Agents.{Agent, Agents, lookup, model_id}
use soyaos.Kernel.Rows.{Workbook, Identity, Done, persist_agent_completion}
use soyaos.Kernel.Chat.{
  Chunk, Answer, Handler, ChatError, Response, collected, left_over, forwarded, last_done,
  later_done, text_of, with_done, responded, complete_with, chat_completion, closed, stream_with,
  chat_completion_stream,
}

-- No chunk stands behind one that is done, and a chunk that is done has no text.
abbrev pub EndsWhenDone : List Chunk → Type 0
EndsWhenDone [] = Unit
EndsWhenDone (c ∷ []) = (c.done ≡ false) ⊎ (c.delta ≡ [])
EndsWhenDone (c ∷ c' ∷ cs) = (c.done ≡ false) × EndsWhenDone (c' ∷ cs)

nothing_left : (cs : List Chunk) → EndsWhenDone cs → left_over cs ≡ []
unfolding left_over
nothing_left [] h = refl
nothing_left (c ∷ []) h = elim (Bool-cases c.done) [ inl e ↦ rw e refl | inr e ↦ rw e refl ]
nothing_left (c ∷ c' ∷ cs) h = rw (h.0) (nothing_left (c' ∷ cs) h.1)

collected-forwarded : (cs : List Chunk) → EndsWhenDone cs → text_of (forwarded cs) ≡ collected cs
unfolding collected forwarded text_of
collected-forwarded [] h = refl
collected-forwarded (c ∷ []) h = elim (Bool-cases c.done) [ inl e ↦ rw e refl | inr e ↦ rw e refl ]
collected-forwarded (c ∷ c' ∷ cs) h =
    rw (h.0) (ap (λ s. c.delta ++ s) (collected-forwarded (c' ∷ cs) h.1))

-- The response that a stream amounts to
abbrev pub gathered : Bytes → List Chunk → Result ChatError (Unit {0}) → Result ChatError Response
gathered model out (ok _) = ok (record { model = model; content = text_of out })
gathered model out (err e) = err e

text_of_closed :
    (cs : List Chunk)
    → EndsWhenDone cs
    → text_of (forwarded cs ++ with_done (last_done cs)) ≡ collected cs
unfolding collected forwarded text_of last_done
text_of_closed [] h = refl
text_of_closed (c ∷ []) (inl e) = rw e refl
text_of_closed (c ∷ []) (inr e) = elim (Bool-cases c.done) [
  | inl f ↦ rw f (rw e refl)
  | inr f ↦ rw f refl
]
text_of_closed (c ∷ c' ∷ cs) h = rw (h.0) (
    ap (λ o. text_of ((c ∷ forwarded (c' ∷ cs)) ++ with_done o)) (not_done (last_done (c' ∷ cs)))
    ∙ ap (λ s. c.delta ++ s) (text_of_closed (c' ∷ cs) h.1))
  where
    not_done : (o : Option Chunk) → later_done o none ≡ o
    not_done none = refl
    not_done (some x) = refl

same_persisted :
    (U : Unicode) (S : Store) (J : Codec) (W : Workbook) (model content : Bytes) (out : List Chunk)
    (ended : Option Chunk) (r : Done U S J W)
    → text_of (out ++ with_done ended) ≡ content
    → some (responded U S J W model content r)
      ≡ some (
        gathered model (closed U S J W out ended r).0 (closed U S J W out ended r).1.0,
        (closed U S J W out ended r).1.1,
      )
same_persisted U S J W model content out ended (ok u, d) e =
    ap (λ c. some (ok (record { model = model; content = c }), d)) (sym e)
same_persisted U S J W model content out ended (err x, d) e = refl

module _ (U : Unicode) (S : Store) (J : Codec) (W : Workbook) {R : Type 0} (now : ℕ) where
  same_answer :
      (agent : Agent (Handler R)) (id : Identity) (answer : Answer) (d : S.Db)
      → EndsWhenDone answer.chunks
      → complete_with U S J W now agent id answer d
        ≡ some (
          gathered
              (model_id agent)
              (stream_with U S J W now agent id answer d).0
              (stream_with U S J W now agent id answer d).1.0,
          (stream_with U S J W now agent id answer d).1.1,
        )
  unfolding complete_with stream_with
  same_answer agent id answer d h =
      let few : ltb 8 (length (left_over answer.chunks)) ≡ false =
        rw (nothing_left answer.chunks h) refl in
      rw few (elim (Bool-cases answer.failed) [
        | inl e ↦ rw e refl
        | inr e ↦ rw e (
            rw (collected-forwarded answer.chunks h) (
              same_persisted U S J W (model_id agent) (collected answer.chunks)
                (forwarded answer.chunks) (last_done answer.chunks)
                (persist_agent_completion U S J W now agent id (collected answer.chunks) d)
                (text_of_closed answer.chunks h)))
      ])

  -- For a registered agent whose handler sends nothing after a chunk that is done, and no text in
  -- that one, `ChatCompletion` returns: what it returns is the text that `ChatCompletionStream`
  -- writes, or the same error, and both leave the same state.
  pub chat_completion-stream :
      (agents : Agents (Handler R)) (model : Bytes) (agent : Agent (Handler R)) (id : Identity)
      (req : R) (d : S.Db)
      → lookup model agents ≡ some agent
      → EndsWhenDone (agent.handler id req).chunks
      → let s = chat_completion_stream U S J W now agents model id req d in
        chat_completion U S J W now agents model id req d
        ≡ some (gathered (model_id agent) s.0 s.1.0, s.1.1)
  unfolding chat_completion chat_completion_stream
  chat_completion-stream agents model agent id req d e h =
      rw e (same_answer agent id (agent.handler id req) d h)
