-- ===== src/Messages/Accepts.antt =====
-- What the writer writes is what a client reads as one message.
use ipsupport_airllm.Base.{
  ℕ, ◌≡◌, refl, sym, subst, ◌⊎◌, inl, inr, true, false, not, Option, none, some, List, [], ◌∷◌,
  ◌++◌, All, Bool-cases, ltb, if◌then◌else◌, arith,
}
use ipsupport_airllm.Base.Bytes.{Bytes}
use ipsupport_airllm.Messages.{
  no_block, Usage, ToolCallDelta, StreamChunk, message_start, text_delta, message_delta,
  message_stop, StreamWriter, new_stream_writer, Written, ◌then◌, after, event, is_text,
  close_block, is_nil, tool_deltas, open_text, write_text, write_usage, write_start, dispatch,
  note_stop, stop_reason, chunk, chunks,
}
use ipsupport_airllm.Messages.Reader.{waiting, between, told, done, read, read_all}
use ipsupport_airllm.Messages.Writes.{
  At, Sound, Idle, InText, Running, Fresh, then-Sound, event-Sound, Sound-if, Sound-else,
  close_block-Sound, open_text-Sound, is_text-InText, text_delta-Sound, tool_deltas-Sound,
}

write_text-Sound :
    (content : Bytes) (s : StreamWriter) → Running s → Sound Running (write_text content s)
unfolding write_text
write_text-Sound content s r =
    then-Sound InText Running
      (if is_text s.block_kind then (true, s) else close_block s then open_text)
      (λ s'. event (text_delta s'.block_idx content) s')
      (elim (Bool-cases (is_text s.block_kind)) [
        | inl here ↦ rw here (is_text-InText s r here)
        | inr other ↦ rw other (
            then-Sound Idle InText (close_block s) open_text (close_block-Sound s r)
              open_text-Sound)
      ])
      (text_delta-Sound content)

write_usage-Sound : (u : Usage) (s : StreamWriter) → Running s → Sound (At done) (write_usage u s)
unfolding write_usage read
write_usage-Sound u s r =
    let told_as = if ltb 0 u.prompt_tokens then some u.prompt_tokens else none in
    then-Sound (At told) (At done)
      (close_block s then (λ s'. event (message_delta s'.stop u.completion_tokens told_as) s'))
      (event message_stop)
      (then-Sound Idle (At told) (close_block s) _ (close_block-Sound s r) (λ s' i.
        event-Sound (At told) (message_delta s'.stop u.completion_tokens told_as) s'
          (between s'.next_idx) told i.at refl (λ at. at)))
      (λ s' at. event-Sound (At done) message_stop s' told done at refl (λ end. end))

-- Before a chunk: no event yet, or blocks in progress
abbrev pub Ready : StreamWriter → Type 0
Ready s = Fresh s ⊎ Running s

write_start-Sound : (s : StreamWriter) → Ready s → Sound Running (write_start s)
unfolding write_start read
write_start-Sound s (inl f) =
    Sound-else Running s.started (true, s) _ f.started
      (then-Sound (λ s'. (s'.block_kind ≡ no_block) × At (between s'.next_idx) s') Running
        (event (message_start s.input_tokens) s) _
        (event-Sound _ (message_start s.input_tokens) s waiting (between 0) f.at refl (λ at. (
          f.kind,
          subst (λ n. At (between n) (after (message_start s.input_tokens) s)) (sym f.next) at,
        )))
        (λ s' q. inl (record { started = refl; kind = q.0; at = q.1 })))
write_start-Sound s (inr r) =
    let on : s.started ≡ true = running s r in Sound-if Running s.started (true, s) _ on r
  where
    running : (s : StreamWriter) → Running s → s.started ≡ true
    running s (inl i) = i.started
    running s (inr (inl t)) = t.started
    running s (inr (inr t)) = t.started

note_stop-Running : (c : StreamChunk) (s : StreamWriter) → Running s → Running (note_stop c s)
unfolding note_stop
note_stop-Running c s r = elim (Bool-cases (is_nil c.finish_reason)) [
  | inl no_reason ↦ rw no_reason r
  | inr reason ↦ rw reason (noted s r)
]
  where
    noted :
        (s : StreamWriter) → Running s → Running (record s { stop = stop_reason c.finish_reason })
    noted s (inl i) = inl (record { started = i.started; kind = i.kind; at = i.at })
    noted s (inr (inl t)) =
        inr (inl (record { started = t.started; kind = t.kind; at = t.at; next = t.next }))
    noted s (inr (inr t)) =
        inr (inr (record { started = t.started; kind = t.kind; at = t.at; next = t.next }))

to_running : (p : Written) → Sound Idle p → Sound Running p
to_running (true, s) i = inl i
to_running (false, s) read_so_far = read_so_far

dispatch-Sound :
    (c : StreamChunk) (s : StreamWriter) → c.usage ≡ none → Running s → Sound Running (dispatch c s)
unfolding dispatch
dispatch-Sound c s no_usage r = by_calls c.tool_calls c.usage no_usage
  where
    by_calls :
        (tcs : List ToolCallDelta) (u : Option Usage)
        → u ≡ none
        → Sound Running (elim tcs as (λ _. Written) [
          | tc ∷ tcs ↦ tool_deltas (tc ∷ tcs) s
          | [] ↦
              if not (is_nil c.content)
              then write_text c.content s
              else if not (is_nil c.finish_reason)
              then close_block s
              else elim u as (λ _. Written) [ some u ↦ write_usage u s | none ↦ (true, s) ]
        ])
    by_calls (tc ∷ tcs) u h = tool_deltas-Sound (tc ∷ tcs) s r
    by_calls [] (some u) h = absurd (ground arith)
    by_calls [] none h = elim (Bool-cases (is_nil c.content)) [
      | inr text ↦ rw text (write_text-Sound c.content s r)
      | inl no_text ↦ elim (Bool-cases (is_nil c.finish_reason)) [
        | inr reason ↦ rw (no_text, reason) (to_running (close_block s) (close_block-Sound s r))
        | inl no_reason ↦ rw (no_text, no_reason) r
      ]
    ]

-- The chunk that ends a stream, with the usage alone
abbrev pub usage_chunk : Usage → StreamChunk
usage_chunk u = record { content = []; tool_calls = []; finish_reason = []; usage = some u }

chunks-Sound :
    (cs : List StreamChunk) (u : Usage) (s : StreamWriter)
    → All (λ c. c.usage ≡ none) cs
    → Ready s
    → Sound (At done) (chunks (cs ++ usage_chunk u ∷ []) s)
unfolding chunks chunk dispatch note_stop
chunks-Sound [] u s h ready =
    then-Sound (At done) (At done) (chunk (usage_chunk u) s) _
      (then-Sound Running (At done) (write_start s) _ (write_start-Sound s ready)
        (λ s' r. write_usage-Sound u s' r))
      (λ s' at. at)
chunks-Sound (c ∷ cs) u s h ready =
    then-Sound Running (At done) (chunk c s) (chunks (cs ++ usage_chunk u ∷ []))
      (then-Sound Running Running (write_start s) _ (write_start-Sound s ready)
        (λ s' r. dispatch-Sound c (note_stop c s') h.0 (note_stop-Running c s' r)))
      (λ s' r. chunks-Sound cs u s' h.1 (inr r))

-- Whatever chunks a stream has before the one with its usage, a client reads what is written of it by
-- the rules of the protocol, also where the connection fails before all is written; and when all is,
-- the client has read one whole message, whose blocks are all closed.
pub chunks-Accepted :
    (cs : List StreamChunk) (u : Usage) (input_tokens room : ℕ)
    → All (λ c. c.usage ≡ none) cs
    → Sound (At done) (chunks (cs ++ usage_chunk u ∷ []) (new_stream_writer input_tokens room))
unfolding read_all
chunks-Accepted cs u input_tokens room h =
    chunks-Sound cs u (new_stream_writer input_tokens room) h
      (inl (record { started = refl; kind = refl; at = refl; next = refl }))
