-- ===== src/Messages/Writes.antt =====
-- internal/anthropic/stream.go: what each step of the writer leaves of the open block, as a client reads it.
use ipsupport_airllm.Base.{
  ℕ, ◌+◌, ◌≡◌, refl, sym, subst, ◌∙◌, ◌⊎◌, inl, inr, Bool, true, false, ◌&&◌, some, List, [], ◌∷◌,
  Bool-cases, nat_eqb, if◌then◌else◌, arith,
}
use ipsupport_airllm.Base.Bytes.{Bytes}
use ipsupport_airllm.Messages.{
  no_block, text_block, tool_block, ToolCallDelta, Event, text_start, tool_start, text_delta,
  input_json_delta, content_block_stop, StreamWriter, Written, ◌then◌, after, event, is_open,
  is_text, is_tool, close_block, open_tool, ensure_tool_block, is_nil, tool_deltas, open_text,
}
use ipsupport_airllm.Messages.Reader.{
  Reader, waiting, between, in_text, in_tool, read, read_all, read_all-append,
}

-- A client that has read what was written is in that state.
abbrev pub At : Reader → StreamWriter → Type 0
At r s = read_all (some waiting) s.out ≡ some r

-- After a step that wrote all it had to, what it promises; after one that failed, a client has read
-- nothing that may not come.
abbrev pub Sound : (StreamWriter → Type 0) → Written → Type 0
Sound Q (true, s) = Q s
Sound Q (false, s) = (r : Reader) × At r s

pub then-Sound :
    (Q R : StreamWriter → Type 0) (p : Written) (f : StreamWriter → Written)
    → Sound Q p
    → ((s : StreamWriter) → Q s → Sound R (f s))
    → Sound R (p then f)
then-Sound Q R (true, s) f q k = k s q
then-Sound Q R (false, s) f q k = q

pub event-Sound :
    (Q : StreamWriter → Type 0) (e : Event) (s : StreamWriter) (r r' : Reader)
    → At r s
    → read r e ≡ some r'
    → (At r' (after e s) → Q (after e s))
    → Sound Q (event e s)
unfolding event
event-Sound Q e s r r' at step k = elim (Bool-cases (nat_eqb s.room 0)) [
  | inl broken ↦ rw broken (r, at)
  | inr fine ↦ rw fine (k (read_all-append (some waiting) s.out e ∙ rw at step))
]

pub Sound-if :
    (Q : StreamWriter → Type 0) (b : Bool) (p q : Written)
    → b ≡ true
    → Sound Q p
    → Sound Q (if b then p else q)
Sound-if Q true p q h sound = sound
Sound-if Q false p q h sound = absurd (ground arith)

pub Sound-else :
    (Q : StreamWriter → Type 0) (b : Bool) (p q : Written)
    → b ≡ false
    → Sound Q q
    → Sound Q (if b then p else q)
Sound-else Q true p q h sound = absurd (ground arith)
Sound-else Q false p q h sound = sound

-- The states of the writer, each with that of its reader
pub record Idle (s : StreamWriter) : Type 0 where
  pub started : s.started ≡ true
  pub kind : s.block_kind ≡ no_block
  pub at : At (between s.next_idx) s

pub record InText (s : StreamWriter) : Type 0 where
  pub started : s.started ≡ true
  pub kind : s.block_kind ≡ text_block
  pub at : At (in_text s.block_idx) s
  pub next : s.next_idx ≡ s.block_idx + 1

pub record InTool (s : StreamWriter) : Type 0 where
  pub started : s.started ≡ true
  pub kind : s.block_kind ≡ tool_block
  pub at : At (in_tool s.block_idx) s
  pub next : s.next_idx ≡ s.block_idx + 1

abbrev pub Running : StreamWriter → Type 0
Running s = Idle s ⊎ InText s ⊎ InTool s

pub record Fresh (s : StreamWriter) : Type 0 where
  pub started : s.started ≡ false
  pub kind : s.block_kind ≡ no_block
  pub at : At waiting s
  pub next : s.next_idx ≡ 0

same_index : (n : ℕ) → nat_eqb n n ≡ true
same_index n = ground arith

pub close_block-Sound : (s : StreamWriter) → Running s → Sound Idle (close_block s)
unfolding close_block read
close_block-Sound s (inl i) = Sound-else Idle (is_open s.block_kind) _ (true, s) (rw i.kind refl) i
close_block-Sound s (inr (inl t)) =
    Sound-if Idle (is_open s.block_kind) _ (true, s) (rw t.kind refl)
      (then-Sound (λ s'. (s'.started ≡ true) × At (between s'.next_idx) s') Idle
        (event (content_block_stop s.block_idx) s) _
        (event-Sound _ (content_block_stop s.block_idx) s (in_text s.block_idx)
          (between (s.block_idx + 1)) t.at (rw (same_index s.block_idx) refl)
          (λ at. (
            t.started,
            subst (λ n. At (between n) (after (content_block_stop s.block_idx) s)) (sym t.next) at,
          )))
        (λ s' q. record { started = q.0; kind = refl; at = q.1 }))
close_block-Sound s (inr (inr t)) =
    Sound-if Idle (is_open s.block_kind) _ (true, s) (rw t.kind refl)
      (then-Sound (λ s'. (s'.started ≡ true) × At (between s'.next_idx) s') Idle
        (event (content_block_stop s.block_idx) s) _
        (event-Sound _ (content_block_stop s.block_idx) s (in_tool s.block_idx)
          (between (s.block_idx + 1)) t.at (rw (same_index s.block_idx) refl)
          (λ at. (
            t.started,
            subst (λ n. At (between n) (after (content_block_stop s.block_idx) s)) (sym t.next) at,
          )))
        (λ s' q. record { started = q.0; kind = refl; at = q.1 }))

open_tool-Sound : (tc : ToolCallDelta) (s : StreamWriter) → Idle s → Sound InTool (open_tool tc s)
unfolding open_tool read
open_tool-Sound tc s i =
    then-Sound (λ s'. (s'.started ≡ true) × At (in_tool s'.next_idx) s') InTool
      (event (tool_start s.next_idx tc.id tc.name) s) _
      (event-Sound _ (tool_start s.next_idx tc.id tc.name) s (between s.next_idx)
        (in_tool s.next_idx) i.at (rw (same_index s.next_idx) refl) (λ at. (i.started, at)))
      (λ s' q. record { started = q.0; kind = refl; at = q.1; next = refl })

pub open_text-Sound : (s : StreamWriter) → Idle s → Sound InText (open_text s)
unfolding open_text read
open_text-Sound s i =
    then-Sound (λ s'. (s'.started ≡ true) × At (in_text s'.next_idx) s') InText
      (event (text_start s.next_idx) s) _
      (event-Sound _ (text_start s.next_idx) s (between s.next_idx) (in_text s.next_idx) i.at
        (rw (same_index s.next_idx) refl) (λ at. (i.started, at)))
      (λ s' q. record { started = q.0; kind = refl; at = q.1; next = refl })

is_tool-InTool : (s : StreamWriter) → Running s → is_tool s.block_kind ≡ true → InTool s
is_tool-InTool s (inl i) h =
    let shut : is_tool s.block_kind ≡ false = rw i.kind refl in absurd (ground arith)
is_tool-InTool s (inr (inl t)) h =
    let other : is_tool s.block_kind ≡ false = rw t.kind refl in absurd (ground arith)
is_tool-InTool s (inr (inr t)) h = t

pub is_text-InText : (s : StreamWriter) → Running s → is_text s.block_kind ≡ true → InText s
is_text-InText s (inl i) h =
    let shut : is_text s.block_kind ≡ false = rw i.kind refl in absurd (ground arith)
is_text-InText s (inr (inl t)) h = t
is_text-InText s (inr (inr t)) h =
    let other : is_text s.block_kind ≡ false = rw t.kind refl in absurd (ground arith)

ensure_tool_block-Sound :
    (tc : ToolCallDelta) (s : StreamWriter) → Running s → Sound InTool (ensure_tool_block tc s)
unfolding ensure_tool_block
ensure_tool_block-Sound tc s r =
    elim (Bool-cases (is_tool s.block_kind && nat_eqb s.block_tool tc.index)) [
      | inl same ↦ rw same (is_tool-InTool s r (ground arith))
      | inr new ↦ rw new (
          then-Sound Idle InTool (close_block s) (open_tool tc) (close_block-Sound s r)
            (open_tool-Sound tc))
    ]

input_json_delta-Sound :
    (json : Bytes) (s : StreamWriter)
    → InTool s
    → Sound Running (event (input_json_delta s.block_idx json) s)
unfolding read
input_json_delta-Sound json s t =
    event-Sound Running (input_json_delta s.block_idx json) s (in_tool s.block_idx)
      (in_tool s.block_idx) t.at (rw (same_index s.block_idx) refl)
      (λ at. inr (inr (record { started = t.started; kind = t.kind; at = at; next = t.next })))

pub text_delta-Sound :
    (text : Bytes) (s : StreamWriter)
    → InText s
    → Sound Running (event (text_delta s.block_idx text) s)
unfolding read
text_delta-Sound text s t =
    event-Sound Running (text_delta s.block_idx text) s (in_text s.block_idx) (in_text s.block_idx)
      t.at (rw (same_index s.block_idx) refl)
      (λ at. inr (inl (record { started = t.started; kind = t.kind; at = at; next = t.next })))

pub tool_deltas-Sound :
    (tcs : List ToolCallDelta) (s : StreamWriter) → Running s → Sound Running (tool_deltas tcs s)
unfolding tool_deltas
tool_deltas-Sound [] s r = r
tool_deltas-Sound (tc ∷ tcs) s r =
    then-Sound Running Running
      (ensure_tool_block tc s then (λ s'.
        if is_nil tc.arguments
        then (true, s')
        else event (input_json_delta s'.block_idx tc.arguments) s'))
      (tool_deltas tcs)
      (then-Sound InTool Running (ensure_tool_block tc s) _ (ensure_tool_block-Sound tc s r)
        (λ s' t. elim (Bool-cases (is_nil tc.arguments)) [
          | inl head ↦ rw head (inr (inr t))
          | inr more ↦ rw more (input_json_delta-Sound tc.arguments s' t)
        ]))
      (tool_deltas-Sound tcs)
