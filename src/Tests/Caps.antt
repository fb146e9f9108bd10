-- ===== src/Tests/Caps.antt =====
-- Runs of the caps on a key's use.
use ipsupport_airllm.Base.{
  ℕ, ◌+◌, ◌*◌, ◌/◌, ◌≤◌, ◌≡◌, refl, Bool, true, false, Option, none, some, List, [], ◌∷◌, All,
  arith,
}
use mathlib.Core.List.{Permᴰ}
use ipsupport_airllm.Base.Clock.{Time, second, minute}
use ipsupport_airllm.Base.Ints.{ℤ, pos, negsuc, ◌+ℤ◌, is_positive, is_zero}
use ipsupport_airllm.Tests.Data.{thousandths}
use ipsupport_airllm.Limits.Buckets.{windows, sum_window, sum_from, prune, bucket_stamp}
use ipsupport_airllm.Limits.Check.{
  Limits, refused, allowed, Usage, Access, limit_denied, lock_key, lock_retries, in_tokens, reserve,
}
use ipsupport_airllm.Limits.Windows.{sum_window-prune}
use ipsupport_airllm.Limits.Headroom.{
  Request, Ticket, Event, checked, finished, run, total, tickets, check_in, reserved_of,
  run-settles,
}
use ipsupport_airllm.Limits.Holds.{Reserves, limit_denied-Reserves}

abbrev noon : Time
noon = 1_000_000 * second

abbrev cents : ℕ → ℤ
cents n = pos (n / 1000)

abbrev limited : Limits ℕ
limited = record {
  tokens = ("5h", pos 100) ∷ [];
  cost_usd = [];
  audio_seconds = [];
  tts_chars = [];
}

-- 40 tokens in the bucket of the instant, and as many a fortnight ago
abbrev busy : Usage
busy = record { tok = (999900, pos 40) ∷ (10, pos 40) ∷ []; cost = []; audio = []; tts = [] }

abbrev spent : Usage
spent = record { tok = (999900, pos 100) ∷ []; cost = []; audio = []; tts = [] }

abbrev after_wait : Access
after_wait = record {
  locks = some false ∷ some true ∷ [];
  reads = true;
  prunes = true;
  reserves = true;
}

spent_test :
    (limit_denied cents after_wait limited noon (pos 10) spent).0
    ≡ refused (record { window = "5h"; measure = in_tokens; limit = pos 100; used = pos 100 })
unfolding limit_denied ipsupport_airllm.Base.Dict.lookup is_positive ipsupport_airllm.Base.Ints.leqℤ
    sum_window ◌+ℤ◌
spent_test = refl

locked_test : lock_key lock_retries after_wait.locks ≡ true
unfolding lock_key
locked_test = refl

positive_test : is_positive (pos 10) ≡ true
unfolding is_positive
positive_test = refl

limit_denied-Reserves_example :
    Reserves cents limited noon busy
      (pos 10)
      (limit_denied cents after_wait limited noon (pos 10) busy)
limit_denied-Reserves_example =
    limit_denied-Reserves cents limited noon busy after_wait (pos 10) refl refl locked_test
      positive_test refl

reserved_test :
    limit_denied cents after_wait limited noon (pos 10) busy
    ≡ (allowed (pos 10) 999900, record busy { tok = (999900, pos 50) ∷ [] })
unfolding limit_denied ipsupport_airllm.Base.Dict.lookup is_positive ipsupport_airllm.Base.Ints.leqℤ
    sum_window ◌+ℤ◌ ipsupport_airllm.Base.Dict.delete
reserved_test = refl

sum_window-prune_example :
    All (λ win. sum_window noon win (prune noon busy.tok) ≡ sum_window noon win busy.tok) windows
sum_window-prune_example = sum_window-prune noon noon busy.tok (omega arith)

abbrev short_one : Request
short_one = record {
  checked_at = noon;
  finished_at = noon + second;
  reserved = pos 4096;
  billable = true;
  tokens = pos 12;
  cost = pos 3;
}

-- One that runs over the end of its bucket, and fails
abbrev long_one : Request
long_one = record {
  checked_at = noon;
  finished_at = noon + 10 * minute;
  reserved = pos 50;
  billable = false;
  tokens = pos 7;
  cost = pos 0;
}

abbrev short_ticket : Ticket
short_ticket = record {
  request = short_one;
  decision = allowed (pos 4096) (bucket_stamp short_one.checked_at);
}

abbrev long_ticket : Ticket
long_ticket = record {
  request = long_one;
  decision = allowed (pos 50) (bucket_stamp long_one.checked_at);
}

abbrev crossing : List Event
crossing = checked short_one ∷ checked long_one ∷ finished long_ticket ∷ finished short_ticket ∷ []

some_reserved :
    All (λ t. is_zero (reserved_of t.decision) ≡ false) (long_ticket ∷ short_ticket ∷ [])
unfolding is_zero
some_reserved = (refl, (refl, tt))

their_tickets : Permᴰ (tickets crossing busy) (long_ticket ∷ short_ticket ∷ [])
unfolding tickets check_in reserve
their_tickets = Permᴰ.swap refl refl

run-settles_example :
    sum_from 0 (run crossing busy).tok ≡ total 0 (short_one ∷ long_one ∷ []) +ℤ sum_from 0 busy.tok
run-settles_example = run-settles 0 crossing busy some_reserved their_tickets
