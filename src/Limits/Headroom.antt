-- ===== src/Limits/Headroom.antt =====
-- Reservations: no request's tokens are counted twice or kept after it, in whatever order requests are
-- checked and finished.
use ipsupport_airllm.Base.{
  ℕ, ◌≡◌, refl, sym, ap, ◌∙◌, inl, inr, Bool, true, false, List, [], ◌∷◌, All, if◌then◌else◌, arith,
  Bool-cases, ltb,
}
use mathlib.Core.List.{Permᴰ}
use ipsupport_airllm.Base.Clock.{Time}
use ipsupport_airllm.Base.Ints.{
  ℤ, pos, negsuc, neg, ◌+ℤ◌, is_zero, addℤ_comm, addℤ_assoc, addℤ_zero, zero_addℤ, addℤ_neg,
}
use ipsupport_airllm.Limits.Buckets.{Hash, sum_from, bucket_stamp}
use ipsupport_airllm.Limits.Check.{
  Decision, refused, allowed, Usage, Access, reserve, add, add_to, finalize_limits,
}
use ipsupport_airllm.Limits.Windows.{counted, sum_from-incr_by}

-- A request that reserved headroom: when it was checked and finished, what it reserved and what it used
pub record Request : Type 0 where
  pub checked_at : Time
  pub finished_at : Time
  pub reserved : ℤ
  pub billable : Bool
  pub tokens : ℤ
  pub cost : ℤ

-- A request with the decision that its check ended with
pub record Ticket : Type 0 where
  pub request : Request
  pub decision : Decision

pub data Event : Type 0 where
  checked : Request → Event
  finished : Ticket → Event

-- `Reserved` and `ReservedBucket` of a decision
abbrev pub reserved_of : Decision → ℤ
reserved_of (refused d) = pos 0
reserved_of (allowed n bucket) = n

abbrev pub bucket_of : Decision → ℕ
bucket_of (refused d) = 0
bucket_of (allowed n bucket) = bucket

abbrev pub answering : Access
answering = record { locks = []; reads = true; prunes = true; reserves = true }

-- The reservation at the end of a request's check
unfoldable pub check_in : Request → Usage → Decision × Usage
unfolding reserve
check_in r u = reserve true answering r.checked_at r.reserved u

-- The steps of requests on the key's hashes, in the order in which they occur
unfoldable pub event : Event → Usage → Usage
unfolding check_in finalize_limits
event (checked r) u = (check_in r u).1
event (finished t) u =
    let r = t.request in
    finalize_limits true r.billable r.finished_at r.tokens r.cost (reserved_of t.decision)
      (bucket_of t.decision) u

unfoldable pub run : List Event → Usage → Usage
unfolding event
run [] u = u
run (e ∷ es) u = run es (event e u)

-- The requests that are checked, with the decisions that they get on the way
unfoldable pub tickets : List Event → Usage → List Ticket
unfolding event check_in
tickets [] u = []
tickets (checked r ∷ es) u =
    record { request = r; decision = (check_in r u).0 } ∷ tickets es (event (checked r) u)
tickets (finished t ∷ es) u = tickets es (event (finished t) u)

abbrev pub checked_in : List Event → List Request
checked_in [] = []
checked_in (checked r ∷ es) = r ∷ checked_in es
checked_in (finished t ∷ es) = checked_in es

abbrev pub finished_in : List Event → List Ticket
finished_in [] = []
finished_in (checked r ∷ es) = finished_in es
finished_in (finished t ∷ es) = t ∷ finished_in es

-- What a request is to count for
abbrev pub used : Request → ℤ
used r = if r.billable then r.tokens else pos 0

is_zero-path : (n : ℤ) → is_zero n ≡ true → n ≡ pos 0
unfolding is_zero
is_zero-path (pos n) h = ground arith
is_zero-path (negsuc n) h = absurd (ground arith)

to_front : (a b c d : ℤ) → (a +ℤ b) +ℤ (c +ℤ d) ≡ ((c +ℤ a) +ℤ b) +ℤ d
to_front a b c d =
    sym (addℤ_assoc (a +ℤ b) c d) ∙ ap (λ x. x +ℤ d) (addℤ_comm (a +ℤ b) c ∙ sym (addℤ_assoc c a b))

to_middle : (a b c d : ℤ) → (a +ℤ b) +ℤ (c +ℤ d) ≡ (a +ℤ (c +ℤ b)) +ℤ d
to_middle a b c d =
    sym (addℤ_assoc (a +ℤ b) c d)
    ∙ ap (λ x. x +ℤ d) (addℤ_assoc a b c ∙ ap (λ x. a +ℤ x) (addℤ_comm b c))

pairwise : (a b c d : ℤ) → (a +ℤ b) +ℤ (c +ℤ d) ≡ (a +ℤ c) +ℤ (b +ℤ d)
pairwise a b c d =
    to_middle a b c d ∙ ap (λ x. x +ℤ d) (sym (addℤ_assoc a c b)) ∙ addℤ_assoc (a +ℤ c) b d

swap_front : (a b c : ℤ) → a +ℤ (b +ℤ c) ≡ b +ℤ (a +ℤ c)
swap_front a b c = sym (addℤ_assoc a b c) ∙ ap (λ x. x +ℤ c) (addℤ_comm a b) ∙ addℤ_assoc b a c

module _ (cutoff : ℕ) where
  counted_zero : (stamp : ℕ) → counted cutoff stamp (pos 0) ≡ pos 0
  counted_zero stamp = ground arith

  counted_add :
      (stamp : ℕ) (a b : ℤ)
      → counted cutoff stamp a +ℤ counted cutoff stamp b ≡ counted cutoff stamp (a +ℤ b)
  counted_add stamp a b = elim (Bool-cases (ltb stamp cutoff)) [
    | inl old ↦ rw old (addℤ_zero (pos 0))
    | inr new ↦ rw new refl
  ]

  -- What the requests are to count for, each in the bucket of its check
  abbrev pub total : List Request → ℤ
  total [] = pos 0
  total (r ∷ rs) = counted cutoff (bucket_stamp r.checked_at) (used r) +ℤ total rs

  abbrev in_bucket : Ticket → ℤ → ℤ
  in_bucket t n = counted cutoff (bucket_of t.decision) n

  abbrev sum_of : (Ticket → ℤ) → List Ticket → ℤ
  sum_of f [] = pos 0
  sum_of f (t ∷ ts) = in_bucket t (f t) +ℤ sum_of f ts

  abbrev held : Ticket → ℤ
  held t = reserved_of t.decision

  abbrev spent : Ticket → ℤ
  spent t = used t.request

  abbrev correction : Ticket → ℤ
  correction t = spent t +ℤ neg (held t)

  add_to-sum :
      (field : ℕ) (n : ℤ) (h : Hash)
      → sum_from cutoff (add_to field n h) ≡ counted cutoff field n +ℤ sum_from cutoff h
  unfolding add_to
  add_to-sum field n h = elim (Bool-cases (is_zero n)) [
    | inl z ↦ rw z (
        sym (
          ap (λ x. counted cutoff field x +ℤ sum_from cutoff h) (is_zero-path n z)
          ∙ ap (λ x. x +ℤ sum_from cutoff h) (counted_zero field)
          ∙ zero_addℤ (sum_from cutoff h)))
    | inr some_n ↦ rw some_n (sum_from-incr_by cutoff field n h)
  ]

  event-checked :
      (r : Request) (u : Usage)
      → let t : Ticket = record { request = r; decision = (check_in r u).0 } in
        sum_from cutoff (event (checked r) u).tok ≡ in_bucket t (held t) +ℤ sum_from cutoff u.tok
  unfolding event check_in reserve
  event-checked r u = sum_from-incr_by cutoff (bucket_stamp r.checked_at) r.reserved u.tok

  event-finished :
      (t : Ticket) (u : Usage)
      → is_zero (held t) ≡ false
      → sum_from cutoff (event (finished t) u).tok
        ≡ in_bucket t (correction t) +ℤ sum_from cutoff u.tok
  unfolding event finalize_limits add
  event-finished t u some_reserved = elim (Bool-cases t.request.billable) [
    | inl billed ↦ rw (billed, some_reserved) (add_to-sum _ _ u.tok)
    | inr failed ↦ rw (failed, some_reserved) (add_to-sum _ _ u.tok)
  ]

  run-sum :
      (es : List Event) (u : Usage)
      → All (λ t. is_zero (held t) ≡ false) (finished_in es)
      → sum_from cutoff (run es u).tok
        ≡ (sum_of held (tickets es u) +ℤ sum_of correction (finished_in es))
          +ℤ sum_from cutoff u.tok
  unfolding run tickets
  run-sum [] u h = sym (ap (λ x. x +ℤ sum_from cutoff u.tok) (addℤ_zero (pos 0)) ∙ zero_addℤ _)
  run-sum (checked r ∷ es) u h =
      let u' = event (checked r) u in
      let t : Ticket = record { request = r; decision = (check_in r u).0 } in
      run-sum es u' h
      ∙ ap (λ x. (sum_of held (tickets es u') +ℤ sum_of correction (finished_in es)) +ℤ x)
          (event-checked r u)
      ∙ to_front (sum_of held (tickets es u')) (sum_of correction (finished_in es))
          (in_bucket t (held t)) (sum_from cutoff u.tok)
  run-sum (finished t ∷ es) u h =
      let u' = event (finished t) u in
      run-sum es u' h.1
      ∙ ap (λ x. (sum_of held (tickets es u') +ℤ sum_of correction (finished_in es)) +ℤ x)
          (event-finished t u h.0)
      ∙ to_middle (sum_of held (tickets es u')) (sum_of correction (finished_in es))
          (in_bucket t (correction t)) (sum_from cutoff u.tok)

  -- A decision holds what its request asked for, in the bucket of its check.
  tickets-total :
      (es : List Event) (u : Usage) → sum_of spent (tickets es u) ≡ total (checked_in es)
  unfolding tickets check_in reserve
  tickets-total [] u = refl
  tickets-total (checked r ∷ es) u =
      ap (λ x. counted cutoff (bucket_stamp r.checked_at) (used r) +ℤ x)
        (tickets-total es (event (checked r) u))
  tickets-total (finished t ∷ es) u = tickets-total es (event (finished t) u)

  sum_of-Permᴰ : (f : Ticket → ℤ) (rs qs : List Ticket) → Permᴰ rs qs → sum_of f rs ≡ sum_of f qs
  sum_of-Permᴰ f _ _ Permᴰ.nil = refl
  sum_of-Permᴰ f (a ∷ rs) (b ∷ qs) (Permᴰ.cons e p) =
      λ i. in_bucket (e i) (f (e i)) +ℤ sum_of-Permᴰ f rs qs p i
  sum_of-Permᴰ f (a ∷ b ∷ rs) (c ∷ d ∷ _) (Permᴰ.swap e e') =
      swap_front (in_bucket a (f a)) (in_bucket b (f b)) (sum_of f rs) ∙ λ i.
      in_bucket (e' i) (f (e' i)) +ℤ (in_bucket (e i) (f (e i)) +ℤ sum_of f rs)
  sum_of-Permᴰ f rs qs (Permᴰ.trans {l₂} p q) = sum_of-Permᴰ f rs l₂ p ∙ sum_of-Permᴰ f l₂ qs q

  correction-nets : (t : Ticket) → held t +ℤ correction t ≡ spent t
  correction-nets t =
      addℤ_comm (held t) (correction t)
      ∙ addℤ_assoc (spent t) (neg (held t)) (held t)
      ∙ ap (λ x. spent t +ℤ x) (addℤ_comm (neg (held t)) (held t) ∙ addℤ_neg (held t))
      ∙ addℤ_zero (spent t)

  sum_of-nets : (ts : List Ticket) → sum_of held ts +ℤ sum_of correction ts ≡ sum_of spent ts
  sum_of-nets [] = addℤ_zero (pos 0)
  sum_of-nets (t ∷ ts) =
      pairwise (in_bucket t (held t)) (sum_of held ts) (in_bucket t (correction t))
        (sum_of correction ts)
      ∙ (λ i. counted_add (bucket_of t.decision) (held t) (correction t) i +ℤ sum_of-nets ts i)
      ∙ ap (λ x. in_bucket t x +ℤ sum_of spent ts) (correction-nets t)

  -- Once the requests that were checked have all finished, with the decisions that their checks gave them
  -- and in whatever order, each counts for what it used, in the bucket of its check, and for nothing
  -- when it failed: no reservation is left, in the sum from any cutoff on. Every request is taken to
  -- have reserved something, and Redis to answer.
  pub run-settles :
      (es : List Event) (u : Usage)
      → All (λ t. is_zero (reserved_of t.decision) ≡ false) (finished_in es)
      → Permᴰ (tickets es u) (finished_in es)
      → sum_from cutoff (run es u).tok ≡ total (checked_in es) +ℤ sum_from cutoff u.tok
  run-settles es u some_reserved all =
      let rest = sum_from cutoff u.tok in
      run-sum es u some_reserved
      ∙ ap (λ x. (sum_of held (tickets es u) +ℤ x) +ℤ rest)
          (sym (sum_of-Permᴰ correction (tickets es u) (finished_in es) all))
      ∙ ap (λ x. x +ℤ rest) (sum_of-nets (tickets es u) ∙ tickets-total es u)
