-- ===== src/Client/Connections/Owners.antt =====
-- Each socket of the table stands under its own thread, once.
use dioxide_python.Prelude.{
  ℕ, true, false, ◌==◌, ==_iff, ==_ne, ==_refl, ◌≡◌, ◌≢◌, ◌<◌, refl, sym, ◌∙◌, ap, inl, inr,
  Bool-cases, Option, none, some, List, [], ◌∷◌, length, All, All-imp, arith,
}
use dioxide_python.Client.Connections.{
  Table, Connections, thread_of, get_connection, set_connection, pop_connection, goes_on,
  subscribed, start_unsubscribe, unsubscribe, unsubscribed, Step, subscribes, starts, ends, Reached,
  at_first, later,
}

-- Every entry is a socket of its thread.
abbrev AllOwned : List ℕ → Table → Type 0
AllOwned sockets m = All (λ e. thread_of e.1 sockets ≡ some e.0) m

abbrev IsAbsent : ℕ → Table → Type 0
IsAbsent thread_id m = All (λ e. e.0 ≢ thread_id) m

-- No thread has two entries.
abbrev IsDict : Table → Type 0
IsDict [] = Unit
IsDict (e ∷ m) = IsAbsent e.0 m × IsDict m

thread_of-lt : (ws t : ℕ) (sockets : List ℕ) → thread_of ws sockets ≡ some t → ws < length sockets
unfolding thread_of
thread_of-lt ws t [] h = cc
thread_of-lt ws t (k ∷ older) h = elim (Bool-cases (ws == length older)) [
  | inl e ↦ let same : ws ≡ length older = (==_iff ws (length older)).0 e in omega (arith, same)
  | inr e ↦ let rest = thread_of-lt ws t older (rw e at h) in omega (arith, rest)
]

-- A new socket changes no owner.
thread_of-cons :
    (ws t k : ℕ) (sockets : List ℕ)
    → thread_of ws sockets ≡ some t
    → thread_of ws (k ∷ sockets) ≡ some t
unfolding thread_of
thread_of-cons ws t k sockets h =
    let below = thread_of-lt ws t sockets h in
    let other : (ws == length sockets) ≡ false = ground arith in rw other h

thread_of-newest : (k : ℕ) (sockets : List ℕ) → thread_of (length sockets) (k ∷ sockets) ≡ some k
unfolding thread_of
thread_of-newest k sockets = rw (==_refl (length sockets)) refl

set_connection-AllOwned :
    (sockets : List ℕ) (t ws : ℕ) (m : Table)
    → thread_of ws sockets ≡ some t
    → AllOwned sockets m
    → AllOwned sockets (set_connection t ws m)
unfolding set_connection
set_connection-AllOwned sockets t ws [] h own = (h, tt)
set_connection-AllOwned sockets t ws ((k, v) ∷ m) h (first, own) = elim (Bool-cases (k == t)) [
  | inl e ↦ let same : k ≡ t = (==_iff k t).0 e in rw e (rw same h, own)
  | inr e ↦ rw e (first, set_connection-AllOwned sockets t ws m h own)
]

set_connection-IsAbsent :
    (k t ws : ℕ) (m : Table) → t ≢ k → IsAbsent k m → IsAbsent k (set_connection t ws m)
unfolding set_connection
set_connection-IsAbsent k t ws [] h absent = (h, tt)
set_connection-IsAbsent k t ws ((i, v) ∷ m) h (first, absent) = elim (Bool-cases (i == t)) [
  | inl e ↦ rw e (first, absent)
  | inr e ↦ rw e (first, set_connection-IsAbsent k t ws m h absent)
]

set_connection-IsDict : (t ws : ℕ) (m : Table) → IsDict m → IsDict (set_connection t ws m)
unfolding set_connection
set_connection-IsDict t ws [] h = (tt, tt)
set_connection-IsDict t ws ((k, v) ∷ m) (first, h) = elim (Bool-cases (k == t)) [
  | inl e ↦ rw e (first, h)
  | inr e ↦
      let other : t ≢ k = λ same. ground arith in
      rw e (set_connection-IsAbsent k t ws m other first, set_connection-IsDict t ws m h)
]

pop_connection-All {ℓ} :
    (P : ℕ × ℕ → Type ℓ) (t : ℕ) (m : Table) → All P m → All P (pop_connection t m)
unfolding pop_connection
pop_connection-All P t [] h = tt
pop_connection-All P t ((k, v) ∷ m) (first, h) = elim (Bool-cases (k == t)) [
  | inl e ↦ rw e h
  | inr e ↦ rw e (first, pop_connection-All P t m h)
]

pop_connection-IsDict : (t : ℕ) (m : Table) → IsDict m → IsDict (pop_connection t m)
unfolding pop_connection
pop_connection-IsDict t [] h = tt
pop_connection-IsDict t ((k, v) ∷ m) (first, h) = elim (Bool-cases (k == t)) [
  | inl e ↦ rw e h
  | inr e ↦ rw e (pop_connection-All (λ x. x.0 ≢ k) t m first, pop_connection-IsDict t m h)
]

-- The invariant of the table.
record IsOwned (s : Connections) : Type 0 where
  owned : AllOwned s.sockets s.connections
  dict : IsDict s.connections

start-IsOwned :
    (k : ℕ) (s : Connections) (found : Option ℕ) → IsOwned s → IsOwned (start_unsubscribe k s found)
unfolding start_unsubscribe
start-IsOwned k s none h = h
start-IsOwned k s (some ws) h = record { owned = h.owned; dict = h.dict }

Step-IsOwned : {s t : Connections} → Step s t → IsOwned s → IsOwned t
unfolding subscribed unsubscribe unsubscribed
Step-IsOwned (subscribes k s) h = record {
  owned =
      set_connection-AllOwned (k ∷ s.sockets) k (length s.sockets) s.connections
        (thread_of-newest k s.sockets)
        (All-imp _ _ (λ e. thread_of-cons e.1 e.0 k s.sockets) s.connections h.owned);
  dict = set_connection-IsDict k (length s.sockets) s.connections h.dict;
}
Step-IsOwned (starts k s) h = start-IsOwned k s (get_connection k s.connections) h
Step-IsOwned (ends ws k before after s e) h = record {
  owned = pop_connection-All _ k s.connections h.owned;
  dict = pop_connection-IsDict k s.connections h.dict;
}

Reached-IsOwned : {s : Connections} → Reached s → IsOwned s
Reached-IsOwned at_first = record { owned = tt; dict = tt }
Reached-IsOwned (later r step) = Step-IsOwned step (Reached-IsOwned r)

get_connection-IsAbsent : (t : ℕ) (m : Table) → IsAbsent t m → get_connection t m ≡ none
unfolding get_connection
get_connection-IsAbsent t [] h = refl
get_connection-IsAbsent t ((k, v) ∷ m) (first, h) =
    rw (==_ne k t first) (get_connection-IsAbsent t m h)

goes_on-get_connection :
    (sockets : List ℕ) (ws t : ℕ) (m : Table)
    → AllOwned sockets m
    → IsDict m
    → thread_of ws sockets ≡ some t
    → goes_on ws m ≡ true
    → get_connection t m ≡ some ws
unfolding goes_on get_connection
goes_on-get_connection sockets ws t [] own dict e on = cc
goes_on-get_connection sockets ws t ((k, v) ∷ m) (first, own) (absent, dict) e on =
    elim (Bool-cases (v == ws)) [
      | inl here ↦
          let same : v ≡ ws = (==_iff v ws).0 here in
          let thread : some k ≡ some t = sym first ∙ (ap (λ x. thread_of x sockets) same ∙ e) in
          let k_is_t : k ≡ t = cc in
          let test : (k == t) ≡ true = (==_iff k t).1 k_is_t in rw test (ap some same)
      | inr not_here ↦
          let rest = goes_on-get_connection sockets ws t m own dict e (rw not_here at on) in
          elim (Bool-cases (k == t)) [
            | inl test ↦
                let k_is_t : k ≡ t = (==_iff k t).0 test in
                let gone : get_connection t m ≡ none =
                  get_connection-IsAbsent t m (rw k_is_t at absent) in
                absurd (some_ne_none rest gone)
            | inr test ↦ rw test rest
          ]
    ]
  where
    some_ne_none : {o : Option ℕ} → o ≡ some ws → o ≡ none → ⊥
    some_ne_none a b = cc

-- In whatever order subscriptions and their ends happen, a loop of `__subscribe` goes on only while
-- its socket is the one that the table has for its thread, so that no two loops of a thread go on.
pub goes_on-one :
    (s : Connections)
    → Reached s
    → (ws v thread_id : ℕ) → thread_of ws s.sockets ≡ some thread_id
    → thread_of v s.sockets ≡ some thread_id
    → goes_on ws s.connections ≡ true
    → goes_on v s.connections ≡ true
    → (ws ≡ v) × (get_connection thread_id s.connections ≡ some ws)
goes_on-one s r ws v t ews ev on_ws on_v =
    let h = Reached-IsOwned r in
    let first = goes_on-get_connection s.sockets ws t s.connections h.owned h.dict ews on_ws in
    let second = goes_on-get_connection s.sockets v t s.connections h.owned h.dict ev on_v in
    (let both : some ws ≡ some v = sym first ∙ second in cc, first)
