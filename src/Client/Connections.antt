-- ===== src/Client/Connections.antt =====
-- The table of connections of client/dioxclient.py, `ws_connections`, which `__subscribe` fills and
-- whose sockets its loop looks up, and from which `__unsubscribe` takes. The coroutines run on one
-- event loop, a piece between two awaits at a time, in any order.
pub mod Owners
use dioxide_python.Prelude.{
  ℕ, Bool, true, false, ◌==◌, ◌||◌, ◌≡◌, Option, none, some, List, [], ◌∷◌, ◌++◌, length,
  if◌then◌else◌,
}

-- A dict from the threads to their sockets.
abbrev pub Table : Type 0
Table = List (ℕ × ℕ)

-- Sockets are numbered in the order in which they are connected. `sockets` has their threads, the
-- newest first, and `unsubscribing` the arguments of the coroutines `__unsubscribe` that were started
-- and have not ended.
pub record Connections : Type 0 where
  pub sockets : List ℕ
  pub connections : Table
  pub unsubscribing : List (ℕ × ℕ)

abbrev pub no_connections : Connections
no_connections = record { sockets = []; connections = []; unsubscribing = [] }

-- The thread that a socket was connected for.
unfoldable pub thread_of : ℕ → List ℕ → Option ℕ
thread_of ws [] = none
thread_of ws (t ∷ older) =
    let rest = thread_of ws older in if ws == length older then some t else rest

-- `self.ws_connections.get(thread_id)`
unfoldable pub get_connection : ℕ → Table → Option ℕ
get_connection thread_id [] = none
get_connection thread_id ((k, ws) ∷ m) =
    let rest = get_connection thread_id m in if k == thread_id then some ws else rest

-- `self.ws_connections[thread_id] = ws`
unfoldable pub set_connection : ℕ → ℕ → Table → Table
set_connection thread_id ws [] = (thread_id, ws) ∷ []
set_connection thread_id ws ((k, v) ∷ m) =
    let rest = set_connection thread_id ws m in
    if k == thread_id then (k, ws) ∷ m else (k, v) ∷ rest

-- `self.ws_connections.pop(thread_id, None)`
unfoldable pub pop_connection : ℕ → Table → Table
pop_connection thread_id [] = []
pop_connection thread_id ((k, v) ∷ m) =
    let rest = pop_connection thread_id m in if k == thread_id then m else (k, v) ∷ rest

-- `ws in self.ws_connections.values()`, the condition of the loop of `__subscribe`
unfoldable pub goes_on : ℕ → Table → Bool
goes_on ws [] = false
goes_on ws ((k, v) ∷ m) = let rest = goes_on ws m in v == ws || rest

-- The coroutine of `subscribe`, called on a thread, has its socket and enters it.
unfoldable pub subscribed : ℕ → Connections → Connections
unfolding set_connection
subscribed thread_id s = record s {
  sockets = thread_id ∷ s.sockets;
  connections = set_connection thread_id (length s.sockets) s.connections;
}

-- `if ws is not None`
unfoldable pub start_unsubscribe : ℕ → Connections → Option ℕ → Connections
start_unsubscribe thread_id s none = s
start_unsubscribe thread_id s (some ws) = record s {
  unsubscribing = s.unsubscribing ++ ((ws, thread_id) ∷ []);
}

-- `unsubscribe(thread_id)`
unfoldable pub unsubscribe : ℕ → Connections → Connections
unfolding get_connection start_unsubscribe
unsubscribe thread_id s = start_unsubscribe thread_id s (get_connection thread_id s.connections)

-- The rest of `__unsubscribe(ws, thread_id)` behind the await of `ws.close()`, with the coroutines
-- that have not ended.
unfoldable pub unsubscribed : ℕ → List (ℕ × ℕ) → Connections → Connections
unfolding pop_connection
unsubscribed thread_id left s = record s {
  connections = pop_connection thread_id s.connections;
  unsubscribing = left;
}

-- What happens to the table.
pub data Step : Connections → Connections → Type 0 where
  subscribes : (thread_id : ℕ) (s : Connections) → Step s (subscribed thread_id s)
  starts : (thread_id : ℕ) (s : Connections) → Step s (unsubscribe thread_id s)
  ends :
      (ws thread_id : ℕ) (before after : List (ℕ × ℕ)) (s : Connections)
      → s.unsubscribing ≡ before ++ ((ws, thread_id) ∷ after)
      → Step s (unsubscribed thread_id (before ++ after) s)

-- What a new client's table can become.
pub data Reached : Connections → Type 0 where
  at_first : Reached no_connections
  later : {s t : Connections} → Reached s → Step s t → Reached t
