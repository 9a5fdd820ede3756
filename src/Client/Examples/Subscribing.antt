-- ===== src/Client/Examples/Subscribing.antt =====
-- Two threads that subscribe, and one that subscribes again while its first connection is taken out.
use dioxide_python.Prelude.{ℕ, ◌≡◌, refl, true, false, some, []}
use dioxide_python.Client.Connections.{
  Connections, no_connections, thread_of, get_connection, set_connection, pop_connection, goes_on,
  subscribed, unsubscribe, unsubscribed, subscribes, starts, ends, Reached, at_first, later,
}
use dioxide_python.Client.Connections.Owners.{goes_on-one}

abbrev two_threads : Connections
two_threads = subscribed 8 (subscribed 7 (subscribed 7 no_connections))

two-Reached : Reached two_threads
two-Reached =
    later
      (later (later at_first (subscribes 7 no_connections))
        (subscribes 7 (subscribed 7 no_connections)))
      (subscribes 8 (subscribed 7 (subscribed 7 no_connections)))

second_of_seven : thread_of 1 two_threads.sockets ≡ some 7
unfolding thread_of subscribed
second_of_seven = refl

second_goes_on : goes_on 1 two_threads.connections ≡ true
unfolding goes_on subscribed set_connection
second_goes_on = refl

goes_on-one_example : (◌≡◌ {A = ℕ} 1 1) × (get_connection 7 two_threads.connections ≡ some 1)
goes_on-one_example =
    goes_on-one two_threads two-Reached 1 1 7 second_of_seven second_of_seven second_goes_on
      second_goes_on

-- The loop of the first subscription ends, which is not closed.
first_ends :
    (thread_of 0 two_threads.sockets ≡ some 7) × (goes_on 0 two_threads.connections ≡ false)
unfolding thread_of goes_on subscribed set_connection
first_ends = (refl, refl)

-- `unsubscribe` starts, the thread subscribes anew, and the coroutine takes the new connection out
-- of the table.
abbrev started : Connections
started = subscribed 7 (unsubscribe 7 (subscribed 7 no_connections))

abbrev ended : Connections
ended = unsubscribed 7 [] started

ended-Reached : Reached ended
unfolding subscribed unsubscribe get_connection set_connection
ended-Reached =
    later
      (later
        (later (later at_first (subscribes 7 no_connections))
          (starts 7 (subscribed 7 no_connections)))
        (subscribes 7 (unsubscribe 7 (subscribed 7 no_connections))))
      (ends 0 7 [] [] started refl)

lost : (goes_on 1 started.connections ≡ true) × (ended.connections ≡ [])
unfolding goes_on subscribed unsubscribe unsubscribed get_connection set_connection pop_connection
lost = (refl, refl)
