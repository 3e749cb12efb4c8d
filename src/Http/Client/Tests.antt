-- ===== src/Http/Client/Tests.antt =====
-- A server that closes each connection before it answers.
use networkio.Base.{ℕ, ◌≡◌, refl, Bool, true, false, List, [], none, some, length}
use networkio.Http.Client.{lost, exchange, transmit, await, process_request}
use networkio.Http.Client.Laws.{retries_endless}
use networkio.Http.Parser.{header_to_string, fields_text}
use networkio.Http.Request as Requests
use networkio.Interfaces.{ClientOps}

abbrev ops : ClientOps (Unit {0})
ops = record {
  is_connected = λ s. true;
  is_stream = λ s. true;
  read_raw = λ s n. (none, s);
  write_raw = λ s bs. (some (length bs), s);
  close = λ s. s;
}

abbrev connect : Unit {0} → List ℕ → Bool × Unit {0}
connect s address = (true, s)

abbrev set_options : Unit {0} → Unit {0}
set_options s = s

abbrev timed_out : Unit {0} → Bool
timed_out s = false

loses :
    (s : Unit {0})
    → (s' : Unit {0}) × (exchange ops connect set_options timed_out 2 s [] Requests.make
        ≡ some (lost s'))
unfolding exchange transmit await Requests.to_string header_to_string fields_text
loses s = (tt, refl)

retries_endless_example :
    process_request ops connect set_options timed_out 7 2 5 tt [] Requests.make 0 ≡ none
retries_endless_example =
    retries_endless ops connect set_options timed_out 7 2 5 0 [] Requests.make loses tt
