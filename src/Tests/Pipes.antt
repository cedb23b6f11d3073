-- ===== src/Tests/Pipes.antt =====
-- Instances for the client and the writer of the pipe.
use mathlib.Core.List.{Sublist}
use ghost_grid.Common.{ℕ, zero, suc, ◌≡◌, refl, true, false, some, List, [], ◌∷◌, map, arith}
use ghost_grid.Bridge.Text.{Text, codes}
use ghost_grid.Bridge.Client.{
  Created, created, not_found, Opened, open_pipe, open_loop, PipeClient, new_client,
  new_client_metrics, writeline, close, connect, line_of,
}
use ghost_grid.Bridge.Writer.{
  PipeWriter, new_writer, enqueue, Step, enqueues, goes_round, connects, closes, step, steps,
  write_round, accepted,
}
use ghost_grid.Bridge.Opening
use ghost_grid.Bridge.Opening.{IsAnswer, IsClient, make_calls, open_pipe-ends, new_client-IsClient}
use ghost_grid.Bridge.Delivery.{IsSound, steps-IsSound}
use ghost_grid.Bridge.Sending.{
  contents, new_pair, steps-ordered, IsDrained, IsOutage, write_rounds, write_rounds-IsDrained,
  write_rounds-IsOutage,
}

-- A pipe that is there at the second call.
abbrev second_call : ℕ → Created
second_call zero = not_found
second_call (suc _) = created 7

open_pipe-ends_example : (r : Opened) × (open_pipe second_call ≡ some r) × IsAnswer second_call 0 r
open_pipe-ends_example = open_pipe-ends second_call

abbrev as_text : List ℕ → Text
as_text bytes = bytes

abbrev some_calls : List Opening.Call
some_calls =
    Opening.connects 5 second_call
    ∷ Opening.writes_line true 6 (codes "PING")
    ∷ Opening.reads 7 (some (codes "V1|HEARTBEAT|1"))
    ∷ Opening.writes_line false 8 (codes "PING")
    ∷ []

abbrev some_steps : List Step
some_steps =
    enqueues (codes "A")
    ∷ connects 1 second_call
    ∷ goes_round true 2
    ∷ enqueues (codes "B")
    ∷ enqueues (codes "C")
    ∷ enqueues (codes "D")
    ∷ goes_round false 3
    ∷ closes
    ∷ []

steps-IsSound_example : IsSound 2 (steps as_text (new_pair 2) some_steps).0
steps-IsSound_example = steps-IsSound as_text 2 (new_client, []) some_steps (omega arith)

steps-ordered_example :
    Sublist
      (contents (steps as_text (new_pair 2) some_steps))
      (map line_of (accepted as_text (new_pair 2) some_steps))
steps-ordered_example = steps-ordered as_text 2 some_steps

-- The oldest of three messages does not fit a queue of two, and a failed write loses another.
steps-contents_lem :
    contents (steps as_text (new_pair 2) some_steps) ≡ map line_of (codes "A" ∷ codes "D" ∷ [])
unfolding steps step enqueue new_writer new_client connect open_pipe open_loop write_round writeline
    close new_client_metrics
steps-contents_lem = refl

abbrev connected_client : PipeClient
connected_client = record new_client { handle = some 7; connected = true }

abbrev waiting : PipeWriter
waiting = record (new_writer 200) {
  queue = codes "A" ∷ codes "B" ∷ [];
  circuit_breaker_open = true;
}

write_rounds-IsDrained_example :
    IsDrained
      (map line_of (codes "A" ∷ codes "B" ∷ []))
      (write_rounds true (1 ∷ 2 ∷ 3 ∷ []) (waiting, (connected_client, [])))
write_rounds-IsDrained_example =
    write_rounds-IsDrained (1 ∷ 2 ∷ 3 ∷ []) waiting connected_client [] (refl) (omega arith)

abbrev five_waiting : PipeWriter
five_waiting = record (new_writer 200) {
  queue = codes "A" ∷ codes "B" ∷ codes "C" ∷ codes "D" ∷ codes "E" ∷ [];
}

write_rounds-IsOutage_example :
    IsOutage five_waiting [] 5
      (write_rounds false (1 ∷ 2 ∷ 3 ∷ 4 ∷ 5 ∷ []) (five_waiting, (connected_client, [])))
unfolding new_writer
write_rounds-IsOutage_example =
    write_rounds-IsOutage (1 ∷ 2 ∷ 3 ∷ 4 ∷ 5 ∷ []) five_waiting connected_client [] refl refl
      (omega arith) (omega arith)
