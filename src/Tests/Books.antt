-- ===== src/Tests/Books.antt =====
-- A registry with one position, the equity tracker and the mode automaton at concrete inputs.
use text.Mathlib.TextEquality.{eq_iff}
use ghost_grid.Common.{ℕ, ◌≡◌, refl, if◌then◌else◌, none, [], ◌∷◌, arith, lit, lookup, nat_eq}
use ghost_grid.Common.Fixed.{fixed}
use ghost_grid.Config.{long}
use ghost_grid.Positions.Models.{Snapshot}
use ghost_grid.Positions.Machine.{Machine, new}
use ghost_grid.Positions.Registry.{Books, process_tick}
use ghost_grid.Positions.Books.{
  IsCoherent, registered, deregistered, ticked, apply_all, apply_all-IsCoherent, AllOf,
}
use ghost_grid.Positions.Rounds.{IsOnce, held, ticked_once, exits_in, process_tick-exits}
use ghost_grid.Positions.Foreign.{IsForeign, process_tick-renamed}
use ghost_grid.Portfolio.State.{initial, Machines}
use ghost_grid.Portfolio.Mode.{ModeAutomaton}

abbrev euro : Machine
euro = new 7 "EURUSD" long (lit 11000 4) (lit 10950 4) (lit 1 0) 0 (lit 10 0) (lit 1 4)

abbrev yen : Snapshot
yen = record { symbol = "USDJPY"; mid = lit 150 0; m1 = []; m5 = []; cvd = []; atr_1m = lit 10 2 }

abbrev books : Books
books = (record { positions = [] }, initial)

apply_all-IsCoherent_example :
    IsCoherent
      (apply_all ([], books) (registered 0 euro ∷ ticked yen ∷ deregistered 7 (lit 5 0) ∷ [])).1
unfolding initial
apply_all-IsCoherent_example =
    apply_all-IsCoherent (registered 0 euro ∷ ticked yen ∷ deregistered 7 (lit 5 0) ∷ [])
      ([], books) refl

abbrev heap : Machines
heap = (0, euro) ∷ []

abbrev open_books : Books
open_books = (record { positions = (7, 0) ∷ [] }, record initial { open_positions = (7, 0) ∷ [] })

-- Two positions, whose machines a fall below both stops closes.
abbrev pair_heap : Machines
pair_heap = (0, euro) ∷ (1, euro) ∷ []

abbrev pair_books : Books
pair_books = (
  record { positions = (7, 0) ∷ (8, 1) ∷ [] },
  record initial { open_positions = (7, 0) ∷ (8, 1) ∷ [] },
)

pair-IsOnce : IsOnce pair_books.0.positions
unfolding held
pair-IsOnce = (refl, (refl, tt))

abbrev fall : Snapshot
fall = record yen { symbol = "EURUSD"; mid = lit 10900 4 }

process_tick-exits_example :
    let (heap', books', found) = process_tick pair_heap pair_books fall in
    (found ≡ exits_in pair_heap fall pair_books.1.current_mode pair_books.0.positions)
    × ((r : ℕ)
        → lookup r heap' ≡ (
            if held r pair_books.0.positions
            then ticked_once fall pair_books.1.current_mode (lookup r pair_heap)
            else lookup r pair_heap))
    × (books'.0 ≡ pair_books.0)
process_tick-exits_example = process_tick-exits pair_heap pair_books fall pair-IsOnce

process_tick-renamed_example :
    ((process_tick heap open_books (record yen { symbol = "EURUSD" })).0
      ≡ (process_tick heap open_books yen).0)
    × ((process_tick heap open_books (record yen { symbol = "EURUSD" })).2
        ≡ (process_tick heap open_books yen).2)
process_tick-renamed_example = process_tick-renamed heap open_books yen "EURUSD"

heap-IsForeign : AllOf (IsForeign "USDJPY") heap
unfolding lookup new
heap-IsForeign r m e same = cc ((eq_iff "EURUSD" "USDJPY").1 (ground (arith, same, e)))

abbrev automaton : ModeAutomaton
automaton = record { last_reason = none }
