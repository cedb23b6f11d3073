-- ===== src/Execution/Paper.antt =====
-- execution/paper.py: the stand-in of the commander. Whether an order is accepted, the slippage and the clock
-- come from outside; the metrics, which nothing writes, are left out.
use ghost_grid.Common.{
  ℕ, ◌+◌, ◌<◌, ◌≡◌, refl, ap, is_some, String, Bool, true, false, Option, none, some, List, [], ◌∷◌,
  Bool-cases, inl, inr, if◌then◌else◌, arith, nat_eq, Dict, lookup, insert, erase, contains,
  lookup-insert, lookup-erase, lookup-erase_self, lookup-insert_self, Floats, Float, add,
}

module _ ⦃F : Floats⦄ where
  pub record PaperPosition : Type 0 where
    pub symbol : String
    pub entry : Float

  pub record PaperCommander : Type 0 where
    pub next_id : ℕ
    pub positions : Dict ℕ PaperPosition

  unfoldable pub new_paper : PaperCommander
  new_paper = record { next_id = 1000; positions = [] }

  -- The result with status FILL; its time is left out.
  pub record PaperFill : Type 0 where
    pub symbol : String
    pub position_id : ℕ
    pub fill_price : Float

  -- `open_position`
  unfoldable pub open_paper :
      PaperCommander → Bool → String → Float → Float → PaperCommander × Option PaperFill
  open_paper p accepted symbol current_price slippage =
      let position_id = p.next_id in
      (
        record p {
          next_id = if accepted then p.next_id + 1 else p.next_id;
          positions =
              if accepted
              then insert position_id (record { symbol = symbol; entry = current_price })
                  p.positions
              else p.positions;
        },
        if accepted
            then some (record {
              symbol = symbol;
              position_id = position_id;
              fill_price = add current_price slippage;
            })
            else none,
      )

  -- `close_position`
  unfoldable pub close_paper : PaperCommander → ℕ → PaperCommander × Bool
  close_paper p position_id =
      (record p { positions = erase position_id p.positions }, contains position_id p.positions)

  pub data PaperCall : Type 0 where
    opens : Bool → String → Float → Float → PaperCall
    closes : ℕ → PaperCall

  unfoldable pub paper_call : PaperCommander → PaperCall → PaperCommander
  paper_call p (opens accepted symbol price slippage) =
      (open_paper p accepted symbol price slippage).0
  paper_call p (closes position_id) = (close_paper p position_id).0

  unfoldable pub paper_calls : PaperCommander → List PaperCall → PaperCommander
  paper_calls p [] = p
  paper_calls p (c ∷ calls) = paper_calls (paper_call p c) calls

  -- The ids in use are below the next one.
  unfoldable pub IsNumbered : PaperCommander → Type 0
  IsNumbered p =
      (position_id : ℕ) → contains position_id p.positions ≡ true → position_id < p.next_id

  paper_call-IsNumbered :
      (p : PaperCommander) (c : PaperCall) → IsNumbered p → IsNumbered (paper_call p c)
  unfolding paper_call open_paper close_paper IsNumbered
  paper_call-IsNumbered p (opens true symbol price slippage) v k h = ground (
    arith,
    v k,
    lookup-insert k p.next_id (record { symbol = symbol; entry = price }) p.positions,
  )
  paper_call-IsNumbered p (opens false symbol price slippage) v k h = v k h
  paper_call-IsNumbered p (closes position_id) v k h =
      ground (arith, v k, lookup-erase k position_id p.positions)

  paper_calls-IsNumbered :
      (p : PaperCommander) (calls : List PaperCall)
      → IsNumbered p
      → IsNumbered (paper_calls p calls)
  unfolding paper_calls
  paper_calls-IsNumbered p [] v = v
  paper_calls-IsNumbered p (c ∷ calls) v =
      paper_calls-IsNumbered (paper_call p c) calls (paper_call-IsNumbered p c v)

  unused : (p : PaperCommander) → IsNumbered p → contains p.next_id p.positions ≡ false
  unfolding IsNumbered
  unused p v = elim (Bool-cases (contains p.next_id p.positions)) [
    | inl used ↦ absurd (omega (arith, v p.next_id used))
    | inr free ↦ free
  ]

  none_used : IsNumbered new_paper
  unfolding IsNumbered new_paper lookup
  none_used k h = cc h

  -- After any calls on a new paper commander, an accepted order gets an id that no open position
  -- has, under which the first close succeeds and the next one fails.
  pub open_paper-fresh :
      (calls : List PaperCall) (symbol : String) (price slippage : Float)
      → let p = paper_calls new_paper calls in
        let (q, fill) = open_paper p true symbol price slippage in
        (f : PaperFill) × (fill ≡ some f)
        × (contains f.position_id p.positions ≡ false)
        × ((close_paper q f.position_id).1 ≡ true)
        × ((close_paper (close_paper q f.position_id).0 f.position_id).1 ≡ false)
  unfolding open_paper close_paper
  open_paper-fresh calls symbol price slippage = (
    _,
    refl,
    unused (paper_calls new_paper calls) (paper_calls-IsNumbered new_paper calls none_used),
    ap is_some (lookup-insert_self (paper_calls new_paper calls).next_id _ _),
    ap is_some (lookup-erase_self (paper_calls new_paper calls).next_id _),
  )
