-- ===== src/Broker/CommandQueue.antt =====
-- internal/broker/retention_queue.go: the ring of commands. A cell is none where its pointer is nil,
-- and a command that is pushed is not nil. The outer option of a result is none for a panic, where an
-- index is out of range.
pub mod Rings
pub mod Runs
mod Tests
use persea_terminal.Base.{
  ℕ, ◌+◌, ◌-◌, ◌*◌, ◌%◌, Bool, true, false, Option, none, some, List, ltb, ◌==◌, if◌then◌else◌,
  ◌>>=◌, length, get_elem?, set, replicate, add64,
}

pub record CommandQueue {ℓ} (A : Type ℓ) : Type ℓ where
  pub cells : List (Option A)
  pub head : ℕ
  pub count : ℕ
  pub cell_writes : ℕ

abbrev pub popped {ℓ} : {A : Type ℓ} → CommandQueue A → List (Option A) → CommandQueue A
popped q cells = record q {
  cells = cells;
  cell_writes = add64 q.cell_writes 1;
  head = (q.head + 1) % length cells;
  count = q.count - 1;
}

module _ {ℓ} {A : Type ℓ} where
  abbrev pub new_command_queue : ℕ → ℕ → CommandQueue A
  new_command_queue commands generations = record {
    cells = replicate (2 * (commands + generations + 1) + 1) none;
    head = 0;
    count = 0;
    cell_writes = 0;
  }

  -- A write of a slice.
  abbrev pub write_cell : List (Option A) → ℕ → Option A → Option (List (Option A))
  write_cell cells i v = if ltb i (length cells) then some (set cells i v) else none

  unfoldable pub front : CommandQueue A → Option (Option A)
  front q = if q.count == 0 then some none else get_elem? q.cells q.head

  unfoldable pub back : CommandQueue A → Option (Option A)
  back q =
      if q.count == 0
      then some none
      else get_elem? q.cells ((q.head + q.count - 1) % length q.cells)

  abbrev pub pushed : CommandQueue A → List (Option A) → CommandQueue A
  pushed q cells = record q {
    cells = cells;
    cell_writes = add64 q.cell_writes 1;
    count = q.count + 1;
  }

  unfoldable pub push : CommandQueue A → A → Option (Bool × CommandQueue A)
  push q command =
      if q.count == length q.cells
      then some (false, q)
      else (write_cell q.cells ((q.head + q.count) % length q.cells) (some command) >>= λ cells.
          some (true, pushed q cells))

  abbrev pub pop_front : CommandQueue A → Option A → Option (Option A × CommandQueue A)
  pop_front q none = some (none, q)
  pop_front q (some command) =
      write_cell q.cells q.head none >>= λ cells. some (some command, popped q cells)

  unfoldable pub pop : CommandQueue A → Option (Option A × CommandQueue A)
  pop q = front q >>= λ command. pop_front q command
