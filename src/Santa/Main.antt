-- ===== src/Santa/Main.antt =====
-- `main` of cw10/zad10.c: it creates the threads, waits for Santa and cancels the reindeer.
use systemy_operacyjne_agh.Prelude.{ℕ, zero, suc, Bool, true, false, not, if◌then◌else◌}
use systemy_operacyjne_agh.Santa.Machine.{reindeers_num}

-- Whether the calls succeed.
pub record ThreadCalls : Type 0 where
  pub create_santa : Bool
  pub create_reindeer : ℕ → Bool
  pub join_santa : Bool

-- The loop that creates the reindeer, with `left` rounds left: how many there are at its end, and
-- whether no call failed.
unfoldable pub create_reindeers : (ℕ → Bool) → ℕ → ℕ → ℕ × Bool
create_reindeers create zero i = (i, true)
create_reindeers create (suc left) i =
    let rest : ℕ × Bool = create_reindeers create left (suc i) in
    if create i then rest else (i, false)

-- `exit(1)` ends all threads; otherwise Santa has ended, and each reindeer is cancelled.
pub data MainEnd : Type 0 where
  failed : MainEnd
  cancelled : (reindeers : ℕ) → MainEnd

unfoldable pub santa_main : ThreadCalls → MainEnd
santa_main calls =
    let (created, all) = create_reindeers calls.create_reindeer reindeers_num 0 in
    if not calls.create_santa
    then MainEnd.failed
    else (if not all
        then MainEnd.failed
        else (if not calls.join_santa then MainEnd.failed else MainEnd.cancelled created))
