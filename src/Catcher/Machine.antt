-- ===== src/Catcher/Machine.antt =====
-- cw5/zadanie2/catcher.c: the loop of `main`, and the handler that may run between any two steps.
use systemy_operacyjne_agh.Prelude.{ℕ, ◌+◌, List, [], ◌∷◌, ◌++◌, leb, if◌then◌else◌}
use systemy_operacyjne_agh.Prelude.Int.{ℤ, pos, eqb_ℤ}

-- Where `main` stands.
pub data Place : Type 0 where
  switching : Place  -- before the `switch`
  numbers : ℕ → Place  -- in the loop of `printNumber`
  counting : Place  -- before the print of `pinntRequestsNumber`
  ending : Place  -- in `endProgram`
  resetting : Place  -- before `workType = 4`
  pausing : Place  -- before `pause`
  paused : Place  -- in `pause`
  exited : Place

pub data Line : Type 0 where
  number : ℕ → Line
  requests : ℕ → Line
  caput : Line

pub record Catcher : Type 0 where
  pub requests_number : ℕ
  pub work_type : ℤ
  pub place : Place
  pub printed : List Line
  pub replies : ℕ  -- the signals sent back

abbrev pub catcher_start : Catcher
catcher_start = record {
  requests_number = 0;
  work_type = pos 4;
  place = Place.switching;
  printed = [];
  replies = 0;
}

-- `switch(workType)`
abbrev pub chosen : ℤ → Place
chosen work_type =
    if eqb_ℤ work_type (pos 1)
    then Place.numbers 0
    else (if eqb_ℤ work_type (pos 2)
        then Place.counting
        else (if eqb_ℤ work_type (pos 3) then Place.ending else Place.pausing))

-- One step of `main`; in `pause`, and after `exit`, it has none.
unfoldable pub work : Catcher → Catcher
work c = elim c.place [
  | Place.switching ↦ record c { place = chosen c.work_type }
  | Place.numbers i ↦
      if leb i 100
      then record c { place = Place.numbers (i + 1); printed = c.printed ++ Line.number i ∷ [] }
      else record c { place = Place.resetting }
  | Place.counting ↦ record c {
    place = Place.resetting;
    printed = c.printed ++ Line.requests c.requests_number ∷ [];
  }
  | Place.ending ↦ record c { place = Place.exited; printed = c.printed ++ Line.caput ∷ [] }
  | Place.resetting ↦ record c { place = Place.switching; work_type = pos 4 }
  | Place.pausing ↦ record c { place = Place.paused }
  | Place.paused ↦ c
  | Place.exited ↦ c
]

-- Where `main` stands after a handler: `pause` returns.
abbrev pub resumed : Place → Place
resumed Place.paused = Place.switching
resumed place = place

-- `actionFunction`, for a signal that carries `si_status`; nobody handles it after `exit`.
unfoldable pub catch : ℤ → Catcher → Catcher
catch si_status c = elim c.place [
  | Place.exited ↦ c
  | _ ↦ record c {
    requests_number = c.requests_number + 1;
    work_type = si_status;
    place = resumed c.place;
    replies = c.replies + 1;
  }
]

pub data Event : Type 0 where
  works : Event
  arrives : ℤ → Event

unfoldable pub run : List Event → Catcher → Catcher
run [] c = c
run (Event.works ∷ events) c = run events (work c)
run (Event.arrives si_status ∷ events) c = run events (catch si_status c)
