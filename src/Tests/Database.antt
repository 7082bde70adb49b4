-- ===== src/Tests/Database.antt =====
-- A driver that keeps the rows of its answer, and what the store reads with it.
use valve_controller.Common.{
  ℕ, suc, pos, Bool, true, false, ◌⊎◌, inl, inr, List, [], ◌∷◌, Option, none, some, ◌-◌, ◌≡◌, refl,
  arith,
}
use valve_controller.Common.Text.{Text, text}
use valve_controller.Database.{Pgx, ReadingRow, Store, new, close, query_readings, read_rows}
use valve_controller.Database.Rows.{
  after_last, Delivers, no_more, one_more, query_readings-Delivers,
}

abbrev Line : Type 0
Line = ReadingRow ℕ ℕ

-- The rows that are still to come, where `inr` cannot be read; the one that is at hand; and the
-- result sets and pools that are open.
record Driver : Type 0 where
  to_come : List (Line ⊎ Text)
  at_hand : Option (Line ⊎ Text)
  open_rows : ℕ
  open_pools : ℕ

abbrev advance : List (Line ⊎ Text) → Driver → Bool × Driver
advance [] d = (false, record d { at_hand = none })
advance (x ∷ xs) d = (true, record d { at_hand = some x; to_come = xs })

abbrev blank : Line
blank = record { time = 0; metric = []; value = 0; unit = [] }

abbrev read_line : Option (Line ⊎ Text) → Line × Option Text
read_line none = (blank, some (text "no row"))
read_line (some (inl row)) = (row, none)
read_line (some (inr e)) = (blank, some e)

abbrev driver : Pgx
driver = record {
  Pool = Text;
  Rows = Unit {0};
  Error = Text;
  Time = ℕ;
  Float = ℕ;
  Host = Driver;
  new_pool = λ dsn d. ((some dsn, none), record d { open_pools = suc d.open_pools });
  ping = λ pool d. (none, d);
  close = λ pool d. record d { open_pools = d.open_pools - 1 };
  exec = λ pool sql args d. (none, d);
  query = λ pool sql args d. ((tt, none), record d { open_rows = suc d.open_rows });
  next = λ r d. advance d.to_come d;
  scan = λ r d. (read_line d.at_hand, d);
  err = λ r d. none;
  close_rows = λ r d. record d { open_rows = d.open_rows - 1 };
}

abbrev row : ℕ → Line
row t = record { time = t; metric = text "battery"; value = 87; unit = text "%" }

abbrev holding : List (Line ⊎ Text) → Driver
holding xs = record { to_come = xs; at_hand = none; open_rows = 0; open_pools = 0 }

abbrev opened : List (Line ⊎ Text) → Driver
opened xs = record { to_come = xs; at_hand = none; open_rows = 1; open_pools = 0 }

abbrev at : Option (Line ⊎ Text) → List (Line ⊎ Text) → Driver
at x xs = record { to_come = xs; at_hand = x; open_rows = 1; open_pools = 0 }

abbrev store : Store driver
store = record { pool = some (text "postgres://db") }

delivered :
    Delivers driver tt
      (opened (inl (row 2) ∷ inl (row 1) ∷ []))
      (row 2 ∷ row 1 ∷ [])
      (after_last none)
      (at none [])
delivered =
    one_more (opened (inl (row 2) ∷ inl (row 1) ∷ [])) (at (some (inl (row 2))) (inl (row 1) ∷ []))
      (at (some (inl (row 2))) (inl (row 1) ∷ [])) (at none []) (row 2) (row 1 ∷ [])
      (after_last none) refl refl
      (one_more (at (some (inl (row 2))) (inl (row 1) ∷ [])) (at (some (inl (row 1))) [])
        (at (some (inl (row 1))) []) (at none []) (row 1) [] (after_last none) refl refl
        (no_more (at (some (inl (row 1))) []) (at none []) refl))

query_readings-Delivers_example :
    query_readings driver 3
      (some store)
      (text "valve1")
      1
      3
      (pos 10)
      (pos 0)
      (holding (inl (row 2) ∷ inl (row 1) ∷ []))
    ≡ some ((row 2 ∷ row 1 ∷ [], none), holding [])
query_readings-Delivers_example =
    query_readings-Delivers driver 3 store (text "valve1") 1 3 (pos 10) (pos 0)
      (holding (inl (row 2) ∷ inl (row 1) ∷ [])) (opened (inl (row 2) ∷ inl (row 1) ∷ []))
      (at none []) tt (row 2 ∷ row 1 ∷ []) (after_last none) refl delivered (omega arith)

-- A row that cannot be read hides the ones before it, and the result set is closed all the same.
unreadable_row :
    query_readings driver 3
      (some store)
      (text "valve1")
      1
      3
      (pos 10)
      (pos 0)
      (holding (inl (row 2) ∷ inr (text "bad") ∷ []))
    ≡ some (([], some (text "bad")), record (holding []) { at_hand = some (inr (text "bad")) })
unfolding query_readings read_rows
unreadable_row = refl

-- A store that was opened answers a ping, and is closed again.
lifecycle :
    let (opened, d) = new driver (text "postgres://db") (holding []) in
    (opened ≡ (some store, none)) × (close driver opened.0 d ≡ holding [])
unfolding new close
lifecycle = (refl, refl)
