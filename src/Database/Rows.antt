-- ===== src/Database/Rows.antt =====
-- internal/db/db.go: what `QueryReadings` answers with.
use valve_controller.Common.{
  ℕ, zero, suc, ◌<◌, true, false, List, [], ◌∷◌, ◌++◌, ℤ, Option, none, some, ◌≡◌, refl, ap, ◌∙◌,
  arith, length,
}
use mathlib.Core.List.{append_assoc, append-nil}
use valve_controller.Common.Text.{Text}
use valve_controller.Database.{
  Pgx, ReadingRow, Reading, query_args, read_all, list_readings_sql, Store, new, close,
  insert_reading, read_rows, closing, query_readings, ping,
}

-- How a result set comes to its end: after the last row, with or without an error of the driver,
-- or at a row that cannot be read.
pub data End (Error : Type 0) : Type 0 where
  after_last : Option Error → End Error
  unreadable : Error → End Error

module _ (pgx : Pgx) where
  abbrev pub Row : Type 0
  Row = ReadingRow pgx.Time pgx.Float

  -- What the driver makes of a result set, from one state to another: the rows that can be read,
  -- and how it ends.
  pub data Delivers (r : pgx.Rows) : pgx.Host → List Row → End pgx.Error → pgx.Host → Type 0 where
    no_more :
        (h h1 : pgx.Host)
        → pgx.next r h ≡ (false, h1)
        → Delivers r h [] (after_last (pgx.err r h1)) h1
    bad_row :
        (h h1 h2 : pgx.Host) (row : Row) (e : pgx.Error)
        → pgx.next r h ≡ (true, h1)
        → pgx.scan r h1 ≡ ((row, some e), h2)
        → Delivers r h [] (unreadable e) h2
    one_more :
        (h h1 h2 h3 : pgx.Host) (row : Row) (rows : List Row) (end : End pgx.Error)
        → pgx.next r h ≡ (true, h1)
        → pgx.scan r h1 ≡ ((row, none), h2)
        → Delivers r h2 rows end h3
        → Delivers r h (row ∷ rows) end h3

  -- Rows that were read before one that cannot be are not returned.
  abbrev pub answer : List Row → End pgx.Error → List Row × Option pgx.Error
  answer rows (after_last failed) = (rows, failed)
  answer rows (unreadable e) = ([], some e)

  pub read_rows-Delivers :
      (n : ℕ) (r : pgx.Rows) (out : List Row) (h h1 : pgx.Host) (rows : List Row)
      (end : End pgx.Error)
      → Delivers r h rows end h1
      → length rows < n
      → read_rows pgx n r out h ≡ some (answer (out ++ rows) end, h1)
  unfolding read_rows
  read_rows-Delivers zero r out h h1 rows end d lt = elim lt [ ]
  read_rows-Delivers (suc n) r out h _ _ _ (no_more _ h1 p) lt = rw (p, append-nil out) refl
  read_rows-Delivers (suc n) r out h _ _ _ (bad_row _ h2 h1 row e p q) lt = ground (arith, p, q)
  read_rows-Delivers (suc n) r out h h1 _ end (one_more _ h2 h3 _ row rest _ p q d) lt =
      let rest_read =
        read_rows-Delivers n r (out ++ row ∷ []) h3 h1 rest end d (omega arith)
        ∙ ap (λ xs. some (answer xs end, h1)) (append_assoc out (row ∷ []) rest) in
      ground (arith, p, q, rest_read)

  -- Given a result set that the driver delivers, and as many rounds as it has rows and one more:
  -- `QueryReadings` returns exactly its rows, in their order, with the error that the driver ends
  -- with, or no row and the error where one of them cannot be read. In each case the result set is
  -- closed last.
  pub query_readings-Delivers :
      (rounds : ℕ) (s : Store pgx) (device_name : Text) (from to : pgx.Time) (limit offset : ℤ)
      (h h1 h2 : pgx.Host) (r : pgx.Rows) (rows : List Row) (end : End pgx.Error)
      → pgx.query s.pool list_readings_sql (query_args pgx device_name from to limit offset) h
        ≡ ((r, none), h1)
      → Delivers r h1 rows end h2
      → length rows < rounds
      → query_readings pgx rounds (some s) device_name from to limit offset h
        ≡ some (answer rows end, pgx.close_rows r h2)
  unfolding query_readings
  query_readings-Delivers rounds s device_name from to limit offset h h1 h2 r rows end q d lt =
      ap (read_all pgx rounds) q
      ∙ ap (closing pgx r) (read_rows-Delivers rounds r [] h1 h2 rows end d lt)

  -- `QueryReadings` returns the error of the query where that fails, and reads nothing.
  pub query_readings_failed :
      (rounds : ℕ) (s : Store pgx) (device_name : Text) (from to : pgx.Time) (limit offset : ℤ)
      (h h1 : pgx.Host) (r : pgx.Rows) (e : pgx.Error)
      → pgx.query s.pool list_readings_sql (query_args pgx device_name from to limit offset) h
        ≡ ((r, some e), h1)
      → query_readings pgx rounds (some s) device_name from to limit offset h
        ≡ some (([], some e), h1)
  unfolding query_readings
  query_readings_failed rounds s device_name from to limit offset h h1 r e q =
      ap (read_all pgx rounds) q

  -- Without a data source name there is no store and no error, and each method of what `New` gives
  -- then succeeds and calls nothing.
  pub new_unconfigured :
      (rounds : ℕ) (reading : Reading pgx.Time pgx.Float) (device_name : Text) (from to : pgx.Time)
      (limit offset : ℤ) (h : pgx.Host)
      → let r = new pgx [] h in
        let s = r.0.0 in
        (r.0.1 ≡ none)
        × (r.1 ≡ h)
        × (insert_reading pgx s reading h ≡ (none, h))
        × (query_readings pgx rounds s device_name from to limit offset h ≡ some (([], none), h))
        × (ping pgx s h ≡ (none, h))
        × (close pgx s h ≡ h)
  unfolding new insert_reading query_readings ping close
  new_unconfigured rounds reading device_name from to limit offset h =
      (refl, refl, refl, refl, refl, refl)
