-- ===== src/Database.antt =====
-- internal/db/db.go: the store of sensor readings.
-- The pgx driver and the database behind it are a parameter, the record `Pgx`: a call of it finds
-- the state of both and leaves it changed. A pointer is an `Option`.
pub mod Rows
use valve_controller.Common.{
  ℕ, zero, suc, ℤ, Bool, List, [], ◌∷◌, Option, none, some, ◌++◌, if◌then◌else◌,
}
use valve_controller.Common.Text.{Text, text, is_empty}

-- An argument of a statement.
pub data Arg (Time Float : Type 0) : Type 0 where
  time_arg : Time → Arg Time Float
  text_arg : Text → Arg Time Float
  float_arg : Float → Arg Time Float
  int_arg : ℤ → Arg Time Float

pub record ReadingRow (Time Float : Type 0) : Type 0 where
  pub time : Time
  pub metric : Text
  pub value : Float
  pub unit : Text

pub record Reading (Time Float : Type 0) : Type 0 where
  pub time : Time
  pub device_name : Text
  pub metric : Text
  pub value : Float
  pub unit : Text
  pub quality : ℤ

pub record Pgx : Type 1 where
  pub Pool : Type 0  -- what a *pgxpool.Pool points to
  pub Rows : Type 0
  pub Error : Type 0
  pub Time : Type 0
  pub Float : Type 0
  pub Host : Type 0
  pub new_pool : (dsn : Text) → Host → (Option Pool × Option Error) × Host
  pub ping : Option Pool → Host → Option Error × Host
  pub close : Option Pool → Host → Host
  pub exec : Option Pool → (sql : Text) → List (Arg Time Float) → Host → Option Error × Host
  pub query :
      Option Pool → (sql : Text) → List (Arg Time Float) → Host → (Rows × Option Error) × Host
  pub next : Rows → Host → Bool × Host
  pub scan : Rows → Host → (ReadingRow Time Float × Option Error) × Host
  pub err : Rows → Host → Option Error
  pub close_rows : Rows → Host → Host

abbrev pub insert_reading_sql : Text
insert_reading_sql =
    text
      "\n    INSERT INTO device_readings (time, device_name, metric, value, unit, quality)\n    VALUES ($1, $2, $3, $4, $5, $6)"

abbrev pub list_readings_sql : Text
list_readings_sql =
    text
      "\n    SELECT time, metric, value, unit\n    FROM device_readings\n    WHERE device_name = $1\n      AND time >= $2\n      AND time <  $3\n    ORDER BY time DESC\n    LIMIT $4 OFFSET $5"

module _ (pgx : Pgx) where
  pub record Store : Type 0 where
    pub pool : Option pgx.Pool

  -- `New`.
  unfoldable pub new : Text → pgx.Host → (Option Store × Option pgx.Error) × pgx.Host
  new dsn h =
      if is_empty dsn
      then ((none, none), h)
      else (let ((pool, failed), h1) = pgx.new_pool dsn h in
          elim failed [
            | some e ↦ ((none, some e), h1)
            | none ↦
                let (unreachable, h2) = pgx.ping pool h1 in
                elim unreachable [
                  | some e ↦ ((none, some e), h2)
                  | none ↦ ((some (record { pool = pool }), none), h2)
                ]
          ])

  -- `Close`.
  unfoldable pub close : Option Store → pgx.Host → pgx.Host
  close none h = h
  close (some s) h = elim s.pool [ none ↦ h | some p ↦ pgx.close (some p) h ]

  -- `InsertReading`.
  unfoldable pub insert_reading :
      Option Store → Reading pgx.Time pgx.Float → pgx.Host → Option pgx.Error × pgx.Host
  insert_reading none r h = (none, h)
  insert_reading (some s) r h =
      pgx.exec s.pool insert_reading_sql
        (time_arg r.time
          ∷ text_arg r.device_name
          ∷ text_arg r.metric
          ∷ float_arg r.value
          ∷ text_arg r.unit
          ∷ int_arg r.quality
          ∷ [])
        h

  abbrev pub Answer : Type 0
  Answer = (List (ReadingRow pgx.Time pgx.Float) × Option pgx.Error) × pgx.Host

  -- The loop over the rows. It goes on for as long as the driver says that there is a further row:
  -- `none` is a loop that has not ended after the rounds that are left.
  unfoldable pub read_rows :
      ℕ → pgx.Rows → List (ReadingRow pgx.Time pgx.Float) → pgx.Host → Option Answer
  read_rows zero r out h = none
  read_rows (suc n) r out h =
      let (more, h1) = pgx.next r h in
      let ((row, failed), h2) = pgx.scan r h1 in
      let rest = read_rows n r (out ++ row ∷ []) h2 in
      if more
      then elim failed [ none ↦ rest | some e ↦ some (([], some e), h2) ]
      else some ((out, pgx.err r h1), h1)

  -- `defer rows.Close()`.
  abbrev pub closing : pgx.Rows → Option Answer → Option Answer
  closing r none = none
  closing r (some (result, h)) = some (result, pgx.close_rows r h)

  -- The arguments of the query.
  abbrev pub query_args :
      (device_name : Text) (from to : pgx.Time) (limit offset : ℤ) → List (Arg pgx.Time pgx.Float)
  query_args device_name from to limit offset =
      text_arg device_name ∷ time_arg from ∷ time_arg to ∷ int_arg limit ∷ int_arg offset ∷ []

  -- What follows the query.
  abbrev pub read_all : ℕ → (pgx.Rows × Option pgx.Error) × pgx.Host → Option Answer
  read_all rounds ((r, none), h) = closing r (read_rows rounds r [] h)
  read_all rounds ((r, some e), h) = some (([], some e), h)

  -- `QueryReadings`, with the rounds of the loop.
  unfoldable pub query_readings :
      ℕ
      → Option Store
      → (device_name : Text) (from to : pgx.Time) (limit offset : ℤ) → pgx.Host
      → Option Answer
  query_readings rounds none device_name from to limit offset h = some (([], none), h)
  query_readings rounds (some s) device_name from to limit offset h =
      read_all rounds
        (pgx.query s.pool list_readings_sql (query_args device_name from to limit offset) h)

  -- `Ping`.
  unfoldable pub ping : Option Store → pgx.Host → Option pgx.Error × pgx.Host
  ping none h = (none, h)
  ping (some s) h = pgx.ping s.pool h
