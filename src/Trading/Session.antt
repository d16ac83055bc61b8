-- ===== src/Trading/Session.antt =====
-- engine/execution/session/manager.go, and the session table of
-- engine/execution/repository/repository.go. A new session's id and start time are arguments.
pub mod Lifecycle
pub mod Restarts
use text.Mathlib.Text.{◌==◌ as str_eq}
use erebor.Prelude.{
  ℕ, Bool, true, false, Option, none, some, String, List, [], ◌∷◌, ◌||◌, if◌then◌else◌, ltb,
}

-- execution/domain/types.go.
pub data SessionStatus : Type 0 where
  running stopped halted : SessionStatus

pub record PaperSession : Type 0 where
  pub session_id : String
  pub status : SessionStatus
  pub symbols : List String
  pub strategy_config : String
  pub started_at : ℕ
  pub stopped_at : Option ℕ
  pub error : String

-- session.SessionStore; `none` outside is an error. `P` is the type of position records, `E` of
-- equities.
pub record SessionStore (P E : Type 0) : Type 1 where
  pub Self : Type 0
  pub create_session : Self → PaperSession → Option Self
  pub update_session_status : Self → String → SessionStatus → Option ℕ → String → Option Self
  pub load_running_session : Self → Option (Option PaperSession)
  pub load_latest_session : Self → Option (Option PaperSession)
  pub load_positions : Self → String → Option (List P)
  pub load_latest_equity : Self → String → Option E

pub record StartResult (P E : Type 0) : Type 0 where
  pub session : PaperSession
  pub positions : List P
  -- `none` is the zero equity of a new session.
  pub equity : Option E
  pub recovered : Bool

pub data StartError : Type 0 where
  store_failed : StartError
  is_halted : String → StartError

pub data Result {ℓ} (A : Type ℓ) : Type ℓ where
  ok : A → Result A
  err : StartError → Result A

infixl 5 ◌>>=◌
abbrev pub ◌>>=◌ {ℓ κ} : {A : Type ℓ} {B : Type κ} → Result A → (A → Result B) → Result B
ok a >>= f = f a
err e >>= f = err e

abbrev or_fail {ℓ} : {A : Type ℓ} → Option A → Result A
or_fail none = err store_failed
or_fail (some a) = ok a

abbrev pub is_halted_status : SessionStatus → Bool
is_halted_status halted = true
is_halted_status running = false
is_halted_status stopped = false

module _ {P E : Type 0} (S : SessionStore P E) where
  pub record Manager : Type 0 where
    pub store : S.Self
    pub session : Option PaperSession

  unfoldable pub resume : Manager → PaperSession → Result (Manager × StartResult P E)
  resume m s = do
    positions ← or_fail (S.load_positions m.store s.session_id)
    equity ← or_fail (S.load_latest_equity m.store s.session_id)
    ok (
      record m { session = some s },
      record { session = s; positions = positions; equity = some equity; recovered = true },
    )

  unfoldable pub create_new : Manager → PaperSession → Result (Manager × StartResult P E)
  create_new m s = do
    store ← or_fail (S.create_session m.store s)
    ok (
      record { store = store; session = some s },
      record { session = s; positions = []; equity = none; recovered = false },
    )

  -- The tail of `Start`, by the latest session.
  unfoldable pub start_latest :
      Manager → PaperSession → Option PaperSession → Result (Manager × StartResult P E)
  unfolding create_new
  start_latest m fresh none = create_new m fresh
  start_latest m fresh (some latest) =
      if is_halted_status latest.status
      then err (is_halted latest.session_id)
      else create_new m fresh

  unfoldable pub start_running :
      Manager → PaperSession → Option PaperSession → Result (Manager × StartResult P E)
  unfolding resume start_latest
  start_running m fresh (some s) = resume m s
  start_running m fresh none = do
    latest ← or_fail (S.load_latest_session m.store)
    start_latest m fresh latest

  abbrev pub new_session : String → List String → String → ℕ → PaperSession
  new_session id symbols strategy_config now = record {
    session_id = id;
    status = running;
    symbols = symbols;
    strategy_config = strategy_config;
    started_at = now;
    stopped_at = none;
    error = "";
  }

  unfoldable pub start :
      Manager → String → List String → String → ℕ → Result (Manager × StartResult P E)
  unfolding start_running
  start m id symbols strategy_config now = do
    found ← or_fail (S.load_running_session m.store)
    start_running m (new_session id symbols strategy_config now) found

  -- `Stop` and `Halt` with the status that they set; with no session they do nothing.
  abbrev finish : Manager → SessionStatus → ℕ → String → Option PaperSession → Result Manager
  finish m status now reason none = ok m
  finish m status now reason (some s) = do
    store ← or_fail (S.update_session_status m.store s.session_id status (some now) reason)
    ok (record m { store = store })

  unfoldable pub stop : Manager → ℕ → Result Manager
  stop m now = finish m stopped now "" m.session

  unfoldable pub halt : Manager → ℕ → String → Result Manager
  halt m now reason = finish m halted now reason m.session

-- The table paper_sessions.
abbrev pub is_running : SessionStatus → Bool
is_running running = true
is_running stopped = false
is_running halted = false

unfoldable pub set_status :
    List PaperSession → String → SessionStatus → Option ℕ → String → List PaperSession
set_status [] id status stopped_at reason = []
set_status (s ∷ rows) id status stopped_at reason =
    let rest = set_status rows id status stopped_at reason in
    if str_eq s.session_id id
    then record s { status = status; stopped_at = stopped_at; error = reason } ∷ rest
    else s ∷ rest

abbrev pub has_session : String → List PaperSession → Bool
has_session id [] = false
has_session id (s ∷ rows) = str_eq s.session_id id || has_session id rows

-- CreateSession: `none` first is a configuration that json.Marshal or the type JSONB refuses, and
-- otherwise what the column then reads as. The id is the primary key.
unfoldable pub create_row :
    Option String → List PaperSession → PaperSession → Option (List PaperSession)
create_row none rows s = none
create_row (some json) rows s =
    if has_session s.session_id rows
    then none
    else some (record s { strategy_config = json } ∷ rows)

-- ORDER BY started_at DESC LIMIT 1.
abbrev later : PaperSession → Option PaperSession → PaperSession
later s none = s
later s (some t) = if ltb s.started_at t.started_at then t else s

unfoldable pub latest_session : List PaperSession → Option PaperSession
latest_session [] = none
latest_session (s ∷ rows) = some (later s (latest_session rows))

unfoldable pub running_sessions : List PaperSession → List PaperSession
running_sessions [] = []
running_sessions (s ∷ rows) =
    let rest = running_sessions rows in if is_running s.status then s ∷ rest else rest

abbrev pub session_table :
    {P E : Type 0} → (String → Option String) → (String → List P) → (String → E) → SessionStore P E
session_table to_jsonb positions equity = record {
  Self = List PaperSession;
  create_session = λ rows s. create_row (to_jsonb s.strategy_config) rows s;
  update_session_status =
      λ rows id status stopped_at reason. some (set_status rows id status stopped_at reason);
  load_running_session = λ rows. some (latest_session (running_sessions rows));
  load_latest_session = λ rows. some (latest_session rows);
  load_positions = λ rows id. some (positions id);
  load_latest_equity = λ rows id. some (equity id);
}
