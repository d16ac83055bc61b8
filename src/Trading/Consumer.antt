-- ===== src/Trading/Consumer.antt =====
-- engine/execution/consumer/consumer.go: decoding of signals, and which messages stay in the
-- pending list. A handler maps a state and a message to the next state and to whether it
-- succeeded; an XACK is taken to reach Redis.
pub mod Pending
pub mod Group
pub mod Loop
use text.Mathlib.Text.{◌==◌ as str_eq}
use erebor.Prelude.{Bool, true, Option, none, some, String, List, [], ◌∷◌, if◌then◌else◌}
use erebor.Decimal.{Decimal}
use erebor.Platform.{Platform}
use erebor.Trading.Signals.{SignalEvent}
use erebor.Wire.{Message, string_val}

-- The errors of `decodeSignalEvent`.
pub data DecodeError : Type 0 where
  missing_symbol missing_event_time bad_event_time missing_value bad_value : DecodeError

pub data Result {ℓ} (A : Type ℓ) : Type ℓ where
  ok : A → Result A
  err : DecodeError → Result A

infixl 5 ◌>>=◌ ◌>>◌
abbrev ◌>>=◌ {ℓ κ} : {A : Type ℓ} {B : Type κ} → Result A → (A → Result B) → Result B
ok a >>= f = f a
err e >>= f = err e

abbrev ◌>>◌ {ℓ} : {B : Type ℓ} → Result (Unit {0}) → Result B → Result B
m >> k = m >>= λ _. k

abbrev required : String → DecodeError → Result (Unit {0})
required s e = if str_eq s "" then err e else ok tt

abbrev or_fail {ℓ} : {A : Type ℓ} → Option A → DecodeError → Result A
or_fail none e = err e
or_fail (some a) e = ok a

abbrev or_else {ℓ} : {A : Type ℓ} → Option A → Option A → Option A
or_else (some a) b = some a
or_else none b = b

module _ (𝒟 : Decimal) (𝒫 : Platform) where
  open 𝒟 use {Amount, of_string}

  unfoldable pub decode_signal_event : List (String × String) → Result (SignalEvent Amount)
  decode_signal_event values = do
    let sym = string_val values "symbol"
    let ts = string_val values "event_time"
    let val = string_val values "value"
    required sym missing_symbol
    required ts missing_event_time
    time ← or_fail (or_else (𝒫.parse_time_z ts) (𝒫.parse_time ts)) bad_event_time
    required val missing_value
    value ← or_fail (of_string val) bad_value
    ok (record {
      run_id = string_val values "run_id";
      symbol = sym;
      event_time = time;
      name = string_val values "name";
      version = string_val values "version";
      value = value;
    })

  module _ {St : Type 0} (handler : St → String → SignalEvent Amount → St × Bool) where
    -- The state after a message, and whether it is acknowledged.
    abbrev pub process : St → String → Result (SignalEvent Amount) → St × Bool
    process st id (err e) = (st, true)
    process st id (ok sig) = handler st id sig

    unfoldable pub handle_message : St → Message → St × Bool
    unfolding decode_signal_event
    handle_message st msg = process st msg.id (decode_signal_event msg.values)

    -- One batch: the state after it, and the messages left pending, in order.
    unfoldable pub handle_batch : St → List Message → St × List Message
    unfolding handle_message
    handle_batch st [] = (st, [])
    handle_batch st (msg ∷ msgs) =
        let (st', acked) = handle_message st msg in
        let (st'', left) = handle_batch st' msgs in (st'', (if acked then left else msg ∷ left))
