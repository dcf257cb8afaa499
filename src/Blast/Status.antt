-- ===== src/Blast/Status.antt =====
-- The decisions of `trigger_status` in apps/api/routers/v1/blast.py: what the operator is shown of
-- the command and its delivery. The two lists of recent events, which are only displayed, are left out.
use slope_monitoring.Common.{
  ℕ, ◌+◌, String, Bool, true, false, not, ◌&&◌, Option, none, some, List, [], ◌∷◌, ltb, leb, ◌==◌,
  str_eq, if◌then◌else◌,
}
use slope_monitoring.Common.Int.{ℤ, pos, negsuc}
use slope_monitoring.Blast.Values.{Value, null, boolean, integer, text, opaque}
use slope_monitoring.Blast.Tables.{
  ConfigRow, PendingRow, TimeoutRow, AckRow, Db, find_config, latest_pending,
}

later_timeout : TimeoutRow → Option TimeoutRow → Option TimeoutRow
later_timeout t none = some t
later_timeout t (some u) = if ltb t.expired_at u.expired_at then some u else some t

-- SELECT ... FROM blast_trigger_timeout_events WHERE device_id=$1 ORDER BY expired_at DESC, id DESC
-- LIMIT 1; later rows stand in front
unfoldable pub latest_timeout : String → List TimeoutRow → Option TimeoutRow
unfolding later_timeout
latest_timeout dev [] = none
latest_timeout dev (t ∷ ts) =
    let rest = latest_timeout dev ts in
    if str_eq t.device_id dev then later_timeout t rest else rest

later_ack : AckRow → Option AckRow → Option AckRow
later_ack a none = some a
later_ack a (some b) = if ltb a.server_received_at b.server_received_at then some b else some a

-- the latest acknowledgment of this pending row by the base itself
unfoldable pub latest_ack : String → ℕ → List AckRow → Option AckRow
unfolding later_ack
latest_ack dev id [] = none
latest_ack dev id (a ∷ rest) =
    let older = latest_ack dev id rest in
    if str_eq a.device_id dev && a.pending_config_id == id then later_ack a older else older

pub record Status : Type 0 where
  pub trigger_start : Option ℕ
  pub auto_timeout : Bool
  pub pending_config_id : Option ℕ
  pub acked : Bool
  pub is_pending : Bool

switch_of : ℤ → Option ℕ
switch_of (pos n) = if leb n 1 then some n else none
switch_of (negsuc n) = none

switch_value : Value → Option ℕ
switch_value (boolean true) = some 1
switch_value (boolean false) = some 0
switch_value (integer n) = switch_of n
switch_value (opaque o) = elim o.equals_int [ none ↦ none | some n ↦ switch_of n ]
switch_value null = none
switch_value (text s) = none

module _ (loads : String → Option Value) where
  decoded : Option Value → Option ℕ
  decoded none = none
  decoded (some v) = switch_value v

  -- boolean_integer(value)
  unfoldable pub boolean_integer : Value → Option ℕ
  unfolding decoded switch_value switch_of
  boolean_integer (text s) = decoded (loads s)
  boolean_integer v = switch_value v

  server_value : Option ConfigRow → Option ℕ
  server_value none = none
  server_value (some c) = boolean_integer c.config_value

same : Option ℕ → Option ℕ → Bool
same none none = true
same (some a) (some b) = a == b
same none (some b) = false
same (some a) none = false

-- abs((updated_at - expired_at).total_seconds()) < 5, where updated_at >= expired_at
timed_out : Option ℕ → Option ConfigRow → Option TimeoutRow → Bool
timed_out value none t = false
timed_out value (some c) none = false
timed_out value (some c) (some t) =
    same value (some 0)
    && leb t.expired_at c.updated_at
    && ltb c.updated_at (t.expired_at + 5000000)

ack_value : Option AckRow → Option ℤ
ack_value none = none
ack_value (some a) = some a.trigger_start

delivered : Option ℕ → Option ℤ → Bool
delivered (some a) (some (pos b)) = a == b
delivered value ack = false

acknowledged : String → Option ℕ → Db → Option PendingRow → Bool
acknowledged base value db none = false
acknowledged base value db (some p) = delivered value (ack_value (latest_ack base p.id db.acks))

id_of : Option PendingRow → Option ℕ
id_of none = none
id_of (some p) = some p.id

module _ (loads : String → Option Value) where
  current : Option ConfigRow → Option PendingRow → Bool
  current none p = false
  current (some c) none = false
  current (some c) (some p) =
      same (boolean_integer loads p.config_value) (boolean_integer loads c.config_value)
      && leb c.updated_at p.created_at

  unfoldable pub trigger_status : String → Db → Status
  unfolding server_value same timed_out current delivered acknowledged id_of ack_value
  trigger_status base db =
      let config = find_config base "TriggerStart" db.config in
      let latest = latest_pending base "TriggerStart" db.pending in
      let value = server_value loads config in
      let is_current = current config latest in
      let is_acked = is_current && acknowledged base value db latest in
      record {
        trigger_start = value;
        auto_timeout = timed_out value config (latest_timeout base db.timeouts);
        pending_config_id = if is_current then id_of latest else none;
        acked = is_acked;
        is_pending = is_current && not is_acked;
      }
