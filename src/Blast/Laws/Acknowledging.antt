-- ===== src/Blast/Laws/Acknowledging.antt =====
-- When an acknowledgment of a device counts, and what it writes.
use slope_monitoring.Common.{
  ℕ, ◌≤◌, String, ◌≡◌, refl, ◌⊎◌, true, Option, some, [], ◌∷◌, arith, eq_iff, Option-cases,
  List-cases, inl, inr,
}
use slope_monitoring.Common.Int.{ℤ, pos}
use slope_monitoring.Errors.{ok}
use slope_monitoring.Blast.Values.{Value}
use slope_monitoring.Blast.Tables.{
  Device, ConfigRow, PendingRow, Db, Reason, find_device, find_config, latest_pending,
}
use slope_monitoring.Blast.Trigger.{trigger_blast_atomic}
use slope_monitoring.Blast.Ack.{
  is_known_type, role_matches, bases_of, holds_value, Verdict, rejected, accepted, judge,
  acknowledge_trigger_start,
}
use slope_monitoring.Blast.Laws.Triggering.{IsFresh, trigger-Armed}

module _ (loads : String → Option Value) where
  -- What an accepted acknowledgment rests on: a registered sender of a known type in its role, the
  -- only base of its site, that base's active command and the latest pending row for it.
  pub record Accepted (device_id : String) (start : ℤ) (role : String) (db : Db) (base : String)
      (latest : PendingRow) : Type 0 where
    pub sender : Device
    only_base : Device
    pub active : ConfigRow
    pub registered : find_device device_id db.devices ≡ some sender
    known : is_known_type sender.device_type ≡ true
    in_role : role_matches role sender.device_type ≡ true
    pub unique : bases_of sender.site_id db.devices ≡ only_base ∷ []
    is_base : only_base.device_id ≡ base
    pub current : find_config base "TriggerStart" db.config ≡ some active
    same_value : holds_value loads start active.config_value ≡ true
    pub newest : latest_pending base "TriggerStart" db.pending ≡ some latest
    same_pending : holds_value loads start latest.config_value ≡ true
    not_stale : active.updated_at ≤ latest.created_at

  module _ (device_id : String) (start : ℤ) (role : String) (db : Db) {base : String}
      {latest : PendingRow} (h : judge loads device_id start role db ≡ accepted base latest) where
    sender_of : (d : Device) × (find_device device_id db.devices ≡ some d)
    unfolding judge
    sender_of = elim (Option-cases (find_device device_id db.devices)) [
      | inl e ↦ absurd (ground (arith, e))
      | inr found ↦ found
    ]

    base_of : (b : Device) × (bases_of sender_of.0.site_id db.devices ≡ b ∷ [])
    unfolding judge
    base_of = elim (List-cases (bases_of sender_of.0.site_id db.devices)) [
      | inl e ↦ absurd (ground (arith, e, sender_of.1))
      | inr (inl found) ↦ found
      | inr (inr (x, y, ys, e)) ↦ absurd (ground (arith, e, sender_of.1))
    ]

    active_of :
        (c : ConfigRow) × (find_config base_of.0.device_id "TriggerStart" db.config ≡ some c)
    unfolding judge
    active_of = elim (Option-cases (find_config base_of.0.device_id "TriggerStart" db.config)) [
      | inl e ↦ absurd (ground (arith, e, sender_of.1, base_of.1))
      | inr found ↦ found
    ]

    latest_of :
        (p : PendingRow) × (latest_pending base_of.0.device_id "TriggerStart" db.pending ≡ some p)
    unfolding judge
    latest_of = elim (Option-cases (latest_pending base_of.0.device_id "TriggerStart" db.pending)) [
      | inl e ↦ absurd (ground (arith, e, sender_of.1, base_of.1, active_of.1))
      | inr found ↦ found
    ]

    same_base : (base_of.0.device_id ≡ base) × (latest_of.0 ≡ latest)
    unfolding judge
    same_base = ground (arith, sender_of.1, base_of.1, active_of.1, latest_of.1)

    judge-Accepted : Accepted device_id start role db base latest
    unfolding judge
    judge-Accepted = record {
      sender = sender_of.0;
      only_base = base_of.0;
      active = active_of.0;
      registered = sender_of.1;
      known = ground (arith, sender_of.1);
      in_role = ground (arith, sender_of.1);
      unique = base_of.1;
      is_base = same_base.0;
      current = rw (← same_base.0) active_of.1;
      same_value = ground (arith, sender_of.1, base_of.1, active_of.1);
      newest = rw (← same_base.0, ← same_base.1) latest_of.1;
      same_pending = ground (arith, sender_of.1, base_of.1, active_of.1, latest_of.1);
      not_stale = ground (arith, sender_of.1, base_of.1, active_of.1, latest_of.1);
    }

  verdict_of :
      (v : Verdict)
      → ((why : Reason) × (b : Option String) × (v ≡ rejected why b))
        ⊎ ((b : String) × (p : PendingRow) × (v ≡ accepted b p))
  verdict_of (rejected why b) = inl (why, b, refl)
  verdict_of (accepted b p) = inr (b, p, refl)

  -- An acknowledgment that is answered with success was entitled: the sender is registered, of a
  -- known type and in its role, its site has one base, that base's command and its latest pending row
  -- hold the acknowledged value, and the row is not older than the command. It adds one row to the
  -- acknowledgments, for that pending row, and changes neither configuration nor rejections.
  pub ack-Accepted :
      (device_id : String) (start : ℤ) (role : String) (now : ℕ) (db : Db) {db' : Db}
      → acknowledge_trigger_start loads device_id start role now db ≡ (true, db')
      → (base : String) × (latest : PendingRow) × Accepted device_id start role db base latest
        × (db'.acks
            ≡ record {
              device_id = device_id;
              pending_config_id = latest.id;
              trigger_start = start;
              server_received_at = now;
              device_role = role;
            }
              ∷ db.acks)
        × (db'.config ≡ db.config)
        × (db'.rejections ≡ db.rejections)
  unfolding acknowledge_trigger_start
  ack-Accepted device_id start role now db h =
      elim (verdict_of (judge loads device_id start role db)) [
        | inl (why, b, e) ↦ absurd (ground (arith, e))
        | inr (b, p, e) ↦ (
          b,
          p,
          judge-Accepted device_id start role db e,
          ground (arith, e),
          ground (arith, e),
          ground (arith, e),
        )
      ]

  -- After a start that succeeds, the base itself, if it is the only base of its site and of a known
  -- type in its role, may acknowledge it: the acknowledgment is accepted for the start's pending row.
  -- The condition is that at the start no pending row was newer than `now`, the start of its
  -- transaction, and that the ids of the sequence are new: a reset that began later and committed first
  -- is excluded.
  pub trigger_then_ack :
      (base : String) (minutes : ℤ) (by role : String) (now later : ℕ) (db : Db) {c : ℕ} {db' : Db}
      (d : Device)
      → trigger_blast_atomic base minutes by now db ≡ ok (c, db')
      → IsFresh now db
      → find_device base db.devices ≡ some d
      → is_known_type d.device_type ≡ true
      → role_matches role d.device_type ≡ true
      → bases_of d.site_id db.devices ≡ d ∷ []
      → d.device_id ≡ base
      → let (answer, after) = acknowledge_trigger_start loads base (pos 1) role later db' in
        (answer ≡ true)
        × (after.acks
            ≡ record {
              device_id = base;
              pending_config_id = db.next_pending;
              trigger_start = pos 1;
              server_received_at = later;
              device_role = role;
            }
              ∷ db.acks)
  unfolding acknowledge_trigger_start judge holds_value
  trigger_then_ack base minutes by role now later db d h fresh found known in_role unique same =
      let armed = trigger-Armed base minutes by now db h fresh in
      ground
        (arith, armed, eq_iff base base, eq_iff d.device_id base, eq_iff d.device_id d.device_id)
