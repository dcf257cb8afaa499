-- ===== src/Blast/Laws/Refusing.antt =====
-- Why an acknowledgment is refused, and what the refusal writes.
use mathlib.Core.Path.{subst}
use slope_monitoring.Common.{
  ℕ, ◌≤◌, ◌<◌, String, ◌≡◌, refl, sym, ◌⊎◌, true, false, not, ◌&&◌, Option, none, some, [], ◌∷◌,
  ltb, str_eq, arith, length, Option-cases, List-cases, Bool-cases, inl, inr,
}
use slope_monitoring.Common.Int.{ℤ, pos}
use slope_monitoring.Blast.Values.{Value}
use slope_monitoring.Blast.Tables.{
  Device, ConfigRow, PendingRow, Db, Reason, unknown_device, invalid_device_type, role_mismatch,
  base_not_unique, base_not_found, non_authoritative_base, command_state_mismatch,
  no_matching_pending, stale_pending, find_device, find_config, latest_pending,
}
use slope_monitoring.Blast.Ack.{
  is_base_type, is_known_type, role_matches, bases_of, holds_value, Verdict, rejected, accepted,
  judge, acknowledge_trigger_start,
}

abbrev pub site_id_of : Option Device → Option String
site_id_of none = none
site_id_of (some d) = some d.site_id

module _ (loads : String → Option Value) (device_id : String) (start : ℤ) (role : String)
    (db : Db) where
  -- the row does not hold the acknowledged value, or there is none
  abbrev pub LacksCommand : Option ConfigRow → Type 0
  LacksCommand none = Unit
  LacksCommand (some c) = holds_value loads start c.config_value ≡ false

  abbrev pub LacksPending : Option PendingRow → Type 0
  LacksPending none = Unit
  LacksPending (some p) = holds_value loads start p.config_value ≡ false

  -- the one base of the site of a registered sender `d` is `x`, and its command holds the value
  abbrev pub IsEntitled : Device → Device → Type 0
  IsEntitled d x =
      (find_device device_id db.devices ≡ some d)
      × (is_known_type d.device_type ≡ true)
      × (role_matches role d.device_type ≡ true)
      × (bases_of d.site_id db.devices ≡ x ∷ [])

  -- what each reason, with the base that is named, says of the tables
  abbrev pub Explains : Reason → Option String → Type 0
  Explains unknown_device base = (find_device device_id db.devices ≡ none) × (base ≡ none)
  Explains invalid_device_type base =
      (d : Device) × (find_device device_id db.devices ≡ some d)
      × (is_known_type d.device_type ≡ false)
      × (base ≡ none)
  Explains role_mismatch base =
      (d : Device) × (find_device device_id db.devices ≡ some d)
      × (role_matches role d.device_type ≡ false)
      × (base ≡ none)
  Explains base_not_found base =
      (d : Device) × (find_device device_id db.devices ≡ some d)
      × (bases_of d.site_id db.devices ≡ [])
      × (base ≡ none)
  Explains base_not_unique base =
      (d : Device) × (find_device device_id db.devices ≡ some d)
      × (2 ≤ length (bases_of d.site_id db.devices))
      × (base ≡ none)
  Explains non_authoritative_base base =
      (d : Device) × (x : Device) × IsEntitled d x
      × (is_base_type d.device_type ≡ true)
      × (str_eq d.device_id x.device_id ≡ false)
      × (base ≡ some x.device_id)
  Explains command_state_mismatch base =
      (d : Device) × (x : Device) × IsEntitled d x
      × LacksCommand (find_config x.device_id "TriggerStart" db.config)
      × (base ≡ some x.device_id)
  Explains no_matching_pending base =
      (d : Device) × (x : Device) × IsEntitled d x
      × LacksPending (latest_pending x.device_id "TriggerStart" db.pending)
      × (base ≡ some x.device_id)
  Explains stale_pending base =
      (d : Device) × (x : Device) × (c : ConfigRow) × (p : PendingRow) × IsEntitled d x
      × (find_config x.device_id "TriggerStart" db.config ≡ some c)
      × (latest_pending x.device_id "TriggerStart" db.pending ≡ some p)
      × (p.created_at < c.updated_at)
      × (base ≡ some x.device_id)

  abbrev IsExplained : Verdict → Type 0
  IsExplained (rejected why base) = Explains why base
  IsExplained (accepted base p) = Unit

  -- a verdict that is known is explained if its reason is
  verdict_is :
      {v : Verdict}
      → judge loads device_id start role db ≡ v
      → IsExplained v
      → IsExplained (judge loads device_id start role db)
  verdict_is e h = subst IsExplained (sym e) h

  module _ (d x : Device) (ok : IsEntitled d x)
      (may : is_base_type d.device_type && not (str_eq d.device_id x.device_id) ≡ false) where
    pending-IsExplained :
        (c : ConfigRow)
        → find_config x.device_id "TriggerStart" db.config ≡ some c
        → holds_value loads start c.config_value ≡ true
        → IsExplained (judge loads device_id start role db)
    unfolding judge
    pending-IsExplained c e on =
        elim (Option-cases (latest_pending x.device_id "TriggerStart" db.pending)) [
          | inl l ↦
              verdict_is {v = rejected no_matching_pending (some x.device_id)}
                (ground (arith, ok, may, e, on, l)) (d, x, ok, subst LacksPending (sym l) tt, refl)
          | inr (p, l) ↦ elim (Bool-cases (holds_value loads start p.config_value)) [
            | inr off ↦
                verdict_is {v = rejected no_matching_pending (some x.device_id)}
                  (ground (arith, ok, may, e, on, l, off))
                  (d, x, ok, subst LacksPending (sym l) off, refl)
            | inl same ↦ elim (Bool-cases (ltb p.created_at c.updated_at)) [
              | inl stale ↦
                  verdict_is {v = rejected stale_pending (some x.device_id)}
                    (ground (arith, ok, may, e, on, l, same, stale))
                    (d, x, c, p, ok, e, l, ground (arith, stale), refl)
              | inr fresh ↦
                  verdict_is {v = accepted x.device_id p}
                    (ground (arith, ok, may, e, on, l, same, fresh)) tt
            ]
          ]
        ]

    command-IsExplained : IsExplained (judge loads device_id start role db)
    unfolding judge
    command-IsExplained = elim (Option-cases (find_config x.device_id "TriggerStart" db.config)) [
      | inl e ↦
          verdict_is {v = rejected command_state_mismatch (some x.device_id)}
            (ground (arith, ok, may, e)) (d, x, ok, subst LacksCommand (sym e) tt, refl)
      | inr (c, e) ↦ elim (Bool-cases (holds_value loads start c.config_value)) [
        | inr off ↦
            verdict_is {v = rejected command_state_mismatch (some x.device_id)}
              (ground (arith, ok, may, e, off)) (d, x, ok, subst LacksCommand (sym e) off, refl)
        | inl on ↦ pending-IsExplained c e on
      ]
    ]

  judge-IsExplained : IsExplained (judge loads device_id start role db)
  unfolding judge
  judge-IsExplained = elim (Option-cases (find_device device_id db.devices)) [
    | inl e ↦ verdict_is {v = rejected unknown_device none} (ground (arith, e)) (e, refl)
    | inr (d, found) ↦ elim (Bool-cases (is_known_type d.device_type)) [
      | inr unknown ↦
          verdict_is {v = rejected invalid_device_type none} (ground (arith, found, unknown))
            (d, found, unknown, refl)
      | inl known ↦ elim (Bool-cases (role_matches role d.device_type)) [
        | inr other ↦
            verdict_is {v = rejected role_mismatch none} (ground (arith, found, known, other))
              (d, found, other, refl)
        | inl in_role ↦ elim (List-cases (bases_of d.site_id db.devices)) [
          | inl e ↦
              verdict_is {v = rejected base_not_found none}
                (ground (arith, found, known, in_role, e)) (d, found, e, refl)
          | inr (inr (x, y, ys, e)) ↦
              verdict_is {v = rejected base_not_unique none}
                (ground (arith, found, known, in_role, e)) (d, found, rw e (ground arith), refl)
          | inr (inl (x, e)) ↦
              elim (Bool-cases
                (is_base_type d.device_type && not (str_eq d.device_id x.device_id))) [
                  | inr may ↦ command-IsExplained d x (found, known, in_role, e) may
                  | inl may_not ↦
                      verdict_is {v = rejected non_authoritative_base (some x.device_id)}
                        (ground (arith, found, known, in_role, e, may_not))
                        (
                          d,
                          x,
                          (found, known, in_role, e),
                          ground (arith, may_not),
                          ground (arith, may_not),
                          refl,
                        )
                ]
        ]
      ]
    ]
  ]

  verdict_of :
      (v : Verdict)
      → ((why : Reason) × (b : Option String) × (v ≡ rejected why b))
        ⊎ ((b : String) × (p : PendingRow) × (v ≡ accepted b p))
  verdict_of (rejected why b) = inl (why, b, refl)
  verdict_of (accepted b p) = inr (b, p, refl)

-- An acknowledgment of 0 or 1 that is refused writes one row, and nothing else: a rejection with the
-- sender, its site, the acknowledged value, the time, and a reason that holds of the tables, with the
-- base of the site where the reason names one.
pub ack_refusal_audited :
    (loads : String → Option Value) (device_id : String) (n : ℕ) (role : String) (now : ℕ) (db : Db)
    {db' : Db}
    → n ≤ 1
    → acknowledge_trigger_start loads device_id (pos n) role now db ≡ (false, db')
    → (why : Reason) × (base : Option String) × Explains loads device_id (pos n) role db why base
      × (db' ≡ record db {
        rejections =
            record {
              device_id = device_id;
              site_id = site_id_of (find_device device_id db.devices);
              base_id = base;
              trigger_start = pos n;
              reason_code = why;
              server_received_at = now;
            }
            ∷ db.rejections;
      })
unfolding acknowledge_trigger_start
ack_refusal_audited loads device_id n role now db {db'} le h =
    let explained = judge-IsExplained loads device_id (pos n) role db in
    elim (verdict_of loads device_id (pos n) role db (judge loads device_id (pos n) role db)) [
      | inl (why, base, e) ↦ (
        why,
        base,
        subst (IsExplained loads device_id (pos n) role db) e explained,
        ground (arith, e),
      )
      | inr (base, p, e) ↦ absurd (ground (arith, e))
    ]
