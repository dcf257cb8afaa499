-- ===== src/Examples/Reconcile.antt =====
-- A pass over the trigger of one base, half an hour after its start.
use Prim.Native.Char.{code}
use Prim.Native.String.{String}
use text.Mathlib.TextEquality.{Char-path}
use slope_monitoring.Common.{
  ℕ, suc, ◌+◌, ◌≡◌, refl, ap, ◌∙◌, Bool, true, false, ◌&&◌, ◌||◌, Option, none, some, is_some, ltb,
  ◌==◌, arith,
}
use slope_monitoring.Common.Int.{pos}
use slope_monitoring.Errors.{ok}
use slope_monitoring.Blast.Values.{integer}
use slope_monitoring.Blast.Tables.{ConfigRow, Db, find_config}
use slope_monitoring.Blast.Reconcile.{is_swept, reconcile_once}
use slope_monitoring.Blast.Laws.Expiring.{is_due}
use slope_monitoring.Blast.Laws.Pages.{IsOrder}
use slope_monitoring.Blast.Laws.Sweeping
use slope_monitoring.Blast.Laws.Ending
use slope_monitoring.Examples.Blast.{started, expired_at}

-- by code points
before : String → String → Bool
before String.[] String.[] = false
before String.[] (String.◌∷◌ d t) = true
before (String.◌∷◌ c s) String.[] = false
before (String.◌∷◌ c s) (String.◌∷◌ d t) = ltb (code c) (code d) || (code c == code d && before s t)

before_irreflexive : (a : String) → before a a ≡ false
unfolding before
before_irreflexive String.[] = refl
before_irreflexive (String.◌∷◌ c s) = ground (arith, before_irreflexive s)

before_trans : (a b c : String) → before a b ≡ true → before b c ≡ true → before a c ≡ true
unfolding before
before_trans String.[] String.[] u h k = absurd (ground arith)
before_trans String.[] (String.◌∷◌ d t) String.[] h k = absurd (ground arith)
before_trans String.[] (String.◌∷◌ d t) (String.◌∷◌ e u) h k = refl
before_trans (String.◌∷◌ c s) String.[] u h k = absurd (ground arith)
before_trans (String.◌∷◌ c s) (String.◌∷◌ d t) String.[] h k = absurd (ground arith)
before_trans (String.◌∷◌ c s) (String.◌∷◌ d t) (String.◌∷◌ e u) h k =
    ground (arith, before_trans s t u)

before_total : (a b : String) → before a b ≡ false → before b a ≡ false → a ≡ b
unfolding before
before_total String.[] String.[] h k = refl
before_total String.[] (String.◌∷◌ d t) h k = absurd (ground arith)
before_total (String.◌∷◌ c s) String.[] h k = absurd (ground arith)
before_total (String.◌∷◌ c s) (String.◌∷◌ d t) h k =
    let head : c ≡ d = Char-path c d (ground arith) in
    let tail : s ≡ t = before_total s t (ground arith) (ground arith) in
    ap (λ x. String.◌∷◌ x s) head ∙ ap (String.◌∷◌ d) tail

before-IsOrder : IsOrder before
before-IsOrder = record {
  irreflexive = before_irreflexive;
  transitive = before_trans;
  total = before_total;
}

abbrev soon : String → ℕ
soon d = 2000

-- before the end of the half hour the command stays on
not_expired : (reconcile_once before soon soon 100 started).0 ≡ some (ok 0)
unfolding reconcile_once slope_monitoring.Blast.Reconcile.sweep
    slope_monitoring.Blast.Reconcile.after_page slope_monitoring.Blast.Reconcile.page
    slope_monitoring.Blast.Reconcile.sort_rows slope_monitoring.Blast.Reconcile.candidates
    slope_monitoring.Blast.Trigger.trigger_blast_atomic slope_monitoring.Common.Text.int_of_text
    slope_monitoring.Blast.Trigger.set_site_trigger_on_conn
    slope_monitoring.Blast.Tables.find_device slope_monitoring.Blast.Trigger.write_row
    slope_monitoring.Blast.Tables.upsert_config slope_monitoring.Blast.Reconcile.is_candidate
    is_swept slope_monitoring.Blast.Reconcile.is_past_cursor
    slope_monitoring.Blast.Reconcile.insert_row slope_monitoring.Blast.Reconcile.expire_page
    slope_monitoring.Blast.Reconcile.expire_then slope_monitoring.Blast.Expiry.expire_one_on_conn
    slope_monitoring.Blast.Expiry.has_timeout slope_monitoring.Blast.Reconcile.add_count
    slope_monitoring.Blast.Reconcile.in_order slope_monitoring.Blast.Reconcile.is_after
    slope_monitoring.Blast.Reconcile.last_key slope_monitoring.Blast.Reconcile.next_cursor
    find_config slope_monitoring.Blast.Tables.insert_pending slope_monitoring.Blast.Values.expired
    slope_monitoring.Blast.Values.is_active slope_monitoring.Blast.Values.py_int
    slope_monitoring.Blast.Values.py_str slope_monitoring.Blast.Values.timeout_of
    slope_monitoring.Common.Text.is_space slope_monitoring.Common.Text.lower
    slope_monitoring.Common.Text.show_int slope_monitoring.Common.Text.strip
    slope_monitoring.Common.Text.text_eq
not_expired = refl

abbrev trigger_row : ConfigRow
trigger_row = record {
  device_id = "BASE-01";
  config_key = "TriggerStart";
  config_value = integer (pos 1);
  updated_by = "7";
  updated_at = 1000;
}

still_on :
    find_config "BASE-01" "TriggerStart" (reconcile_once before soon soon 100 started).1.config
    ≡ some trigger_row
unfolding reconcile_once find_config slope_monitoring.Blast.Reconcile.sweep
    slope_monitoring.Blast.Reconcile.after_page slope_monitoring.Blast.Reconcile.page
    slope_monitoring.Blast.Reconcile.sort_rows slope_monitoring.Blast.Reconcile.candidates
    slope_monitoring.Blast.Trigger.trigger_blast_atomic slope_monitoring.Common.Text.int_of_text
    slope_monitoring.Blast.Trigger.set_site_trigger_on_conn
    slope_monitoring.Blast.Tables.find_device slope_monitoring.Blast.Trigger.write_row
    slope_monitoring.Blast.Tables.upsert_config slope_monitoring.Blast.Reconcile.is_candidate
    is_swept slope_monitoring.Blast.Reconcile.is_past_cursor
    slope_monitoring.Blast.Reconcile.insert_row slope_monitoring.Blast.Reconcile.expire_page
    slope_monitoring.Blast.Expiry.expire_one_on_conn slope_monitoring.Blast.Expiry.has_timeout
    slope_monitoring.Blast.Reconcile.add_count slope_monitoring.Blast.Reconcile.expire_then
    slope_monitoring.Blast.Reconcile.in_order slope_monitoring.Blast.Reconcile.is_after
    slope_monitoring.Blast.Reconcile.last_key slope_monitoring.Blast.Reconcile.next_cursor
    slope_monitoring.Blast.Tables.insert_pending slope_monitoring.Blast.Values.expired
    slope_monitoring.Blast.Values.is_active slope_monitoring.Blast.Values.py_int
    slope_monitoring.Blast.Values.py_str slope_monitoring.Blast.Values.timeout_of
    slope_monitoring.Common.Text.is_space slope_monitoring.Common.Text.lower
    slope_monitoring.Common.Text.show_int slope_monitoring.Common.Text.strip
    slope_monitoring.Common.Text.text_eq
still_on = refl

still_swept : is_swept (integer (pos 1)) ≡ true
unfolding is_swept
still_swept = refl

reconcile_once-settles_example :
    is_due "BASE-01" 2000 (reconcile_once before soon soon 100 started).1 ≡ false
reconcile_once-settles_example =
    Sweeping.reconcile_once-settles before before-IsOrder soon soon 100 started "BASE-01"
      trigger_row not_expired still_on still_swept

-- after it the pass switches it off
abbrev late : String → ℕ
late d = expired_at

one_expired : (reconcile_once before late late 100 started).0 ≡ some (ok 1)
unfolding reconcile_once slope_monitoring.Blast.Reconcile.sweep
    slope_monitoring.Blast.Reconcile.after_page slope_monitoring.Blast.Reconcile.page
    slope_monitoring.Blast.Reconcile.sort_rows slope_monitoring.Blast.Reconcile.candidates
    slope_monitoring.Blast.Trigger.trigger_blast_atomic slope_monitoring.Common.Text.int_of_text
    slope_monitoring.Blast.Trigger.set_site_trigger_on_conn
    slope_monitoring.Blast.Tables.find_device slope_monitoring.Blast.Trigger.write_row
    slope_monitoring.Blast.Tables.upsert_config slope_monitoring.Blast.Reconcile.is_candidate
    is_swept slope_monitoring.Blast.Reconcile.is_past_cursor
    slope_monitoring.Blast.Reconcile.insert_row slope_monitoring.Blast.Reconcile.expire_page
    slope_monitoring.Blast.Reconcile.expire_then slope_monitoring.Blast.Expiry.expire_one_on_conn
    slope_monitoring.Blast.Expiry.has_timeout slope_monitoring.Blast.Reconcile.add_count
    slope_monitoring.Blast.Reconcile.in_order slope_monitoring.Blast.Reconcile.is_after
    slope_monitoring.Blast.Reconcile.last_key slope_monitoring.Blast.Reconcile.next_cursor
    find_config slope_monitoring.Blast.Tables.insert_pending slope_monitoring.Blast.Values.expired
    slope_monitoring.Blast.Values.is_active slope_monitoring.Blast.Values.py_int
    slope_monitoring.Blast.Values.py_str slope_monitoring.Blast.Values.timeout_of
    slope_monitoring.Common.Text.is_space slope_monitoring.Common.Text.lower
    slope_monitoring.Common.Text.show_int slope_monitoring.Common.Text.strip
    slope_monitoring.Common.Text.text_eq
one_expired = refl

reconcile_once_ends_example : is_some (reconcile_once before late late 100 started).0 ≡ true
reconcile_once_ends_example = Ending.reconcile_once_ends before before-IsOrder late late 100 started
