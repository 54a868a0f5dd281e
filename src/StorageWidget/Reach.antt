-- ===== src/StorageWidget/Reach.antt =====
-- The identifiers after any events.
use cscrypto.Base.{
  ℕ, ◌+◌, ◌-◌, ◌^◌, ◌≡◌, ◌≤◌, ◌<◌, refl, Bool, true, false, Option, List, [], ◌∷◌, arith, ltb,
  if◌then◌else◌, length, Outcome, ok, ◌>>=◌,
}
use cscrypto.Base58.{Base58}
use cscrypto.StorageWidget.{
  StorageWidget, initial, created, set_up_model, import_new_key, remove_key,
}
use cscrypto.StorageWidget.Rows.{PublicKeyRow, Sql, ids_below}
use cscrypto.StorageWidget.Events.{
  Event, import_clicked, remove_clicked, key_typed, holder_typed, id_typed, trusted_clicked,
  import_confirmed, import_cancelled, remove_confirmed, remove_cancelled, step, run_events,
}
use cscrypto.StorageWidget.Numbers.{
  IsNumbered, Numbers, next_record_id_lem, add_key_to_database-Numbers,
  remove_key_from_database-Numbers,
}

module _ (sql : Sql) (b : Base58) where
  if_Numbers :
      (on : Bool) (w : StorageWidget) (run : Outcome StorageWidget)
      → IsNumbered w
      → Numbers sql b w run
      → Numbers sql b w (if on then run else ok w)
  if_Numbers true w run below numbers = numbers
  if_Numbers false w run below numbers = (w, refl, below, omega arith)

  step-Numbers :
      (e : Event) (w : StorageWidget)
      → IsNumbered w
      → w.record_id + 1 < 2 ^ 31
      → Numbers sql b w (step sql b e w)
  unfolding step import_new_key remove_key
  step-Numbers import_clicked w below h = (_, refl, below, omega arith)
  step-Numbers remove_clicked w below h = (_, refl, below, omega arith)
  step-Numbers (key_typed text) w below h = (_, refl, below, omega arith)
  step-Numbers (holder_typed text) w below h = (_, refl, below, omega arith)
  step-Numbers (id_typed text) w below h = (_, refl, below, omega arith)
  step-Numbers (trusted_clicked on) w below h = (_, refl, below, omega arith)
  step-Numbers import_confirmed w below h = if_Numbers (ltb 0 w.import_dialogs) w _ below (
      add_key_to_database-Numbers sql b (record w { import_dialogs = w.import_dialogs - 1 }) below
        h)
  step-Numbers import_cancelled w below h = (_, refl, below, omega arith)
  step-Numbers remove_confirmed w below h = if_Numbers (ltb 0 w.remove_dialogs) w _ below (
      remove_key_from_database-Numbers sql b (record w { remove_dialogs = w.remove_dialogs - 1 })
        below)
  step-Numbers remove_cancelled w below h = (_, refl, below, omega arith)

  pub run_events-Numbers :
      (es : List Event) (w : StorageWidget)
      → IsNumbered w
      → w.record_id + length es < 2 ^ 31
      → (w' : StorageWidget) × (run_events sql b es w ≡ ok w')
        × IsNumbered w'
        × (w'.record_id ≤ w.record_id + length es)
  unfolding run_events
  run_events-Numbers [] w below h = (w, refl, below, omega arith)
  run_events-Numbers (e ∷ es) w below h =
      let (next, stepped, below', le) = step-Numbers e w below (omega (arith, h)) in
      let (last, ran, below'', le') = run_events-Numbers es next below' (omega (arith, h, le)) in
      (last, rw stepped ran, below'', omega (arith, le, le'))

  -- A tab on a table whose identifiers are below `limit`, or on none, and whatever a user does with
  -- it, in any order, as long as `limit` and the number of events make an `int`: nothing overflows,
  -- and at the end every identifier of the table is below the next one, which is at most `limit` and the
  -- number of events.
  pub run_events-IsNumbered :
      (limit : ℕ) (table : Option (List PublicKeyRow)) (es : List Event)
      → ids_below limit (created table) ≡ true
      → limit + length es < 2 ^ 31
      → (w : StorageWidget) × ((set_up_model table >>= run_events sql b es) ≡ ok w)
        × IsNumbered w
        × (w.record_id ≤ limit + length es)
  unfolding set_up_model initial
  run_events-IsNumbered limit table es below h =
      let (n, found, low, top, all) =
        next_record_id_lem limit 0 (created table) (omega (arith, h)) (omega arith) below in
      let (w, ran, numbered, le) =
        run_events-Numbers es (initial (created table) n) all (omega (arith, top, h)) in
      (w, rw found ran, numbered, omega (arith, le, top))
